-- ===== src/Query/Spans.antt =====
-- `check_span`: digits and a unit, once or more.
use tessaridb_sdk_python.Prelude.{
  ℕ, zero, suc, ◌≡◌, Bool, true, false, Option, none, some, List, [], ◌∷◌, ◌++◌, if◌then◌else◌,
  length, All,
}
use tessaridb_sdk_python.Result.{Str, Result, ok, err, builder, not_a_span}
use tessaridb_sdk_python.Text.{chars, is_digit, first_of}

-- `rest` behind its digits, and how many there were.
unfoldable pub skip_digits : Str → ℕ × Str
skip_digits [] = (0, [])
skip_digits (c ∷ t) =
    let (n, rest) = skip_digits t in if is_digit c then (suc n, rest) else (0, c ∷ t)

pub data SpanUnit : Type 0 where
  nanos micros millis seconds minutes hours days weeks : SpanUnit

unfoldable pub unit_text : SpanUnit → Str
unit_text nanos = chars "ns"
unit_text micros = chars "us"
unit_text millis = chars "ms"
unit_text seconds = chars "s"
unit_text minutes = chars "m"
unit_text hours = chars "h"
unit_text days = chars "d"
unit_text weeks = chars "w"

-- `sorted(SPAN_UNITS, key=len, reverse=True)`.
abbrev pub longest_first : List SpanUnit
longest_first = nanos ∷ micros ∷ millis ∷ seconds ∷ minutes ∷ hours ∷ days ∷ weeks ∷ []

-- Behind a count of `n` digits: a unit, and what is left.
unfoldable pub skip_unit : ℕ × Str → Option Str
skip_unit (zero, rest) = none
skip_unit (suc n, rest) = elim (first_of unit_text longest_first rest) [
  | none ↦ none
  | some (u, left) ↦ some left
]

-- The loop: every part is two characters at least, so `length` rounds are enough.
unfoldable pub span_from : ℕ → Bool → Str → Bool
span_from rounds seen [] = seen
span_from zero seen (c ∷ t) = false
span_from (suc rounds) seen (c ∷ t) = elim (skip_unit (skip_digits (c ∷ t))) [
  | none ↦ false
  | some rest ↦ span_from rounds true rest
]

unfoldable pub check_span : Str → Result Str
check_span t = if span_from (length t) false t then ok t else err (builder (not_a_span t))

-- The grammar: the parts of a span, each a count in digits and a unit.
pub record Part : Type 0 where
  pub first : ℕ
  pub others : Str
  pub unit : SpanUnit

abbrev pub IsPart : Part → Type 0
IsPart p = All (λ c. is_digit c ≡ true) (p.first ∷ p.others)

unfoldable pub spelled : List Part → Str
spelled [] = []
spelled (p ∷ parts) = (p.first ∷ p.others) ++ (unit_text p.unit ++ spelled parts)
