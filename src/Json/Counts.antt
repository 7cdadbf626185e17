-- ===== src/Json/Counts.antt =====
-- Counts with units: their text, and what reading one count and one unit gives.
use tessaridb_sdk_python.Prelude.{
  ℕ, zero, suc, ◌+◌, ◌-◌, ◌*◌, ◌/◌, ◌%◌, ◌<◌, ◌≡◌, refl, Bool, true, false, Bool-cases, inl, inr, ℤ,
  pos, negsuc, pos_part, neg_part, none, some, List, [], ◌∷◌, ◌++◌, map, All, arith, ltb,
}
use tessaridb_sdk_python.Result.{Str, ok}
use tessaridb_sdk_python.Value.{duration}
use tessaridb_sdk_python.Text.{is_digit, digits, show, read_nat, strip, first_of}
use tessaridb_sdk_python.Json.Node.{Character, decimal_digit}
use tessaridb_sdk_python.Json.Numbers.{negative}
use tessaridb_sdk_python.Json.Durations.{
  TimeUnit, millis, micros, nanos, hours, minutes, seconds, time_text, time_nanos, time_units,
  count_of, floor_div, floor_mod, normalised,
}

-- A duration as counts of units, its text, and its nanoseconds.
abbrev pub Parts : Type 0
Parts = List (ℕ × TimeUnit)

unfoldable pub spelled : Parts → Str
spelled [] = []
spelled ((n, u) ∷ parts) = show n ++ (time_text u ++ spelled parts)

unfoldable pub span_nanos : Parts → ℕ
span_nanos [] = 0
span_nanos ((n, u) ∷ parts) = n * time_nanos u + span_nanos parts

unfoldable pub sign_text : Bool → Str
sign_text true = 45 ∷ []
sign_text false = []

-- Digits, at least one.
abbrev pub IsNumeral : Str → Type 0
IsNumeral [] = ⊥
IsNumeral (c ∷ s) = (is_digit c ≡ true) × All (λ d. is_digit d ≡ true) s

pub digits-IsNumeral : (rounds n : ℕ) (out : Str) → IsNumeral out → IsNumeral (digits rounds n out)
unfolding digits
digits-IsNumeral zero n out h = h
digits-IsNumeral (suc rounds) n [] h = absurd h
digits-IsNumeral (suc rounds) n (c ∷ s) h =
    let last : is_digit (48 + n % 10) ≡ true = ground arith in
    elim (Bool-cases (ltb n 10)) [
      | inl e ↦ rw (e, digits, IsNumeral) (last, h)
      | inr e ↦
          rw (e, digits, IsNumeral)
            (digits-IsNumeral rounds (n / 10) ((48 + n % 10) ∷ c ∷ s) (last, h))
    ]

pub show-IsNumeral : (n : ℕ) → IsNumeral (show n)
unfolding show digits
show-IsNumeral n =
    let last : is_digit (48 + n % 10) ≡ true = ground arith in
    elim (Bool-cases (ltb n 10)) [
      | inl e ↦ rw (e, digits, IsNumeral) (last, tt)
      | inr e ↦
          rw (e, digits, IsNumeral) (digits-IsNumeral n (n / 10) ((48 + n % 10) ∷ []) (last, tt))
    ]

unfoldable pub as_digit : ℕ → Character
as_digit c = decimal_digit (c - 48)

-- The count behind `n` is the number that the digits spell.
pub count_of-digits :
    (n : ℕ) (ds : Str)
    → All (λ c. is_digit c ≡ true) ds
    → count_of n (map as_digit ds) ≡ ok (read_nat n ds).0
unfolding count_of as_digit read_nat
count_of-digits n [] h = refl
count_of-digits n (c ∷ ds) h = rw (h.0, read_nat) (count_of-digits (n * 10 + (c - 48)) ds h.1)

-- What starts with a digit, or is empty.
abbrev pub Starts : Str → Type 0
Starts [] = Unit
Starts (c ∷ t) = is_digit c ≡ true

pub strip-second : (rest : Str) → Starts rest → strip (time_text seconds) rest ≡ none
unfolding strip time_text
strip-second [] h = refl
strip-second (c ∷ t) h = ground arith

pub first_unit-time_text :
    (u : TimeUnit) (rest : Str)
    → Starts rest
    → first_of time_text time_units (time_text u ++ rest) ≡ some (u, rest)
unfolding first_of time_text strip
first_unit-time_text millis rest h = refl
first_unit-time_text micros rest h = refl
first_unit-time_text nanos rest h = refl
first_unit-time_text hours rest h = refl
first_unit-time_text minutes rest h = ground (arith, strip-second rest h)
first_unit-time_text seconds rest h = refl

pub negative_parts : (n : ℕ) → (pos_part (negative n) ≡ 0) × (neg_part (negative n) ≡ n)
unfolding negative
negative_parts zero = (refl, refl)
negative_parts (suc n) = (refl, refl)

pub normalised_lem :
    (t : ℤ)
    → (normalised t ≡ duration (floor_div t 1_000_000_000) (pos (floor_mod t 1_000_000_000)))
      × (floor_mod t 1_000_000_000 < 1_000_000_000)
      × (pos_part (floor_div t 1_000_000_000) * 1_000_000_000
            + floor_mod t 1_000_000_000
            + neg_part t
          ≡ neg_part (floor_div t 1_000_000_000) * 1_000_000_000 + pos_part t)
unfolding normalised floor_div floor_mod
normalised_lem (pos n) = (refl, omega arith, omega arith)
normalised_lem (negsuc n) = (refl, omega arith, omega arith)
