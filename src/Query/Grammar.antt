-- ===== src/Query/Grammar.antt =====
-- `check_span` accepts the spans of the grammar, and no other text.
use tessaridb_sdk_python.Prelude.{
  ℕ, zero, suc, ◌≤◌, ◌<◌, ◌≡◌, refl, ap, ◌∙◌, Bool, true, false, Bool-cases, inl, inr, Option-cases,
  ◌↔◌, none, some, List, [], ◌∷◌, ◌++◌, arith, length, length-append, All,
}
use tessaridb_sdk_python.Result.{Str, ok}
use tessaridb_sdk_python.Text.{is_digit, strip, first_of, first_of-eq}
use tessaridb_sdk_python.Query.Spans.{
  skip_digits, SpanUnit, nanos, micros, millis, seconds, minutes, hours, days, weeks, unit_text,
  longest_first, skip_unit, span_from, check_span, Part, IsPart, spelled,
}

-- The digits that were skipped, before what they leave.
skip_digits-eq :
    (t : Str)
    → (ds : Str) × All (λ c. is_digit c ≡ true) ds
      × (length ds ≡ (skip_digits t).0)
      × (t ≡ ds ++ (skip_digits t).1)
unfolding skip_digits
skip_digits-eq [] = ([], tt, refl, refl)
skip_digits-eq (c ∷ t) = elim (Bool-cases (is_digit c)) [
  | inl digit ↦
      let (ds, all, len, eq) = skip_digits-eq t in
      rw digit (c ∷ ds, (digit, all), ap suc len, ap (λ s. c ∷ s) eq)
  | inr other ↦ rw other ([], tt, refl, refl)
]

skip_digits-append :
    (ds t : Str)
    → All (λ c. is_digit c ≡ true) ds
    → skip_digits t ≡ (0, t)
    → skip_digits (ds ++ t) ≡ (length ds, t)
unfolding skip_digits
skip_digits-append [] t all stop = stop
skip_digits-append (e ∷ ds) t all stop =
    let same = skip_digits-append ds t all.1 stop in rw (same, all.0) refl

-- What starts with a digit, or is empty.
abbrev Starts : Str → Type 0
Starts [] = Unit
Starts (c ∷ t) = is_digit c ≡ true

strip-second : (rest : Str) → Starts rest → strip (unit_text seconds) rest ≡ none
unfolding strip unit_text
strip-second [] h = refl
strip-second (c ∷ t) h = ground arith

first_unit-unit_text :
    (u : SpanUnit) (rest : Str)
    → Starts rest
    → first_of unit_text longest_first (unit_text u ++ rest) ≡ some (u, rest)
unfolding first_of unit_text strip
first_unit-unit_text nanos rest h = refl
first_unit-unit_text micros rest h = refl
first_unit-unit_text millis rest h = refl
first_unit-unit_text seconds rest h = refl
first_unit-unit_text minutes rest h = ground (arith, strip-second rest h)
first_unit-unit_text hours rest h = refl
first_unit-unit_text days rest h = refl
first_unit-unit_text weeks rest h = refl

skip_digits-unit_text :
    (u : SpanUnit) (rest : Str) → skip_digits (unit_text u ++ rest) ≡ (0, unit_text u ++ rest)
unfolding skip_digits unit_text
skip_digits-unit_text nanos rest = refl
skip_digits-unit_text micros rest = refl
skip_digits-unit_text millis rest = refl
skip_digits-unit_text seconds rest = refl
skip_digits-unit_text minutes rest = refl
skip_digits-unit_text hours rest = refl
skip_digits-unit_text days rest = refl
skip_digits-unit_text weeks rest = refl

spelled-Starts : (parts : List Part) → All IsPart parts → Starts (spelled parts)
unfolding spelled
spelled-Starts [] h = tt
spelled-Starts (p ∷ parts) h = h.0.0

-- One part of a span is skipped, whatever parts follow it.
skip_part :
    (p : Part) (parts : List Part)
    → All IsPart (p ∷ parts)
    → skip_unit (skip_digits (spelled (p ∷ parts))) ≡ some (spelled parts)
unfolding skip_unit spelled
skip_part p parts h =
    let stop = skip_digits-unit_text p.unit (spelled parts) in
    let digits =
      skip_digits-append (p.first ∷ p.others) (unit_text p.unit ++ spelled parts) h.0 stop in
    let unit = first_unit-unit_text p.unit (spelled parts) (spelled-Starts parts h.1) in
    ap skip_unit digits ∙ rw (unit, skip_unit) refl

span_from-spelled :
    (rounds : ℕ) (seen : Bool) (p : Part) (parts : List Part)
    → All IsPart (p ∷ parts)
    → length (spelled (p ∷ parts)) ≤ rounds
    → span_from rounds seen (spelled (p ∷ parts)) ≡ true
unfolding span_from spelled
span_from-spelled zero seen p parts h fits = absurd (omega arith)
span_from-spelled (suc rounds) seen p [] h fits = rw (skip_part p [] h, span_from) refl
span_from-spelled (suc rounds) seen p (next ∷ parts) h fits =
    let fewer : length (spelled (next ∷ parts)) ≤ rounds = omega (
      arith,
      length-append p.others (unit_text p.unit ++ spelled (next ∷ parts)),
      length-append (unit_text p.unit) (spelled (next ∷ parts)),
    ) in
    rw (skip_part p (next ∷ parts) h, span_from)
      (span_from-spelled rounds true next parts h.1 fewer)

-- The way back: what is skipped is a part.
skip_unit-eq :
    (n : ℕ) (t rest : Str)
    → skip_unit (n, t) ≡ some rest
    → (u : SpanUnit) × (t ≡ unit_text u ++ rest) × (0 < n)
unfolding skip_unit
skip_unit-eq zero t rest h = cc
skip_unit-eq (suc n) t rest h = elim (Option-cases (first_of unit_text longest_first t)) [
  | inl none_fits ↦ let h' = rw (none_fits, skip_unit) at h in cc
  | inr ((u, left), fits) ↦
      let same : left ≡ rest = ground (arith, rw (fits, skip_unit) at h) in
      (
        u,
        first_of-eq unit_text longest_first t rest u (fits ∙ ap (λ l. some (u, l)) same),
        omega arith,
      )
]

-- A count that was skipped with its unit, as a part of the grammar.
part_of :
    (t rest : Str)
    → skip_unit (skip_digits t) ≡ some rest
    → (p : Part) × IsPart p × (t ≡ (p.first ∷ p.others) ++ (unit_text p.unit ++ rest))
part_of t rest h =
    let (ds, all, len, eq) = skip_digits-eq t in
    let (u, unit, some_digits) = skip_unit-eq (skip_digits t).0 (skip_digits t).1 rest h in
    build rest u ds all (omega (arith, len)) (eq ∙ ap (λ r. ds ++ r) unit)
  where
    build :
        {t : Str} (rest : Str) (u : SpanUnit) (ds : Str)
        → All (λ c. is_digit c ≡ true) ds
        → 0 < length ds
        → t ≡ ds ++ (unit_text u ++ rest)
        → (p : Part) × IsPart p × (t ≡ (p.first ∷ p.others) ++ (unit_text p.unit ++ rest))
    build rest u [] all few eq = absurd (omega arith)
    build rest u (d ∷ ds) all few eq = (record { first = d; others = ds; unit = u }, all, eq)

span_from_sound :
    (rounds : ℕ) (seen : Bool) (t : Str)
    → span_from rounds seen t ≡ true
    → (parts : List Part) × All IsPart parts × (t ≡ spelled parts)
unfolding span_from spelled
span_from_sound rounds seen [] h = ([], tt, refl)
span_from_sound zero seen (c ∷ t) h = cc
span_from_sound (suc rounds) seen (c ∷ t) h =
    elim (Option-cases (skip_unit (skip_digits (c ∷ t)))) [
      | inl stuck ↦ let h' = rw (stuck, span_from) at h in cc
      | inr (rest, skipped) ↦
          let (p, is, eq) = part_of (c ∷ t) rest skipped in
          let (parts, all, same) =
            span_from_sound rounds true rest (rw (skipped, span_from) at h) in
          (
            p ∷ parts,
            (is, all),
            eq ∙ ap (λ r. (p.first ∷ p.others) ++ (unit_text p.unit ++ r)) same,
          )
    ]

nonempty :
    (c : ℕ) (t : Str) (parts : List Part)
    → All IsPart parts
    → c ∷ t ≡ spelled parts
    → (p : Part) × (parts : List Part) × All IsPart (p ∷ parts) × (c ∷ t ≡ spelled (p ∷ parts))
unfolding spelled
nonempty c t [] all eq = cc
nonempty c t (p ∷ parts) all eq = (p, parts, all, eq)

checked : (t : Str) → check_span t ≡ ok t → span_from (length t) false t ≡ true
unfolding check_span
checked t h = ground arith

accepted :
    (t : Str)
    → span_from (length t) false t ≡ true
    → (p : Part) × (parts : List Part) × All IsPart (p ∷ parts) × (t ≡ spelled (p ∷ parts))
unfolding span_from
accepted [] h = cc
accepted (c ∷ t) h =
    let (parts, all, eq) = span_from_sound (length (c ∷ t)) false (c ∷ t) h in
    nonempty c t parts all eq

check_span-parts :
    (p : Part) (parts : List Part)
    → All IsPart (p ∷ parts)
    → check_span (spelled (p ∷ parts)) ≡ ok (spelled (p ∷ parts))
unfolding check_span
check_span-parts p parts h =
    rw (span_from-spelled (length (spelled (p ∷ parts))) false p parts h (omega arith)) refl

-- `check_span` returns a text exactly when it is spelled by one or more parts, each of one or more
-- digits and one of the eight units.
pub check_span-spelled :
    (t : Str)
    → (check_span t ≡ ok t)
      ↔ ((p : Part) × (parts : List Part) × All IsPart (p ∷ parts) × (t ≡ spelled (p ∷ parts)))
check_span-spelled t = (
  λ h. accepted t (checked t h),
  λ spelt. rw (spelt.3) (check_span-parts spelt.0 spelt.1 spelt.2),
)
