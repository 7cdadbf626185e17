-- ===== src/Json/Fuel.antt =====
-- The loop of `_duration` has rounds enough.
use tessaridb_sdk_python.Prelude.{
  ℕ, zero, suc, ◌+◌, ◌*◌, ◌≤◌, ◌≡◌, ◌≢◌, ap, Bool-cases, inl, inr, Option-cases, List, [], ◌∷◌,
  length, length-append, ℤ, pos, arith, ◌==◌,
}
use tessaridb_sdk_python.Result.{Str, Result, ok, err, bind, out_of_fuel}
use tessaridb_sdk_python.Text.{first_of, first_of-eq}
use tessaridb_sdk_python.Json.Node.{
  Character, space, other_digit, other_character, decimal_digit, Python,
}
use tessaridb_sdk_python.Json.Numbers.{negative}
use tessaridb_sdk_python.Json.Durations.{
  time_text, time_units, count_of, behind_count, part_of, normalised, take_digit, split_digits,
  sum_parts, magnitude, read_duration,
}

-- What is left of a text is no longer than it, and the rounds did not run out.
abbrev Shorter : ℕ → Result (ℕ × Str) → Type 0
Shorter most (ok (n, rest)) = length rest ≤ most
Shorter most (err e) = e ≢ out_of_fuel

abbrev Returns : {A : Type 0} → Result A → Type 0
Returns r = r ≢ err out_of_fuel

count_of-Returns : (n : ℕ) (ds : List Character) → count_of n ds ≢ err out_of_fuel
unfolding count_of
count_of-Returns n [] h = cc
count_of-Returns n (decimal_digit d ∷ ds) h = count_of-Returns (n * 10 + d) ds h
count_of-Returns n (space ∷ ds) h = cc
count_of-Returns n (other_digit ∷ ds) h = cc
count_of-Returns n (other_character ∷ ds) h = cc

behind_count-Shorter :
    (r : Result ℕ) (rest : Str) → r ≢ err out_of_fuel → Shorter (length rest) (behind_count r rest)
unfolding behind_count
behind_count-Shorter (err e) rest h = λ same. h (ap err same)
behind_count-Shorter (ok n) rest h = elim (Option-cases (first_of time_text time_units rest)) [
  | inl missing ↦ rw (missing, behind_count, Shorter) (λ same. cc)
  | inr ((u, left), found) ↦
      let whole = ap length (first_of-eq time_text time_units rest left u found) in
      let fewer : length left ≤ length rest =
        omega (arith, whole, length-append (time_text u) left) in
      rw (found, behind_count, Shorter) fewer
]

Shorter-weaken : (m n : ℕ) → m ≤ n → (r : Result (ℕ × Str)) → Shorter m r → Shorter n r
Shorter-weaken m n le (ok (k, rest)) h = omega (arith, h, le)
Shorter-weaken m n le (err e) h = h

length-take_digit :
    (k : Character) (c : ℕ) (s : Str) (p : List Character × Str)
    → length p.0 + length p.1 ≡ length s
    → length (take_digit k c s p).0 + length (take_digit k c s p).1 ≡ length (c ∷ s)
unfolding take_digit
length-take_digit (decimal_digit d) c s (ds, rest) h = omega (arith, h)
length-take_digit other_digit c s (ds, rest) h = omega (arith, h)
length-take_digit space c s p h = omega arith
length-take_digit other_character c s p h = omega arith

module _ (py : Python) where
  length-split_digits :
      (s : Str) → length (split_digits py s).0 + length (split_digits py s).1 ≡ length s
  unfolding split_digits
  length-split_digits [] = omega arith
  length-split_digits (c ∷ s) =
      length-take_digit (py.character c) c s (split_digits py s) (length-split_digits s)

  part_of-Shorter :
      (most : ℕ) (p : List Character × Str)
      → length p.0 + length p.1 ≤ suc most
      → Shorter most (part_of p)
  unfolding part_of
  part_of-Shorter most ([], rest) h = λ same. cc
  part_of-Shorter most (d ∷ ds, rest) h =
      let fewer : length rest ≤ most = omega (arith, h) in
      Shorter-weaken (length rest) most fewer (behind_count (count_of 0 (d ∷ ds)) rest)
        (behind_count-Shorter (count_of 0 (d ∷ ds)) rest (count_of-Returns 0 (d ∷ ds)))

  bind-Returns :
      (rounds total : ℕ) (r : Result (ℕ × Str))
      → Shorter rounds r
      → ((n : ℕ) (rest : Str)
          → length rest ≤ rounds
          → Returns (sum_parts py rounds (total + n) rest))
      → Returns (bind r (λ (n, rest). sum_parts py rounds (total + n) rest))
  bind-Returns rounds total (ok (n, rest)) short later = later n rest short
  bind-Returns rounds total (err e) short later = λ same. short (cc)

  sum_parts-Returns :
      (rounds total : ℕ) (s : Str) → length s ≤ rounds → Returns (sum_parts py rounds total s)
  unfolding sum_parts
  sum_parts-Returns rounds total [] h = λ e. cc
  sum_parts-Returns zero total (c ∷ s) h = absurd (omega (arith, h))
  sum_parts-Returns (suc rounds) total (c ∷ s) h =
      let digits = length-split_digits (c ∷ s) in
      let short = part_of-Shorter rounds (split_digits py (c ∷ s)) (omega (arith, digits, h)) in
      bind-Returns rounds total (part_of (split_digits py (c ∷ s))) short
        (λ n rest less. sum_parts-Returns rounds (total + n) rest less)

  magnitude-Returns : (s : Str) → Returns (magnitude py s)
  unfolding magnitude
  magnitude-Returns [] = λ e. cc
  magnitude-Returns (c ∷ s) = sum_parts-Returns (length (c ∷ s)) 0 (c ∷ s) (omega arith)

  normalised-Returns :
      (sign : ℕ → ℤ) (r : Result ℕ) → Returns r → Returns (bind r (λ n. ok (normalised (sign n))))
  normalised-Returns sign (ok n) h = λ e. cc
  normalised-Returns sign (err e) h = λ same. h (cc)

  -- A duration is read, or refused with an exception of Python, whatever its text is.
  pub read_duration-ne-out_of_fuel : (s : Str) → read_duration py s ≢ err out_of_fuel
  unfolding read_duration
  read_duration-ne-out_of_fuel [] e = cc
  read_duration-ne-out_of_fuel (c ∷ s) e = elim (Bool-cases (c == 45)) [
    | inl minus ↦ normalised-Returns negative (magnitude py s) (magnitude-Returns s) (rw minus at e)
    | inr plain ↦
        normalised-Returns pos (magnitude py (c ∷ s)) (magnitude-Returns (c ∷ s)) (rw plain at e)
  ]
