-- ===== src/Json/Durations.antt =====
-- `_duration` and `_datetime` of _json.py.
use tessaridb_sdk_python.Prelude.{
  ℕ, zero, suc, ◌+◌, ◌-◌, ◌*◌, ◌/◌, ◌%◌, ℤ, pos, negsuc, Bool, true, false, none, some, List, [],
  ◌∷◌, length, ltb, ◌==◌, if◌then◌else◌,
}
use tessaridb_sdk_python.Result.{Str, Result, ok, err, bind, malformed, value_error, out_of_fuel}
use tessaridb_sdk_python.Value.{Value, duration, datetime}
use tessaridb_sdk_python.Text.{chars, first_of}
use tessaridb_sdk_python.Events.Quoting.{split_last}
use tessaridb_sdk_python.Json.Node.{
  Character, space, other_digit, other_character, decimal_digit, Python,
}
use tessaridb_sdk_python.Json.Numbers.{negative, partition, int_of_text}

abbrev pub second_nanos : ℕ
second_nanos = 1_000_000_000

pub data TimeUnit : Type 0 where
  millis micros nanos hours minutes seconds : TimeUnit

unfoldable pub time_text : TimeUnit → Str
time_text millis = chars "ms"
time_text micros = chars "us"
time_text nanos = chars "ns"
time_text hours = chars "h"
time_text minutes = chars "m"
time_text seconds = chars "s"

unfoldable pub time_nanos : TimeUnit → ℕ
time_nanos millis = 1_000_000
time_nanos micros = 1_000
time_nanos nanos = 1
time_nanos hours = 3_600 * second_nanos
time_nanos minutes = 60 * second_nanos
time_nanos seconds = second_nanos

-- `UNITS`.
abbrev pub time_units : List TimeUnit
time_units = millis ∷ micros ∷ nanos ∷ hours ∷ minutes ∷ seconds ∷ []

-- `int` of characters that `isdigit` let through.
unfoldable pub count_of : ℕ → List Character → Result ℕ
count_of n [] = ok n
count_of n (decimal_digit d ∷ ds) = count_of (n * 10 + d) ds
count_of n (_ ∷ ds) = err value_error

unfoldable pub behind_count : Result ℕ → Str → Result (ℕ × Str)
behind_count (err e) rest = err e
behind_count (ok n) rest = elim (first_of time_text time_units rest) [
  | none ↦ err malformed
  | some (u, left) ↦ ok (n * time_nanos u, left)
]

unfoldable pub part_of : List Character × Str → Result (ℕ × Str)
unfolding count_of behind_count
part_of ([], rest) = err malformed
part_of (d ∷ ds, rest) = behind_count (count_of 0 (d ∷ ds)) rest

-- `total // NANOS_PER_SECOND` and `total % NANOS_PER_SECOND`.
unfoldable pub floor_div : ℤ → ℕ → ℤ
floor_div (pos n) k = pos (n / k)
floor_div (negsuc n) k = negsuc (n / k)

unfoldable pub floor_mod : ℤ → ℕ → ℕ
floor_mod (pos n) k = n % k
floor_mod (negsuc n) k = k - 1 - n % k

unfoldable pub normalised : ℤ → Value
unfolding floor_div floor_mod
normalised total = duration (floor_div total second_nanos) (pos (floor_mod total second_nanos))

-- `fraction.ljust(9, "0")`.
unfoldable pub ljust : ℕ → Str → Str
ljust zero s = s
ljust (suc n) [] = 48 ∷ ljust n []
ljust (suc n) (c ∷ s) = c ∷ ljust n s

-- The digits at the front of a text, of its first character and the digits behind it.
unfoldable pub take_digit : Character → ℕ → Str → List Character × Str → List Character × Str
take_digit (decimal_digit d) c s (ds, rest) = (decimal_digit d ∷ ds, rest)
take_digit other_digit c s (ds, rest) = (other_digit ∷ ds, rest)
take_digit space c s behind = ([], c ∷ s)
take_digit other_character c s behind = ([], c ∷ s)

module _ (py : Python) where
  -- The digits at the front, and what follows them.
  unfoldable pub split_digits : Str → List Character × Str
  unfolding take_digit
  split_digits [] = ([], [])
  split_digits (c ∷ s) = take_digit (py.character c) c s (split_digits s)

  -- The loop: each round takes a digit at least, so `length` rounds are enough.
  unfoldable pub sum_parts : ℕ → ℕ → Str → Result ℕ
  sum_parts rounds total [] = ok total
  sum_parts zero total (c ∷ s) = err out_of_fuel
  sum_parts (suc rounds) total (c ∷ s) =
      bind (part_of (split_digits (c ∷ s))) λ (n, rest). sum_parts rounds (total + n) rest

  unfoldable pub magnitude : Str → Result ℕ
  unfolding sum_parts
  magnitude [] = err malformed
  magnitude (c ∷ s) = sum_parts (length (c ∷ s)) 0 (c ∷ s)

  -- `_duration`.
  unfoldable pub read_duration : Str → Result Value
  unfolding magnitude normalised
  read_duration [] = err malformed
  read_duration (c ∷ s) =
      if c == 45
      then bind (magnitude s) (λ n. ok (normalised (negative n)))
      else bind (magnitude (c ∷ s)) (λ n. ok (normalised (pos n)))

  unfoldable pub fraction_of : Bool → Str → Result ℤ
  unfolding ljust
  fraction_of false fraction = ok (pos 0)
  fraction_of true fraction = elim (int_of_text py (ljust 9 fraction)) [
    | none ↦ err value_error
    | some n ↦ ok n
  ]

  unfoldable pub moment_of : Str × Bool × Str → Result Value
  unfolding fraction_of
  moment_of (before, dot, fraction) =
      if ltb 9 (length fraction) then err malformed else elim (py.instant before) [
        | none ↦ err malformed
        | some at ↦ bind (fraction_of dot fraction) λ n. ok (datetime at n)
      ]

  unfoldable pub without_z : Str × ℕ → Result Value
  unfolding moment_of partition
  without_z (before, last) = if last == 90 then moment_of (partition 46 before) else err malformed

  -- `_datetime`.
  unfoldable pub read_datetime : Str → Result Value
  unfolding without_z split_last
  read_datetime [] = err malformed
  read_datetime (c ∷ s) = without_z (split_last c s)
