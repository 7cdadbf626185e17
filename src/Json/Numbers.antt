-- ===== src/Json/Numbers.antt =====
-- `_float` and `_decimal` of _json.py, with `int` of a text and `bytes.fromhex`.
use tessaridb_sdk_python.Prelude.{
  ℕ, ◌+◌, ◌-◌, ◌*◌, ℤ, pos, negsuc, suc, zero, Bool, true, false, ◌&&◌, ◌||◌, Option, none, some,
  [], ◌∷◌, ◌++◌, length, leb, ◌==◌, if◌then◌else◌,
}
use tessaridb_sdk_python.Result.{Bytes, Str, Result, ok, err, malformed, value_error}
use tessaridb_sdk_python.Value.{Value, decimal}
use tessaridb_sdk_python.Dict.{str_eq}
use tessaridb_sdk_python.Text.{chars}
use tessaridb_sdk_python.Json.Node.{Node, number, double, string, space, decimal_digit, Python}

unfoldable pub negative : ℕ → ℤ
negative zero = pos 0
negative (suc n) = negsuc n

-- What is before the first `c` and behind it, and whether there is one.
unfoldable pub partition : ℕ → Str → Str × Bool × Str
partition c [] = ([], false, [])
partition c (d ∷ s) =
    let (before, found, behind) = partition c s in
    if d == c then ([], true, s) else (d ∷ before, found, behind)

unfoldable pub scaled : Option ℤ → ℕ → Result Value
scaled none scale = err malformed
scaled (some mantissa) scale = ok (decimal mantissa (pos scale))

module _ (py : Python) where
  unfoldable pub drop_spaces : Str → Str
  drop_spaces [] = []
  drop_spaces (c ∷ s) = elim (py.character c) [ space ↦ drop_spaces s | _ ↦ c ∷ s ]

  -- Whether there are spaces and nothing else.
  unfoldable pub all_spaces : Str → Bool
  all_spaces [] = true
  all_spaces (c ∷ s) = elim (py.character c) [ space ↦ all_spaces s | _ ↦ false ]

  -- The digits of `int`, behind `n` and a digit or not: one underscore may stand between two.
  unfoldable pub digits_value : ℕ → Bool → Str → Option ℕ
  unfolding all_spaces
  digits_value n seen [] = if seen then some n else none
  digits_value n seen (c ∷ s) = elim (py.character c) [
    | decimal_digit d ↦ digits_value (n * 10 + d) true s
    | space ↦ if seen && all_spaces s then some n else none
    | _ ↦ if c == 95 && seen then digits_value n false s else none
  ]

  unfoldable pub signed : Str → Option ℤ
  unfolding digits_value
  signed [] = none
  signed (c ∷ s) =
      if c == 45
      then elim (digits_value 0 false s) [ none ↦ none | some n ↦ some (negative n) ]
      else elim (digits_value 0 false (if c == 43 then s else c ∷ s)) [
        | none ↦ none
        | some n ↦ some (pos n)
      ]

  -- `int(text)`; `none` is a ValueError.
  unfoldable pub int_of_text : Str → Option ℤ
  unfolding drop_spaces signed
  int_of_text s = signed (drop_spaces s)

  -- `_decimal`. Without a dot nothing is behind it.
  unfoldable pub read_decimal : Str → Result Value
  unfolding partition int_of_text scaled
  read_decimal s =
      let (whole, dot, fraction) = partition 46 s in
      scaled (int_of_text (whole ++ fraction)) (length fraction)

  -- `_float`, to the bits.
  unfoldable pub read_float : Node → Result ℕ
  read_float (string s) =
      if str_eq s (chars "inf")
      then ok 0x7FF0_0000_0000_0000
      else if str_eq s (chars "-inf")
      then ok 0xFFF0_0000_0000_0000
      else if str_eq s (chars "NaN")
      then ok 0x7FF8_0000_0000_0000
      else err malformed
  read_float (number n) = py.float_of_int n
  read_float (double bits) = ok bits
  read_float _ = err malformed

unfoldable pub hex_value : ℕ → Option ℕ
hex_value c =
    if leb 48 c && leb c 57
    then some (c - 48)
    else if leb 97 c && leb c 102
    then some (c - 87)
    else if leb 65 c && leb c 70
    then some (c - 55)
    else none

unfoldable pub ascii_space : ℕ → Bool
ascii_space c = c == 32 || leb 9 c && leb c 13

unfoldable pub hex_byte : Option ℕ → Option ℕ → Option ℕ
hex_byte (some high) (some low) = some (high * 16 + low)
hex_byte _ _ = none

unfoldable pub then_byte : Option ℕ → Result Bytes → Result Bytes
then_byte (some b) (ok bs) = ok (b ∷ bs)
then_byte (some b) (err e) = err e
then_byte none r = err value_error

-- `bytes.fromhex`: pairs of digits, with spaces between the pairs.
unfoldable pub from_hex : Str → Result Bytes
unfolding hex_byte hex_value ascii_space then_byte
from_hex [] = ok []
from_hex (c ∷ []) = if ascii_space c then ok [] else err value_error
from_hex (c ∷ d ∷ s) =
    let skipped = from_hex (d ∷ s) in
    let rest = from_hex s in
    if ascii_space c then skipped else then_byte (hex_byte (hex_value c) (hex_value d)) rest
