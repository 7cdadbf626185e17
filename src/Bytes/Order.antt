-- ===== src/Bytes/Order.antt =====
-- The inverted integers of the value layer are in the order of their bytes.
use native.Mathlib.Nat.{pow-suc}
use tessaridb_sdk_python.Prelude.{
  ℕ, ◌+◌, ◌*◌, ◌%◌, ◌^◌, ◌<◌, bit_xor, ◌≡◌, sym, ◌∙◌, [], ◌∷◌, arith, leb, length, All, ℤ, pos,
  negsuc, ◌≤ℤ◌, leb_ℤ, pos_part, neg_part,
}
use tessaridb_sdk_python.Result.{Bytes, ok}
use tessaridb_sdk_python.Dict.{str_leb}
use tessaridb_sdk_python.Bytes.Endian.{
  IsByte, to_bytes, from_bytes, read_onto, to_twos, flip_first, flip-eq-add, length-to_bytes,
  to_bytes-IsByte, from_bytes-to_bytes, length-flip_first, to_twos-lt,
}
use tessaridb_sdk_python.Bytes.Writer.{i64, int64_max}

-- The digits read so far count as many places up as there are bytes to come.
read_onto-eq : (acc : ℕ) (bs : Bytes) → read_onto acc bs ≡ acc * 256 ^ length bs + read_onto 0 bs
unfolding read_onto
read_onto-eq acc [] = omega arith
read_onto-eq acc (b ∷ bs) =
    rw (pow-suc 256 (length bs))
      (omega (arith, read_onto-eq (acc * 256 + b) bs, read_onto-eq (0 + b) bs))

small_digit : (b p r : ℕ) → b < 256 → r < p → (0 + b) * p + r < p * 256
small_digit b p r h k = grind arith

-- A greater digit decides, whatever follows it.
digit_lt : (a b p r t : ℕ) → a < b → r < p → a * p + r < b * p + t
digit_lt a b p r t h k = grind arith

read_onto-lt : (bs : Bytes) → All IsByte bs → read_onto 0 bs < 256 ^ length bs
unfolding read_onto
read_onto-lt [] h = omega arith
read_onto-lt (b ∷ bs) h =
    rw (pow-suc 256 (length bs), read_onto-eq (0 + b) bs)
      (small_digit b (256 ^ length bs) (read_onto 0 bs) h.0 (read_onto-lt bs h.1))

-- Bytes of one length are in the order of the numbers that they spell.
str_leb-eq :
    (acc : ℕ) (xs ys : Bytes)
    → All IsByte xs
    → All IsByte ys
    → length xs ≡ length ys
    → str_leb xs ys ≡ leb (read_onto acc xs) (read_onto acc ys)
unfolding str_leb read_onto
str_leb-eq acc [] [] h k e = ground arith
str_leb-eq acc [] (y ∷ ys) h k e = absurd (omega arith)
str_leb-eq acc (x ∷ xs) [] h k e = absurd (omega arith)
str_leb-eq acc (x ∷ xs) (y ∷ ys) h k e =
    let same : length ys ≡ length xs = omega arith in
    let p = 256 ^ length xs in
    let left = read_onto-eq (acc * 256 + x) xs in
    let right : read_onto (acc * 256 + y) ys ≡ (acc * 256 + y) * p + read_onto 0 ys =
      rw same at (read_onto-eq (acc * 256 + y) ys) in
    let below : read_onto 0 ys < p = rw same at (read_onto-lt ys k.1) in
    ground (
      arith,
      str_leb-eq (acc * 256 + x) xs ys h.1 k.1 (sym same),
      digit_lt (acc * 256 + x) (acc * 256 + y) p (read_onto 0 xs) (read_onto 0 ys),
      digit_lt (acc * 256 + y) (acc * 256 + x) p (read_onto 0 ys) (read_onto 0 xs),
      read_onto-lt xs h.1,
      below,
      left,
      right,
    )

flip_offset :
    (bs : Bytes)
    → All IsByte bs
    → length bs ≡ 8
    → from_bytes (flip_first bs) ≡ (from_bytes bs + 2 ^ 63) % 2 ^ 64
unfolding from_bytes flip_first read_onto
flip_offset [] h e = absurd (omega arith)
flip_offset (b ∷ bs) h e =
    let seven : length bs ≡ 7 = omega arith in
    let low : read_onto 0 bs < 256 ^ 7 = rw seven at (read_onto-lt bs h.1) in
    let before : read_onto (0 + b) bs ≡ (0 + b) * 256 ^ 7 + read_onto 0 bs =
      rw seven at (read_onto-eq (0 + b) bs) in
    let after : read_onto (0 + bit_xor b 0x80) bs
        ≡ (0 + bit_xor b 0x80) * 256 ^ 7 + read_onto 0 bs =
      rw seven at (read_onto-eq (0 + bit_xor b 0x80) bs) in
    omega (arith, before, after, low, flip-eq-add b h.0, h.0)

flip_first-IsByte : (bs : Bytes) → All IsByte bs → All IsByte (flip_first bs)
unfolding flip_first
flip_first-IsByte [] h = tt
flip_first-IsByte (b ∷ bs) h = (omega (arith, flip-eq-add b h.0), h.1)

-- What `i64` writes: eight bytes that spell the integer and 2^63.
record IsOffset (v : ℤ) (bs : Bytes) : Type 0 where
  are_bytes : All IsByte bs
  width : length bs ≡ 8
  spells : from_bytes bs + neg_part v ≡ pos_part v + 2 ^ 63

twos_offset :
    (v : ℤ)
    → negsuc int64_max ≤ℤ v
    → v ≤ℤ pos int64_max
    → (to_twos (2 ^ 64) v + 2 ^ 63) % 2 ^ 64 + neg_part v ≡ pos_part v + 2 ^ 63
unfolding to_twos
twos_offset (pos n) lo hi = omega arith
twos_offset (negsuc n) lo hi = omega arith

i64-IsOffset : (v : ℤ) (bs : Bytes) → i64 v ≡ ok bs → IsOffset v bs
unfolding i64
i64-IsOffset v bs h =
    let n = to_twos (2 ^ 64) v in
    let raw = to_bytes 8 n in
    let low : negsuc int64_max ≤ℤ v = ground arith in
    let high : v ≤ℤ pos int64_max = ground arith in
    let written : bs ≡ flip_first raw = ground arith in
    let read : from_bytes raw ≡ n = from_bytes-to_bytes 8 n (to_twos-lt int64_max v high) in
    let offset = flip_offset raw (to_bytes-IsByte 8 n) (length-to_bytes 8 n) in
    rw written (record {
      are_bytes = flip_first-IsByte raw (to_bytes-IsByte 8 n);
      width = length-flip_first raw ∙ length-to_bytes 8 n;
      spells = rw (offset, read) (twos_offset v low high);
    })

same_order :
    (a b : ℤ) (m n : ℕ)
    → m + neg_part a ≡ pos_part a + 2 ^ 63
    → n + neg_part b ≡ pos_part b + 2 ^ 63
    → leb m n ≡ leb_ℤ a b
same_order a b m n h k = ground arith

-- The bytes of two 64-bit integers are in the order of the integers, which is what the inverted
-- sign bit is for.
pub i64-order :
    (a b : ℤ) (xs ys : Bytes) → i64 a ≡ ok xs → i64 b ≡ ok ys → str_leb xs ys ≡ leb_ℤ a b
unfolding from_bytes
i64-order a b xs ys h k =
    let left = i64-IsOffset a xs h in
    let right = i64-IsOffset b ys k in
    str_leb-eq 0 xs ys left.are_bytes right.are_bytes (left.width ∙ sym right.width)
    ∙ same_order a b (from_bytes xs) (from_bytes ys) left.spells right.spells
