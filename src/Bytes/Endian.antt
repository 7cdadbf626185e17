-- ===== src/Bytes/Endian.antt =====
-- `int.to_bytes` and `int.from_bytes`, big-endian, and two's complement over them.
use native.Mathlib.Nat.{pow-suc}
use tessaridb_sdk_python.Prelude.{
  ℕ, zero, suc, ◌+◌, ◌-◌, ◌*◌, ◌/◌, ◌%◌, ◌^◌, ◌<◌, ◌≤◌, bit_xor, ◌≡◌, ◌≢◌, Bool-cases, inl, inr,
  refl, ap, Bool, true, ◌&&◌, [], ◌∷◌, ◌++◌, arith, ltb, ◌==◌, ==→eq, if◌then◌else◌, length, All,
  length-append, ℤ, pos, negsuc, ◌≤ℤ◌,
}
use tessaridb_sdk_python.Result.{Bytes}

abbrev pub IsByte : ℕ → Type 0
IsByte b = b < 256

-- The low `w` bytes of `n`, the most significant first.
unfoldable pub to_bytes : ℕ → ℕ → Bytes
to_bytes zero n = []
to_bytes (suc w) n = to_bytes w (n / 256) ++ n % 256 ∷ []

unfoldable pub read_onto : ℕ → Bytes → ℕ
read_onto acc [] = acc
read_onto acc (b ∷ bs) = read_onto (acc * 256 + b) bs

unfoldable pub from_bytes : Bytes → ℕ
unfolding read_onto
from_bytes bs = read_onto 0 bs

-- Two's complement modulo `m`, and back: `signed=True`.
unfoldable pub to_twos : ℕ → ℤ → ℕ
to_twos m (pos n) = n
to_twos m (negsuc n) = m - suc n

unfoldable pub from_twos : ℕ → ℕ → ℤ
from_twos m n = if ltb n (m / 2) then pos n else negsuc (m - suc n)

-- `raw[0] ^= 0x80`.
unfoldable pub flip_first : Bytes → Bytes
flip_first [] = []
flip_first (b ∷ bs) = bit_xor b 0x80 ∷ bs

pub length-to_bytes : (w n : ℕ) → length (to_bytes w n) ≡ w
unfolding to_bytes
length-to_bytes zero n = refl
length-to_bytes (suc w) n =
    omega
      (arith, length-append {0} (to_bytes w (n / 256)) (n % 256 ∷ []), length-to_bytes w (n / 256))

read_onto-snoc :
    (acc : ℕ) (bs : Bytes) (b : ℕ) → read_onto acc (bs ++ b ∷ []) ≡ read_onto acc bs * 256 + b
unfolding read_onto
read_onto-snoc acc [] b = refl
read_onto-snoc acc (c ∷ bs) b = read_onto-snoc (acc * 256 + c) bs b

-- A number that fits its width is read back.
pub from_bytes-to_bytes : (w n : ℕ) → n < 256 ^ w → from_bytes (to_bytes w n) ≡ n
unfolding from_bytes to_bytes
from_bytes-to_bytes zero n h = omega (arith, h)
from_bytes-to_bytes (suc w) n h =
    let fits : n / 256 < 256 ^ w = omega (arith, pow-suc 256 w) in
    omega (
      arith,
      read_onto-snoc 0 (to_bytes w (n / 256)) (n % 256),
      from_bytes-to_bytes w (n / 256) fits,
    )

pub to_bytes-IsByte : (w n : ℕ) → All IsByte (to_bytes w n)
unfolding to_bytes
to_bytes-IsByte zero n = tt
to_bytes-IsByte (suc w) n = snoc (to_bytes w (n / 256)) (to_bytes-IsByte w (n / 256))
  where
    snoc : (bs : Bytes) → All IsByte bs → All IsByte (bs ++ n % 256 ∷ [])
    snoc [] h = (omega arith, tt)
    snoc (b ∷ bs) h = (h.0, snoc bs h.1)

-- `p` on the `rounds` numbers from `first` up, by evaluation.
sweep : (ℕ → Bool) → ℕ → ℕ → Bool
sweep p first zero = true
sweep p first (suc rounds) = sweep p (suc first) rounds && p first

module _ (p : ℕ → Bool) (x : ℕ) where
  sweep_at :
      (rounds first : ℕ) → first ≤ x → x < first + rounds → sweep p first rounds ≡ true → p x ≡ true
  unfolding sweep
  sweep_at zero first lo hi h = absurd (omega arith)
  sweep_at (suc rounds) first lo hi h = elim (Bool-cases (first == x)) [
    | inl here ↦ let same : first ≡ x = ==→eq _ _ here in rw (← same) (ground arith)
    | inr past ↦
        let lower : first ≢ x = ground arith in
        sweep_at rounds (suc first) (omega arith) (omega arith) (ground arith)
  ]

flips : sweep (λ x. bit_xor (bit_xor x 0x80) 0x80 == x) 0 256 ≡ true
unfolding sweep
flips = refl

flips_to : sweep (λ x. bit_xor x 0x80 == (x + 128) % 256) 0 256 ≡ true
unfolding sweep
flips_to = refl

pub flip-flip : (x : ℕ) → IsByte x → bit_xor (bit_xor x 0x80) 0x80 ≡ x
flip-flip x h = ==→eq _ _ (sweep_at _ x 256 0 (omega arith) (omega arith) flips)

-- Flipping the top bit of a byte is adding 128 modulo 256.
pub flip-eq-add : (x : ℕ) → IsByte x → bit_xor x 0x80 ≡ (x + 128) % 256
flip-eq-add x h = ==→eq _ _ (sweep_at _ x 256 0 (omega arith) (omega arith) flips_to)

pub flip_first-flip_first : (bs : Bytes) → All IsByte bs → flip_first (flip_first bs) ≡ bs
unfolding flip_first
flip_first-flip_first [] h = refl
flip_first-flip_first (b ∷ bs) h = ap (λ c. c ∷ bs) (flip-flip b h.0)

pub flip_first-to_bytes : (w n : ℕ) → flip_first (flip_first (to_bytes w n)) ≡ to_bytes w n
flip_first-to_bytes w n = flip_first-flip_first (to_bytes w n) (to_bytes-IsByte w n)

pub length-flip_first : (bs : Bytes) → length (flip_first bs) ≡ length bs
unfolding flip_first
length-flip_first [] = refl
length-flip_first (b ∷ bs) = refl

-- An integer in the signed range survives two's complement.
pub from_twos-to_twos :
    (h : ℕ) (v : ℤ) → negsuc h ≤ℤ v → v ≤ℤ pos h → from_twos (2 * suc h) (to_twos (2 * suc h) v) ≡ v
unfolding from_twos to_twos
from_twos-to_twos h (pos n) lo hi = ground arith
from_twos-to_twos h (negsuc n) lo hi = ground arith

pub to_twos-lt : (h : ℕ) (v : ℤ) → v ≤ℤ pos h → to_twos (2 * suc h) v < 2 * suc h
unfolding to_twos
to_twos-lt h (pos n) hi = omega arith
to_twos-lt h (negsuc n) hi = omega arith
