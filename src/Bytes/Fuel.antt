-- ===== src/Bytes/Fuel.antt =====
-- Readers that never run out of fuel and never grow what is left.
use tessaridb_sdk_python.Prelude.{
  ℕ, zero, suc, ◌≤◌, ◌≢◌, Bool, true, false, inl, inr, Bool-cases, Option-cases, [], ◌∷◌, ◌++◌,
  arith, ltb, leb, ◌==◌, if◌then◌else◌, length, length-drop,
}
use tessaridb_sdk_python.Result.{
  Bytes, Result, Error, ok, err, bind, out_of_fuel, protocol, outside_nanos,
}
use tessaridb_sdk_python.Bytes.Utf8.{decode_utf8}
use tessaridb_sdk_python.Bytes.Writer.{nanos_per_second}
use tessaridb_sdk_python.Bytes.Reader.{
  Get, pure, ◌>>=◌, take_bytes, u8, u32, u64, i64, i128, nanos, double, fixed, lenbytes, as_text,
  text, unescape, varbytes, integer, repeat,
}

-- On an input of `m` bytes the reader returned with at most `m` left, or raised an exception.
pub data Fine {ℓ} {A : Type ℓ} (m : ℕ) : Result (A × Bytes) → Type ℓ where
  returns : {a : A} {rest : Bytes} → length rest ≤ m → Fine m (ok (a, rest))
  raises : {e : Error} → e ≢ out_of_fuel → Fine m (err e)

-- `p` is fine on every input of at most `n` bytes.
pub record Safe {ℓ} {A : Type ℓ} (n : ℕ) (p : Get A) : Type ℓ where
  pub at : (bs : Bytes) → length bs ≤ n → Fine (length bs) (p bs)

Fine-le {ℓ} : {A : Type ℓ} {k m : ℕ} {r : Result (A × Bytes)} → k ≤ m → Fine k r → Fine m r
Fine-le le (returns h) = returns (omega arith)
Fine-le le (raises ne) = raises ne

Fine-bind {ℓ κ} :
    {A : Type ℓ} {B : Type κ} {n m : ℕ} {r : Result (A × Bytes)} (f : A → Get B)
    → m ≤ n
    → Fine m r
    → ((a : A) → Safe n (f a))
    → Fine m (bind r (λ (a, rest). f a rest))
Fine-bind f le (returns {a} {rest} h) s = Fine-le h ((s a).at rest (omega arith))
Fine-bind f le (raises ne) s = raises ne

module _ {ℓ} {A : Type ℓ} {n : ℕ} where
  pub Safe-pure : (a : A) → Safe n (pure a)
  Safe-pure a = record { at = λ bs h. returns (omega arith) }

  pub Safe-bind {κ} :
      {B : Type κ} {p : Get A} (f : A → Get B)
      → Safe n p
      → ((a : A) → Safe n (f a))
      → Safe n (p >>= f)
  unfolding ◌>>=◌
  Safe-bind f sp sf = record { at = λ bs h. Fine-bind f h (sp.at bs h) sf }

  pub Safe-map {κ} :
      {B : Type κ} {p : Get A} (g : A → B) → Safe n p → Safe n (p >>= λ a. pure (g a))
  Safe-map g sp =
      Safe-bind (λ a. pure (g a)) sp (λ a. record { at = λ bs h. returns (omega arith) })

  pub Safe-if : (b : Bool) {p q : Get A} → Safe n p → Safe n q → Safe n (if b then p else q)
  Safe-if true sp sq = sp
  Safe-if false sp sq = sq

  -- The tag that was read leaves a byte less.
  pub Safe-tag : (f : ℕ → Get A) → ((t : ℕ) → Safe n (f t)) → Safe (suc n) (u8 >>= f)
  unfolding u8 ◌>>=◌
  Safe-tag f s = record { at = go }
    where
      go : (bs : Bytes) → length bs ≤ suc n → Fine (length bs) ((u8 >>= f) bs)
      go [] h = raises (ground arith)
      go (b ∷ rest) h = Fine-le (omega arith) ((s b).at rest (omega arith))

  pub Safe-repeat : (count : ℕ) {p : Get A} → Safe n p → Safe n (repeat count p)
  unfolding repeat
  Safe-repeat zero sp = record { at = λ bs h. returns (omega arith) }
  Safe-repeat (suc count) {p} sp =
      let again = Safe-repeat count sp in
      let rest : (a : A) → Safe n (λ r. bind (repeat count p r) λ (more, r'). ok (a ∷ more, r')) =
        λ a. record {
          at = λ bs h.
              Fine-bind (λ more r. ok (a ∷ more, r)) h (again.at bs h)
                (λ more. record { at = λ bs' h'. returns (omega arith) });
        } in
      record { at = λ bs h. Fine-bind _ h (sp.at bs h) rest }

pub Safe-tag_zero {ℓ} : {A : Type ℓ} (f : ℕ → Get A) → Safe 0 (u8 >>= f)
unfolding u8 ◌>>=◌
Safe-tag_zero f = record { at = go }
  where
    go : (bs : Bytes) → length bs ≤ 0 → Fine (length bs) ((u8 >>= f) bs)
    go [] h = raises (ground arith)
    go (b ∷ rest) h = absurd (omega arith)

module _ {n : ℕ} where
  pub Safe-take_bytes : (width : ℕ) → Safe n (take_bytes width)
  unfolding take_bytes
  Safe-take_bytes width = record {
    at = λ bs h. elim (Bool-cases (ltb (length bs) width)) [
      | inl short ↦ rw short (raises (ground arith))
      | inr enough ↦ rw enough (returns (omega (arith, length-drop {0} width bs)))
    ];
  }

  pub Safe-u8 : Safe n u8
  unfolding u8
  Safe-u8 = record { at = go }
    where
      go : (bs : Bytes) → length bs ≤ n → Fine (length bs) (u8 bs)
      go [] h = raises (ground arith)
      go (b ∷ rest) h = returns (omega arith)

  pub Safe-u32 : Safe n u32
  unfolding u32
  Safe-u32 = Safe-bind _ (Safe-take_bytes 4) (λ bs. Safe-pure _)

  pub Safe-integer : {p : Get ℕ} → Safe n p → Safe n (integer p)
  unfolding integer
  Safe-integer s = Safe-map _ s

  pub Safe-u64 : Safe n u64
  unfolding u64
  Safe-u64 = Safe-bind _ (Safe-take_bytes 8) (λ bs. Safe-pure _)

  pub Safe-i64 : Safe n i64
  unfolding i64
  Safe-i64 = Safe-bind _ (Safe-take_bytes 8) (λ bs. Safe-pure _)

  pub Safe-i128 : Safe n i128
  unfolding i128
  Safe-i128 = Safe-bind _ (Safe-take_bytes 16) (λ bs. Safe-pure _)

  pub Safe-double : Safe n double
  unfolding double
  Safe-double = Safe-bind _ (Safe-take_bytes 8) (λ bs. Safe-pure _)

  pub Safe-nanos : Safe n nanos
  unfolding nanos
  Safe-nanos = Safe-bind _ Safe-u32 λ v.
      Safe-if (leb nanos_per_second v)
        (record { at = λ bs h. raises {e = protocol (outside_nanos v)} (ground arith) })
        (Safe-pure v)

  pub Safe-fixed : (width : ℕ) → Safe n (fixed width)
  unfolding fixed
  Safe-fixed width = Safe-take_bytes width

  pub Safe-lenbytes : Safe n lenbytes
  unfolding lenbytes
  Safe-lenbytes = Safe-bind _ Safe-u32 Safe-take_bytes

  pub Safe-as_text : (raw : Bytes) → Safe n (as_text raw)
  unfolding as_text
  Safe-as_text raw = record {
    at = λ bs h. elim (Option-cases (decode_utf8 raw)) [
      | inl bad ↦ rw (bad, as_text) (raises (ground arith))
      | inr (s, good) ↦ rw (good, as_text) (returns (omega arith))
    ];
  }

  pub Safe-text : Safe n text
  unfolding text
  Safe-text = Safe-bind _ Safe-lenbytes Safe-as_text

Fine-split {ℓ} :
    {A : Type ℓ} {m : ℕ} (b : Bool) {x y : Result (A × Bytes)}
    → Fine m x
    → Fine m y
    → Fine m (elim b [ true ↦ x | false ↦ y ])
Fine-split true hx hy = hx
Fine-split false hx hy = hy

unescape-Fine : (out bs : Bytes) → Fine (length bs) (unescape out bs)
unfolding unescape
unescape-Fine out [] = raises (ground arith)
unescape-Fine out (b ∷ []) = elim (Bool-cases (b == 0)) [
  | inl zero_byte ↦ rw zero_byte (raises (ground arith))
  | inr plain ↦ rw plain (raises (ground arith))
]
unescape-Fine out (b ∷ marker ∷ rest) =
    Fine-split (b == 0)
      (Fine-split (marker == 1) (returns (omega arith)) (
        Fine-split (marker == 0xff) (Fine-le (omega arith) (unescape-Fine (out ++ 0 ∷ []) rest))
          (raises (ground arith))))
      (Fine-le (omega arith) (unescape-Fine (out ++ b ∷ []) (marker ∷ rest)))

pub Safe-varbytes : {n : ℕ} → Safe n varbytes
unfolding varbytes
Safe-varbytes = record { at = λ bs h. unescape-Fine [] bs }
