-- ===== src/Bytes/Reads.antt =====
-- A reader that reads back what an action wrote, and how such pairs are put together.
use tessaridb_sdk_python.Prelude.{
  ℕ, suc, ◌≤◌, ◌<◌, ◌≡◌, refl, ap, List, [], ◌∷◌, ◌++◌, append_assoc, arith, length, length-append,
  pos,
}
use tessaridb_sdk_python.Result.{Bytes, ok, err, bind}
use tessaridb_sdk_python.Bytes.Writer
use tessaridb_sdk_python.Bytes.Writer.{Put, ◌⨾◌}
use tessaridb_sdk_python.Bytes.Reader
use tessaridb_sdk_python.Bytes.Reader.{Get, pure, ◌>>=◌, repeat}

-- What `w` writes, if at most `n` bytes, `p` reads as `a` and leaves what follows.
pub record Reads {ℓ} {A : Type ℓ} (n : ℕ) (w : Put) (p : Get A) (a : A) : Type ℓ where
  pub at : (bs rest : Bytes) → w ≡ ok bs → length bs ≤ n → p (bs ++ rest) ≡ ok (a, rest)

-- The parts of what two actions wrote.
pub ⨾-eq-ok :
    (w w' : Put) {bs : Bytes}
    → (w ⨾ w') ≡ ok bs
    → (xs ys : Bytes) × (w ≡ ok xs) × (w' ≡ ok ys) × (bs ≡ xs ++ ys)
unfolding ◌⨾◌
⨾-eq-ok (ok xs) (ok ys) h = (xs, ys, refl, refl, cc)
⨾-eq-ok (ok xs) (err e) h = cc
⨾-eq-ok (err e) w' h = cc

module _ {ℓ κ} {A : Type ℓ} {B : Type κ} {n : ℕ} {w : Put} {p : Get A} {a : A} where
  pub Reads-bind :
      {w' : Put} (f : A → Get B) {b : B}
      → Reads n w p a
      → Reads n w' (f a) b
      → Reads n (w ⨾ w') (p >>= f) b
  unfolding ◌>>=◌
  Reads-bind {w'} f {b} r s = record { at = λ bs rest h le. go bs rest (⨾-eq-ok w w' h) le }
    where
      go :
          (bs rest : Bytes)
          → (xs ys : Bytes) × (w ≡ ok xs) × (w' ≡ ok ys) × (bs ≡ xs ++ ys)
          → length bs ≤ n
          → bind (p (bs ++ rest)) (λ (x, more). f x more) ≡ ok (b, rest)
      go bs rest (xs, ys, hx, hy, e) le =
          let measured = length-append {0} xs ys in
          rw (e, append_assoc)
            (rw (r.at xs (ys ++ rest) hx (omega (arith, measured, ap length e)))
              (s.at ys rest hy (omega (arith, measured, ap length e))))

  pub Reads-map : (g : A → B) → Reads n w p a → Reads n w (p >>= λ x. pure (g x)) (g a)
  unfolding ◌>>=◌
  Reads-map g r = record { at = λ bs rest h le. rw (r.at bs rest h le) }

-- A tag is a byte, so what follows it is shorter.
pub Reads-tag {ℓ} :
    {B : Type ℓ} {n : ℕ} {w : Put} (f : ℕ → Get B) {b : B} (t : ℕ)
    → t < 256
    → Reads n w (f t) b
    → Reads (suc n) (Writer.u8 (pos t) ⨾ w) (Reader.u8 >>= f) b
unfolding Reader.u8 ◌>>=◌ Writer.u8
Reads-tag {n} {w} f {b} t lt r = record {
  at = λ bs rest h le. go bs rest (⨾-eq-ok (Writer.u8 (pos t)) w h) le;
}
  where
    go :
        (bs rest : Bytes)
        → (xs ys : Bytes) × (Writer.u8 (pos t) ≡ ok xs) × (w ≡ ok ys) × (bs ≡ xs ++ ys)
        → length bs ≤ suc n
        → (Reader.u8 >>= f) (bs ++ rest) ≡ ok (b, rest)
    go bs rest (xs, ys, hx, hy, e) le =
        let one : xs ≡ t ∷ [] = ground arith in
        let whole : bs ≡ t ∷ ys = rw (e, one) in
        rw whole (r.at ys rest hy (omega (arith, ap length whole)))

-- A writer that begins with a tag writes something.
pub Reads-zero {ℓ} :
    {B : Type ℓ} (w : Put) (p : Get B) (b : B) (t : ℕ) → Reads 0 (Writer.u8 (pos t) ⨾ w) p b
unfolding Writer.u8
Reads-zero w p b t = record { at = λ bs rest h le. go bs rest (⨾-eq-ok (Writer.u8 (pos t)) w h) le }
  where
    go :
        (bs rest : Bytes)
        → (xs ys : Bytes) × (Writer.u8 (pos t) ≡ ok xs) × (w ≡ ok ys) × (bs ≡ xs ++ ys)
        → length bs ≤ 0
        → p (bs ++ rest) ≡ ok (b, rest)
    go bs rest (xs, ys, hx, hy, e) le =
        let one : xs ≡ t ∷ [] = ground arith in
        let whole : bs ≡ t ∷ ys = rw (e, one) in absurd (omega (arith, ap length whole))

module _ {ℓ} {A : Type ℓ} {n : ℕ} where
  pub Reads-pure : (a : A) → Reads n (ok []) (pure a) a
  Reads-pure a = record { at = λ bs rest h le. let none_written : bs ≡ [] = cc in rw none_written }

  pub Reads-repeat_nil : (p : Get A) → Reads n (ok []) (repeat 0 p) []
  unfolding repeat
  Reads-repeat_nil p = record {
    at = λ bs rest h le. let none_written : bs ≡ [] = cc in rw none_written;
  }

  pub Reads-repeat_cons :
      {w w' : Put} {p : Get A} {a : A} {more : List A} (k : ℕ)
      → Reads n w p a
      → Reads n w' (repeat k p) more
      → Reads n (w ⨾ w') (repeat (suc k) p) (a ∷ more)
  unfolding repeat
  Reads-repeat_cons {w} {w'} {p} {a} {more} k r s = record {
    at = λ bs rest h le.
        unfold ◌>>=◌ in
        (Reads-bind (λ x. repeat k p >>= λ l. pure (x ∷ l)) r (Reads-map (λ l. a ∷ l) s)).at bs rest
          h le;
  }
