-- ===== src/Bytes/Extends.antt =====
-- Readers that do not look past what they take: more bytes behind the input are left with the rest.
use tessaridb_sdk_python.Prelude.{
  ℕ, zero, suc, ◌≤◌, ◌≡◌, refl, ap, Bool, true, false, Option, some, none, [], ◌∷◌, ◌++◌, arith,
  ltb, le→ltb, if◌then◌else◌, length, length-append, take, drop,
}
use tessaridb_sdk_python.Result.{Bytes, Str, Result, ok, err, bind, bind-eq-ok, protocol, not_utf8}
use tessaridb_sdk_python.Bytes.Utf8.{decode_utf8}
use tessaridb_sdk_python.Bytes.Reader.{
  Get, pure, ◌>>=◌, take_bytes, u8, u32, u64, lenbytes, as_text, text, repeat,
}

pub record Extends {ℓ} {A : Type ℓ} (p : Get A) : Type ℓ where
  pub at :
      (bs extra : Bytes) (a : A) (rest : Bytes)
      → p bs ≡ ok (a, rest)
      → p (bs ++ extra) ≡ ok (a, rest ++ extra)

take_more : (k : ℕ) (bs ys : Bytes) → k ≤ length bs → take k (bs ++ ys) ≡ take k bs
take_more zero bs ys h = refl
take_more (suc k) [] ys h = absurd (omega arith)
take_more (suc k) (b ∷ bs) ys h = ap (λ l. b ∷ l) (take_more k bs ys (omega arith))

drop_more : (k : ℕ) (bs ys : Bytes) → k ≤ length bs → drop k (bs ++ ys) ≡ drop k bs ++ ys
drop_more zero bs ys h = refl
drop_more (suc k) [] ys h = absurd (omega arith)
drop_more (suc k) (b ∷ bs) ys h = drop_more k bs ys (omega arith)

module _ {ℓ} {A : Type ℓ} where
  pub Extends-pure : (a : A) → Extends (pure a)
  Extends-pure a = record { at = λ bs extra a' rest h. cc }

  pub Extends-bind {κ} :
      {B : Type κ} {p : Get A} (f : A → Get B)
      → Extends p
      → ((a : A) → Extends (f a))
      → Extends (p >>= f)
  unfolding ◌>>=◌
  Extends-bind {p = p} f ep ef = record {
    at = λ bs extra b rest h.
        let ((a, rest'), e, e') = bind-eq-ok (p bs) _ h in
        rw (ep.at bs extra a rest' e) ((ef a).at rest' extra b rest e');
  }

  pub Extends-if : (b : Bool) {p q : Get A} → Extends p → Extends q → Extends (if b then p else q)
  Extends-if true ep eq = ep
  Extends-if false ep eq = eq

pub Extends-map {ℓ κ} :
    {A : Type ℓ} {B : Type κ} {p : Get A} (g : A → B) → Extends p → Extends (p >>= λ a. pure (g a))
Extends-map g ep = Extends-bind (λ a. pure (g a)) ep (λ a. Extends-pure (g a))

pub Extends-repeat {ℓ} : {A : Type ℓ} (count : ℕ) {p : Get A} → Extends p → Extends (repeat count p)
unfolding repeat ◌>>=◌
Extends-repeat zero ep = record { at = λ bs extra a rest h. cc }
Extends-repeat (suc count) ep = record {
  at =
      (Extends-bind _ ep λ a.
        Extends-bind (λ more. pure (a ∷ more)) (Extends-repeat count ep)
          λ more. Extends-pure (a ∷ more)).at;
}

-- A computation that does not read.
pub Extends-lift {ℓ} : {A : Type ℓ} (m : Result A) → Extends (λ r. bind m λ a. ok (a, r))
Extends-lift (ok a) = Extends-pure a
Extends-lift (err e) = record { at = λ bs extra a rest h. cc }

take_within :
    (width : ℕ) (bs extra a rest : Bytes) (short : Bool)
    → ltb (length bs) width ≡ short
    → take_bytes width bs ≡ ok (a, rest)
    → take_bytes width (bs ++ extra) ≡ ok (a, rest ++ extra)
unfolding take_bytes
take_within width bs extra a rest true short h = cc
take_within width bs extra a rest false enough h =
    let le : width ≤ length bs = ground arith in
    let taken : take width bs ≡ a = cc in
    let left : drop width bs ≡ rest = cc in
    rw
      (
        le→ltb (length (bs ++ extra)) width (omega (arith, length-append {0} bs extra)),
        take_more width bs extra le,
        drop_more width bs extra le,
      )
      (cc)

pub Extends-take_bytes : (width : ℕ) → Extends (take_bytes width)
Extends-take_bytes width = record {
  at = λ bs extra a rest h. take_within width bs extra a rest (ltb (length bs) width) refl h;
}

pub Extends-u8 : Extends u8
unfolding u8
Extends-u8 = record { at = go }
  where
    go :
        (bs extra : Bytes) (a : ℕ) (rest : Bytes)
        → u8 bs ≡ ok (a, rest)
        → u8 (bs ++ extra) ≡ ok (a, rest ++ extra)
    go [] extra a rest h = cc
    go (b ∷ bs) extra a rest h = cc

pub Extends-u32 : Extends u32
unfolding u32
Extends-u32 = Extends-bind _ (Extends-take_bytes 4) (λ bs. Extends-pure _)

pub Extends-u64 : Extends u64
unfolding u64
Extends-u64 = Extends-bind _ (Extends-take_bytes 8) (λ bs. Extends-pure _)

pub Extends-lenbytes : Extends lenbytes
unfolding lenbytes
Extends-lenbytes = Extends-bind _ Extends-u32 Extends-take_bytes

Extends-decoded :
    (decoded : Option Str)
    → Extends (λ r. elim decoded [ some s ↦ ok (s, r) | none ↦ err (protocol not_utf8) ])
Extends-decoded (some s) = Extends-pure s
Extends-decoded none = record { at = λ bs extra a rest h. cc }

Extends-as_text : (raw : Bytes) → Extends (as_text raw)
unfolding as_text
Extends-as_text raw = Extends-decoded (decode_utf8 raw)

pub Extends-text : Extends text
unfolding text
Extends-text = Extends-bind _ Extends-lenbytes Extends-as_text
