-- ===== src/Answer/Bodies.antt =====
-- An answer as the protocol lays it out: a count, and each outcome's bytes behind their length.
use tessaridb_sdk_python.Prelude.{
  ℕ, suc, ◌^◌, ◌≤◌, ◌<◌, ◌≡◌, refl, List, [], ◌∷◌, ◌++◌, append_assoc, arith, le→ltb, length,
  length-append, take-append, drop-append, All,
}
use tessaridb_sdk_python.Result.{Bytes, Result, ok, err, bind}
use tessaridb_sdk_python.Bytes.Endian.{to_bytes, length-to_bytes, from_bytes-to_bytes}
use tessaridb_sdk_python.Bytes.Reader.{Get, ◌>>=◌, take_bytes, u32, fixed, repeat}
use tessaridb_sdk_python.Codec.Decode.{counted}
use tessaridb_sdk_python.Answer.Outcome.{Outcome}
use tessaridb_sdk_python.Answer.Read.{outcome, get_body, next_outcome, read_answer}

-- How many things each `raw` is, whatever it says.
unfoldable pub count_of {ℓ} : {A : Type ℓ} → List A → ℕ
count_of [] = 0
count_of (_ ∷ xs) = suc (count_of xs)

unfoldable pub bodies : List Bytes → Bytes
bodies [] = []
bodies (raw ∷ raws) = to_bytes 4 (length raw) ++ (raw ++ bodies raws)

unfoldable pub answer_bytes : List Bytes → Bytes
answer_bytes raws = to_bytes 4 (count_of raws) ++ bodies raws

-- Each outcome on its own; the first that cannot be read decides.
unfoldable pub each_outcome : List Bytes → Result (List Outcome)
each_outcome [] = ok []
each_outcome (raw ∷ raws) = bind (outcome raw) λ o. bind (each_outcome raws) λ os. ok (o ∷ os)

-- It carries its tag at least, and its length fits its field.
abbrev pub IsBody : Bytes → Type 0
IsBody raw = (1 ≤ length raw) × (length raw < 2 ^ 32)

take_bytes-append :
    (width : ℕ) (xs ys : Bytes) → length xs ≡ width → take_bytes width (xs ++ ys) ≡ ok (xs, ys)
unfolding take_bytes
take_bytes-append width xs ys h = rw (
  le→ltb (length (xs ++ ys)) width (omega (arith, length-append {0} xs ys)),
  take-append width xs ys h,
  drop-append width xs ys h,
)

u32-append : (n : ℕ) (ys : Bytes) → n < 2 ^ 32 → u32 (to_bytes 4 n ++ ys) ≡ ok (n, ys)
unfolding u32 ◌>>=◌
u32-append n ys h =
    rw (take_bytes-append 4 (to_bytes 4 n) ys (length-to_bytes 4 n))
      (rw (from_bytes-to_bytes 4 n (omega arith)))

next_outcome-append :
    (raw rest : Bytes)
    → IsBody raw
    → next_outcome (to_bytes 4 (length raw) ++ (raw ++ rest))
      ≡ bind (outcome raw) (λ o. ok (o, rest))
unfolding next_outcome get_body fixed ◌>>=◌
next_outcome-append raw rest (some_bytes, fits) =
    rw (u32-append (length raw) (raw ++ rest) fits)
      (rw (le→ltb (length raw) 1 some_bytes) (rw (take_bytes-append (length raw) raw rest refl)))

-- A result with what it left, and those of a reader of the others.
with_others {ℓ} :
    {A : Type ℓ} (m : Result A) (others : Get (List A)) (rest : Bytes) (r : Result (List A))
    → bind (others rest) (λ (more, rest'). ok more) ≡ r
    → bind
        (bind {B = List A × Bytes}
          (bind {B = A × Bytes} m λ a. ok (a, rest))
          λ (a, rest'). bind (others rest') λ (more, rest''). ok (a ∷ more, rest''))
        (λ (more, rest'). ok more)
      ≡ bind m (λ a. bind r λ more. ok (a ∷ more))
with_others (err e) others rest r h = refl
with_others {A = A} (ok a) others rest r h = rw (← h) (others_of (others rest))
  where
    others_of :
        (rs : Result (List A × Bytes))
        → bind
            (bind {B = List A × Bytes} rs λ (more, rest'). ok (a ∷ more, rest'))
            (λ (more, rest'). ok more)
          ≡ bind (bind {B = List A} rs (λ (more, rest'). ok more)) (λ more. ok (a ∷ more))
    others_of (ok (more, rest')) = refl
    others_of (err e) = refl

repeat-bodies :
    (raws : List Bytes) (rest : Bytes)
    → All IsBody raws
    → bind (repeat (count_of raws) next_outcome (bodies raws ++ rest)) (λ (os, rest'). ok os)
      ≡ each_outcome raws
unfolding count_of bodies each_outcome repeat
repeat-bodies [] rest h = refl
repeat-bodies (raw ∷ raws) rest (is, are) =
    rw
      (
        append_assoc (to_bytes 4 (length raw)) (raw ++ bodies raws) rest,
        append_assoc raw (bodies raws) rest,
      )
      (rw (next_outcome-append raw (bodies raws ++ rest) is) (
        with_others (outcome raw) (repeat (count_of raws) next_outcome) (bodies raws ++ rest)
          (each_outcome raws) (repeat-bodies raws rest are)))

-- Where each body has its tag at least, and the lengths and the count fit their fields, an answer
-- is read to the outcomes that its bodies give, each by itself; bytes behind the last are left
-- alone.
pub read_answer-each_outcome :
    (raws : List Bytes) (rest : Bytes)
    → All IsBody raws
    → count_of raws < 2 ^ 32
    → read_answer (answer_bytes raws ++ rest) ≡ each_outcome raws
unfolding read_answer answer_bytes counted ◌>>=◌
read_answer-each_outcome raws rest are fits =
    rw append_assoc
      (rw (u32-append (count_of raws) (bodies raws ++ rest) fits) (repeat-bodies raws rest are))
