-- ===== src/Query/Safe.antt =====
-- The characters of a statement's text: those of names and numbers, spaces, and the signs of the
-- grammar. There is no quote, no semicolon and no brace among them.
use tessaridb_sdk_python.Prelude.{
  ℕ, zero, suc, ◌+◌, ◌/◌, ◌%◌, ◌≡◌, refl, Bool, true, Bool-cases, inl, inr, ◌&&◌, ◌||◌, List, [],
  ◌∷◌, ◌++◌, ◌==◌, arith, All, ltb, length,
}
use tessaridb_sdk_python.Result.{Str}
use tessaridb_sdk_python.Text.{chars, digits, show, join_with, is_digit}
use tessaridb_sdk_python.Follow.Selection.{plain_start, plain_char, plain_chars, is_plain}
use tessaridb_sdk_python.Query.Spans.{
  SpanUnit, nanos, micros, millis, seconds, minutes, hours, days, weeks, unit_text, Part, IsPart,
  spelled,
}
use tessaridb_sdk_python.Query.Filter.{
  Operator, eq, ne, lt, le, gt, ge, operator_text, Word, all_of, any_of, word_text, Filter,
  comparison, junction, reference, with_reference, joined, IsNamed,
}
use tessaridb_sdk_python.Query.Binding.{values, filter_text}

unfoldable pub is_sign : ℕ → Bool
is_sign c =
    c == 32
    || c == 36
    || c == 40
    || c == 41
    || c == 44
    || c == 58
    || c == 61
    || c == 60
    || c == 62
    || c == 33
    || c == 42

unfoldable pub is_safe : ℕ → Bool
unfolding is_sign
is_safe c = plain_char c || is_sign c

unfoldable pub all_safe : Str → Bool
unfolding is_safe
all_safe [] = true
all_safe (c ∷ s) = is_safe c && all_safe s

abbrev pub IsSafe : Str → Type 0
IsSafe s = all_safe s ≡ true

pub nil-IsSafe : IsSafe []
unfolding all_safe
nil-IsSafe = refl

pub append-IsSafe : (s t : Str) → IsSafe s → IsSafe t → IsSafe (s ++ t)
unfolding all_safe
append-IsSafe [] t h k = k
append-IsSafe (c ∷ s) t h k = ground (arith, append-IsSafe s t)

pub cons-IsSafe : (c : ℕ) (s : Str) → is_safe c ≡ true → IsSafe s → IsSafe (c ∷ s)
unfolding all_safe
cons-IsSafe c s h k = ground arith

pub join_with-IsSafe :
    (sep : Str) (items : List Str) → IsSafe sep → All IsSafe items → IsSafe (join_with sep items)
unfolding join_with
join_with-IsSafe sep [] h k = nil-IsSafe
join_with-IsSafe sep (item ∷ []) h k = k.0
join_with-IsSafe sep (item ∷ next ∷ items) h k =
    append-IsSafe item (sep ++ join_with sep (next ∷ items)) k.0 (
      append-IsSafe sep (join_with sep (next ∷ items)) h
        (join_with-IsSafe sep (next ∷ items) h k.1))

plain_chars-IsSafe : (s : Str) → plain_chars s ≡ true → IsSafe s
unfolding all_safe plain_chars
plain_chars-IsSafe [] h = refl
plain_chars-IsSafe (c ∷ s) h = ground (arith, plain_chars-IsSafe s)

pub is_plain-IsSafe : (s : Str) → is_plain s ≡ true → IsSafe s
unfolding is_plain all_safe plain_char
is_plain-IsSafe [] h = cc
is_plain-IsSafe (c ∷ s) h = ground (arith, plain_chars-IsSafe s)

safe_digit : (d : ℕ) → is_digit d ≡ true → is_safe d ≡ true
unfolding is_safe plain_char
safe_digit d h = ground arith

digits-IsSafe : (rounds n : ℕ) (out : Str) → IsSafe out → IsSafe (digits rounds n out)
unfolding digits
digits-IsSafe zero n out h = h
digits-IsSafe (suc rounds) n out h =
    let digit : is_digit (48 + n % 10) ≡ true = ground arith in
    let more = cons-IsSafe (48 + n % 10) out (safe_digit (48 + n % 10) digit) h in
    elim (Bool-cases (ltb n 10)) [
      | inl last ↦ rw (last, digits) more
      | inr not_last ↦
          rw (not_last, digits) (digits-IsSafe rounds (n / 10) ((48 + n % 10) ∷ out) more)
    ]

pub show-IsSafe : (n : ℕ) → IsSafe (show n)
unfolding show
show-IsSafe n = digits-IsSafe (suc n) n [] nil-IsSafe

All-IsSafe : (ds : Str) → All (λ c. is_digit c ≡ true) ds → IsSafe ds
All-IsSafe [] h = nil-IsSafe
All-IsSafe (d ∷ ds) h = cons-IsSafe d ds (safe_digit d h.0) (All-IsSafe ds h.1)

unit_text-IsSafe : (u : SpanUnit) → IsSafe (unit_text u)
unfolding all_safe unit_text plain_char plain_start
unit_text-IsSafe nanos = refl
unit_text-IsSafe micros = refl
unit_text-IsSafe millis = refl
unit_text-IsSafe seconds = refl
unit_text-IsSafe minutes = refl
unit_text-IsSafe hours = refl
unit_text-IsSafe days = refl
unit_text-IsSafe weeks = refl

pub spelled-IsSafe : (parts : List Part) → All IsPart parts → IsSafe (spelled parts)
unfolding spelled
spelled-IsSafe [] h = nil-IsSafe
spelled-IsSafe (p ∷ parts) h =
    append-IsSafe (p.first ∷ p.others) (unit_text p.unit ++ spelled parts)
      (All-IsSafe (p.first ∷ p.others) h.0)
      (append-IsSafe (unit_text p.unit) (spelled parts) (unit_text-IsSafe p.unit)
        (spelled-IsSafe parts h.1))

operator_text-IsSafe : (op : Operator) → IsSafe (operator_text op)
unfolding all_safe operator_text plain_char plain_start
operator_text-IsSafe eq = refl
operator_text-IsSafe ne = refl
operator_text-IsSafe lt = refl
operator_text-IsSafe le = refl
operator_text-IsSafe gt = refl
operator_text-IsSafe ge = refl

word_text-IsSafe : (word : Word) → IsSafe (word_text word)
unfolding all_safe word_text plain_char plain_start
word_text-IsSafe all_of = refl
word_text-IsSafe any_of = refl

-- The signs that stand between the parts.
pub safe_sign : (c : ℕ) → is_sign c ≡ true → is_safe c ≡ true
unfolding is_safe
safe_sign c h = ground arith

space-IsSafe : (s : Str) → IsSafe s → IsSafe (chars " " ++ s)
space-IsSafe s h = cons-IsSafe 32 s (safe_sign 32 (unfold is_sign in refl)) h

pub filter_text-IsSafe : (n : ℕ) (f : Filter) → IsNamed f → IsSafe (filter_text n f)
unfolding filter_text IsNamed with_reference joined reference
filter_text-IsSafe n (comparison field op value) h =
    let sign =
      append-IsSafe (operator_text op) (chars " ") (operator_text-IsSafe op)
        (space-IsSafe [] nil-IsSafe) in
    let start =
      append-IsSafe field (chars " " ++ (operator_text op ++ chars " ")) (is_plain-IsSafe field h)
        (space-IsSafe (operator_text op ++ chars " ") sign) in
    append-IsSafe (field ++ (chars " " ++ (operator_text op ++ chars " "))) (chars "$p" ++ show n)
      start
      (append-IsSafe (chars "$p") (show n) (unfold all_safe plain_char plain_start in refl)
        (show-IsSafe n))
filter_text-IsSafe n (junction word left right) h =
    let m = n + length (values left) in
    let last =
      append-IsSafe (filter_text m right) (chars ")") (filter_text-IsSafe m right h.1)
        (unfold all_safe plain_char plain_start in refl) in
    let words =
      append-IsSafe (word_text word) (chars " " ++ (filter_text m right ++ chars ")"))
        (word_text-IsSafe word) (space-IsSafe (filter_text m right ++ chars ")") last) in
    let sides =
      append-IsSafe (filter_text n left)
        (chars " " ++ (word_text word ++ (chars " " ++ (filter_text m right ++ chars ")"))))
        (filter_text-IsSafe n left h.0)
        (space-IsSafe (word_text word ++ (chars " " ++ (filter_text m right ++ chars ")")))
          words) in
    cons-IsSafe 40
      (filter_text n left
        ++ (chars " " ++ (word_text word ++ (chars " " ++ (filter_text m right ++ chars ")")))))
      (safe_sign 40 (unfold is_sign in refl)) sides
