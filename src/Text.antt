-- ===== src/Text.antt =====
-- Python strings as code points: literals, `str` of an integer, `", ".join`, and reading a number back.
use Prim.Native.Char.{code}
use Prim.Native.String.{String}
use tessaridb_sdk_python.Prelude.{
  ℕ, zero, suc, ◌+◌, ◌-◌, ◌*◌, ◌/◌, ◌%◌, ◌<◌, ◌≡◌, refl, sym, ap, ◌∙◌, Bool, true, false, ◌&&◌,
  List, [], ◌∷◌, ◌++◌, arith, ltb, leb, Bool-cases, inl, inr, ℤ, pos, negsuc, Option, none, some,
  ◌==◌,
}
use tessaridb_sdk_python.Result.{Str}

-- A literal; `String` has its own `[]` and `∷`.
abbrev pub chars : String → Str
chars String.[] = []
chars (String.◌∷◌ c s) = code c ∷ chars s

abbrev pub is_digit : ℕ → Bool
is_digit c = leb 48 c && leb c 57

-- The digits of `n` before `out`, the last first; each round divides `n` by ten.
unfoldable pub digits : ℕ → ℕ → Str → Str
digits zero n out = out
digits (suc rounds) n out = elim (ltb n 10) [
  | true ↦ (48 + n % 10) ∷ out
  | false ↦ digits rounds (n / 10) ((48 + n % 10) ∷ out)
]

-- `str(n)`: one round for each digit, and `n + 1` rounds are never too few.
unfoldable pub show : ℕ → Str
unfolding digits
show n = digits (suc n) n []

unfoldable pub show_int : ℤ → Str
show_int (pos n) = show n
show_int (negsuc n) = 45 ∷ show (suc n)

-- The number that the digits at the front spell behind `n`, and what follows them.
unfoldable pub read_nat : ℕ → Str → ℕ × Str
read_nat n [] = (n, [])
read_nat n (c ∷ s) = elim (is_digit c) [
  | true ↦ read_nat (n * 10 + (c - 48)) s
  | false ↦ (n, c ∷ s)
]

-- `sep.join(items)`.
unfoldable pub join_with : Str → List Str → Str
join_with sep [] = []
join_with sep (item ∷ []) = item
join_with sep (item ∷ next ∷ items) = item ++ (sep ++ join_with sep (next ∷ items))

-- What is behind the prefix, if the text starts with it.
unfoldable pub strip : Str → Str → Option Str
strip [] t = some t
strip (c ∷ prefix) [] = none
strip (c ∷ prefix) (e ∷ t) = elim (c == e) [ true ↦ strip prefix t | false ↦ none ]

-- The first of the words that the text starts with, and what is behind it.
unfoldable pub first_of {ℓ} : {A : Type ℓ} → (A → Str) → List A → Str → Option (A × Str)
first_of word [] t = none
first_of word (a ∷ more) t = elim (strip (word a) t) [
  | some rest ↦ some (a, rest)
  | none ↦ first_of word more t
]

-- What is behind a number does not go on with a digit.
abbrev pub Ends : Str → Type 0
Ends [] = Unit
Ends (c ∷ s) = is_digit c ≡ false

strip-eq : (prefix t rest : Str) → strip prefix t ≡ some rest → t ≡ prefix ++ rest
unfolding strip
strip-eq [] t rest h = cc
strip-eq (c ∷ prefix) [] rest h = cc
strip-eq (c ∷ prefix) (e ∷ t) rest h = ground (arith, strip-eq prefix t rest)

pub strip-append : (prefix rest : Str) → strip prefix (prefix ++ rest) ≡ some rest
unfolding strip
strip-append [] rest = refl
strip-append (c ∷ prefix) rest =
    let same : (c == c) ≡ true = ground arith in rw (same, strip) (strip-append prefix rest)

pub first_of-eq {ℓ} :
    {A : Type ℓ} (word : A → Str) (words : List A) (t rest : Str) (a : A)
    → first_of word words t ≡ some (a, rest)
    → t ≡ word a ++ rest
unfolding first_of
first_of-eq word [] t rest a e = cc
first_of-eq word (b ∷ words) t rest a e =
    ground (arith, strip-eq (word b) t rest, first_of-eq word words t rest a)

read_nat-digit : (d n : ℕ) (s : Str) → d < 10 → read_nat n ((48 + d) ∷ s) ≡ read_nat (n * 10 + d) s
unfolding read_nat
read_nat-digit d n s h =
    let is : is_digit (48 + d) ≡ true = ground arith in
    let off : 48 + d - 48 ≡ d = omega arith in rw (is, read_nat) (rw off refl)

read_nat-digits :
    (rounds n : ℕ) (out : Str) → n < rounds → read_nat 0 (digits rounds n out) ≡ read_nat n out
unfolding digits
read_nat-digits zero n out h = absurd (omega arith)
read_nat-digits (suc rounds) n out h = elim (Bool-cases (ltb n 10)) [
  | inl small ↦
      let value : 0 * 10 + n % 10 ≡ n = ground arith in
      rw (small, digits) (rw value at (read_nat-digit (n % 10) 0 out (omega arith)))
  | inr large ↦
      let fewer : n / 10 < rounds = ground arith in
      let value : n / 10 * 10 + n % 10 ≡ n = omega arith in
      rw (large, digits)
        (read_nat-digits rounds (n / 10) ((48 + n % 10) ∷ out) fewer
          ∙ rw value at (read_nat-digit (n % 10) (n / 10) out (omega arith)))
]

digits-append :
    (rounds n : ℕ) (out rest : Str) → digits rounds n (out ++ rest) ≡ digits rounds n out ++ rest
unfolding digits
digits-append zero n out rest = refl
digits-append (suc rounds) n out rest = elim (Bool-cases (ltb n 10)) [
  | inl small ↦ rw (small, digits) refl
  | inr large ↦ rw (large, digits) (digits-append rounds (n / 10) ((48 + n % 10) ∷ out) rest)
]

read_nat-Ends : (n : ℕ) (s : Str) → Ends s → read_nat n s ≡ (n, s)
unfolding read_nat
read_nat-Ends n [] h = refl
read_nat-Ends n (c ∷ s) h = rw (h, read_nat) refl

-- A printed number is read back, whatever follows it but a digit.
pub read_nat-show : (n : ℕ) (rest : Str) → Ends rest → read_nat 0 (show n ++ rest) ≡ (n, rest)
unfolding show
read_nat-show n rest h =
    ap (read_nat 0) (sym (digits-append (suc n) n [] rest))
    ∙ read_nat-digits (suc n) n rest (omega arith)
    ∙ read_nat-Ends n rest h

-- Equal prints are of equal numbers.
pub show-injective : (m n : ℕ) → show m ≡ show n → m ≡ n
show-injective m n h =
    let same : read_nat 0 (show m ++ []) ≡ read_nat 0 (show n ++ []) =
      ap (λ s. read_nat 0 (s ++ [])) h in
    let left = read_nat-show m [] tt in
    let right = read_nat-show n [] tt in ap (λ r. r.0) (sym left ∙ same ∙ right)

show_sample : show 1_203 ≡ chars "1203"
unfolding show digits
show_sample = refl
