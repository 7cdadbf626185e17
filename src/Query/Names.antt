-- ===== src/Query/Names.antt =====
-- `check_name`, `check_answerer` and `_count`: what may be written into a statement's text.
use tessaridb_sdk_python.Prelude.{
  ℕ, suc, ◌^◌, ◌-◌, ◌≡◌, refl, Bool, true, ◌&&◌, ◌||◌, [], ◌∷◌, ltb, leb, ◌==◌, arith,
  if◌then◌else◌, ℤ, pos, negsuc,
}
use tessaridb_sdk_python.Result.{
  Str, Result, ok, err, builder, not_a_name, not_an_answerer, value_error,
}
use tessaridb_sdk_python.Dict.{str_eq}
use tessaridb_sdk_python.Text.{chars}
use tessaridb_sdk_python.Follow.Selection.{plain_start, plain_char, plain_chars, is_plain}

-- The loop of `check_name`, `at` the position.
unfoldable pub name_from : ℕ → Str → Bool
name_from at [] = true
name_from at (c ∷ cs) =
    (c == 95 || leb 97 c && leb c 122 || leb 65 c && leb c 90 || ltb 0 at && (leb 48 c && leb c 57))
    && name_from (suc at) cs

unfoldable pub check_name : Str → Str → Result Str
unfolding name_from
check_name what [] = err (builder (not_a_name what []))
check_name what (c ∷ cs) =
    if name_from 0 (c ∷ cs) then ok (c ∷ cs) else err (builder (not_a_name what (c ∷ cs)))

unfoldable pub check_answerer : Str → Result Str
check_answerer word =
    if str_eq word (chars "ANY") || str_eq word (chars "LEADER")
    then ok word
    else err (builder (not_an_answerer word))

abbrev pub u64_max : ℕ
u64_max = 2 ^ 64 - 1

-- `_count`: the number, when it fits.
unfoldable pub count : ℤ → Result ℕ
count (pos n) = if leb n u64_max then ok n else err value_error
count (negsuc n) = err value_error

name_from-plain_chars : (at : ℕ) (s : Str) → name_from (suc at) s ≡ plain_chars s
unfolding name_from plain_chars plain_char plain_start
name_from-plain_chars at [] = refl
name_from-plain_chars at (c ∷ s) = ground (arith, name_from-plain_chars (suc at) s)

name_from-is_plain : (c : ℕ) (s : Str) → name_from 0 (c ∷ s) ≡ is_plain (c ∷ s)
unfolding name_from is_plain plain_start
name_from-is_plain c s = ground (arith, name_from-plain_chars 0 s)

-- The builder's check of a name and the pattern with which redirects check one accept the same
-- texts: `check_name` returns the name if `_PLAIN` matches all of it, and refuses it otherwise.
pub check_name-is_plain :
    (what name : Str)
    → check_name what name
      ≡ (if is_plain name then ok name else err (builder (not_a_name what name)))
unfolding check_name is_plain
check_name-is_plain what [] = refl
check_name-is_plain what (c ∷ s) = rw (name_from-is_plain c s) (unfold is_plain in refl)

-- What the check returned is the name itself, and a plain one.
pub check_name-eq-ok :
    (what name checked : Str)
    → check_name what name ≡ ok checked
    → (checked ≡ name) × (is_plain checked ≡ true)
check_name-eq-ok what name checked h = let h' = check_name-is_plain what name in ground (arith, h')
