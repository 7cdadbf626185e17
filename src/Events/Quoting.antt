-- ===== src/Events/Quoting.antt =====
-- `_quoted` of _events.py, and `unquoted` of cache.py, which takes a quoted text back.
use tessaridb_sdk_python.Prelude.{
  ℕ, ◌≡◌, refl, ◌∙◌, Bool, true, false, [], ◌∷◌, ◌++◌, ◌==◌, if◌then◌else◌, arith,
}
use tessaridb_sdk_python.Result.{Str}

-- `text.replace(c, new)` for one character.
unfoldable pub replace_char : ℕ → Str → Str → Str
replace_char old new [] = []
replace_char old new (c ∷ t) = (if c == old then new else c ∷ []) ++ replace_char old new t

-- `_quoted`.
unfoldable pub quoted : Str → Str
quoted t = 39 ∷ (replace_char 39 (92 ∷ 39 ∷ []) (replace_char 92 (92 ∷ 92 ∷ []) t) ++ 39 ∷ [])

-- The loop of `unquoted`.
unfoldable pub unescaped : Bool → Str → Str
unescaped escaped [] = []
unescaped true (c ∷ t) = c ∷ unescaped false t
unescaped false (c ∷ t) = if c == 92 then unescaped true t else c ∷ unescaped false t

-- All but the last, and the last.
unfoldable pub split_last : ℕ → Str → Str × ℕ
split_last c [] = ([], c)
split_last c (d ∷ t) = let (before, last) = split_last d t in (c ∷ before, last)

-- What is behind the first character, if the last is a quote.
unfoldable pub without_quotes : Str → Str × ℕ → Str
without_quotes spelled (middle, last) = if last == 39 then unescaped false middle else spelled

unfoldable pub unquoted : Str → Str
unfolding without_quotes split_last
unquoted [] = []
unquoted (c ∷ []) = c ∷ []
unquoted (c ∷ d ∷ t) = if c == 39 then without_quotes (c ∷ d ∷ t) (split_last d t) else c ∷ d ∷ t

split_last-append : (c d : ℕ) (t : Str) → split_last c (t ++ d ∷ []) ≡ (c ∷ t, d)
unfolding split_last
split_last-append c d [] = refl
split_last-append c d (e ∷ t) = rw (split_last-append e d t) refl

-- Escaping, character by character.
unfoldable escaped : Str → Str
escaped t = replace_char 39 (92 ∷ 39 ∷ []) (replace_char 92 (92 ∷ 92 ∷ []) t)

escaped-cons :
    (c : ℕ) (t : Str)
    → escaped (c ∷ t)
      ≡ (if c == 92 then 92 ∷ 92 ∷ [] else if c == 39 then 92 ∷ 39 ∷ [] else c ∷ []) ++ escaped t
unfolding escaped replace_char
escaped-cons c t = ground arith

unescaped-escaped : (t : Str) → unescaped false (escaped t) ≡ t
unfolding unescaped
unescaped-escaped [] = unfold escaped replace_char in refl
unescaped-escaped (c ∷ t) = ground (arith, escaped-cons c t, unescaped-escaped t)

unquoted-middle : (middle : Str) → unquoted (39 ∷ (middle ++ 39 ∷ [])) ≡ unescaped false middle
unfolding unquoted
unquoted-middle [] = refl
unquoted-middle (c ∷ t) = rw (split_last-append c 39 t, without_quotes) refl

-- A text that was quoted for the store is got back from its spelling, whatever quotes and
-- backslashes are in it.
pub unquoted-quoted : (t : Str) → unquoted (quoted t) ≡ t
unfolding quoted escaped
unquoted-quoted t = unquoted-middle (escaped t) ∙ unescaped-escaped t
