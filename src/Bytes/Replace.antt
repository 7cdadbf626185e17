-- ===== src/Bytes/Replace.antt =====
-- `bytes.decode("utf-8", "replace")`: U+FFFD for each longest run of bytes that starts a character
-- and cannot go on.
use tessaridb_sdk_python.Prelude.{
  ℕ, zero, suc, Bool, ◌&&◌, none, some, [], ◌∷◌, ltb, leb, ◌==◌, if◌then◌else◌, length, drop,
}
use tessaridb_sdk_python.Result.{Bytes, Str}
use tessaridb_sdk_python.Bytes.Utf8.{is_cont, decode_char, two, three, four}

-- The second bytes that may follow the lead byte `b` of a longer character.
unfoldable pub goes_on : ℕ → ℕ → Bool
goes_on b c =
    if b == 0xe0
    then leb 0xa0 c && ltb c 0xc0
    else if b == 0xed
    then leb 0x80 c && ltb c 0xa0
    else if b == 0xf0
    then leb 0x90 c && ltb c 0xc0
    else if b == 0xf4
    then leb 0x80 c && ltb c 0x90
    else leb 0xe0 b && ltb b 0xf5 && is_cont c

-- How many bytes one replacement character stands for, less one.
unfoldable pub run_after : ℕ → Bytes → ℕ
unfolding goes_on
run_after b [] = 0
run_after b (c ∷ []) = if goes_on b c then 1 else 0
run_after b (c ∷ d ∷ rest) = if goes_on b c then (if leb 0xf0 b && is_cont d then 2 else 1) else 0

unfoldable pub replace_chars : ℕ → Bytes → Str
replace_chars rounds [] = []
replace_chars zero (b ∷ bs) = []
replace_chars (suc rounds) (b ∷ bs) = elim (decode_char (b ∷ bs)) [
  | some (c, rest) ↦ c ∷ replace_chars rounds rest
  | none ↦ 0xfffd ∷ replace_chars rounds (drop (run_after b bs) bs)
]

unfoldable pub decode_replace : Bytes → Str
unfolding replace_chars decode_char two three four run_after
decode_replace bs = replace_chars (length bs) bs
