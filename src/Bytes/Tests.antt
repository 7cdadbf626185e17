-- ===== src/Bytes/Tests.antt =====
-- The theorems of the primitives at concrete bytes.
use tessaridb_sdk_python.Prelude.{◌≡◌, refl, [], ◌∷◌, some, pos, negsuc, leb_ℤ}
use tessaridb_sdk_python.Result.{Bytes, Str, ok}
use tessaridb_sdk_python.Dict.{str_leb}
use tessaridb_sdk_python.Bytes.Endian.{to_bytes, to_twos, flip_first}
use tessaridb_sdk_python.Bytes.Utf8.{
  encode_char, encode_utf8, decode_utf8, decode_chars, decode_char, two, three, four,
}
use tessaridb_sdk_python.Bytes.Replace.{decode_replace}
use tessaridb_sdk_python.Bytes.Writer.{i64}
use tessaridb_sdk_python.Bytes.Order.{i64-order}

-- An ASCII letter, an accented one, the euro sign and an emoji.
abbrev sample_text : Str
sample_text = 97 ∷ 0xe9 ∷ 0x20ac ∷ 0x1f600 ∷ []

abbrev sample_utf8 : Bytes
sample_utf8 = 97 ∷ 0xc3 ∷ 0xa9 ∷ 0xe2 ∷ 0x82 ∷ 0xac ∷ 0xf0 ∷ 0x9f ∷ 0x98 ∷ 0x80 ∷ []

encode_text : encode_utf8 sample_text ≡ ok sample_utf8
unfolding encode_utf8 encode_char
encode_text = refl

decode_text : decode_utf8 sample_utf8 ≡ some sample_text
unfolding decode_utf8 decode_chars decode_char two three four
decode_text = refl

-- A start of the euro sign that does not go on.
replaced : decode_replace (0xe2 ∷ 0x82 ∷ 97 ∷ []) ≡ 0xfffd ∷ 97 ∷ []
unfolding decode_replace
replaced = refl

abbrev minus_two : Bytes
minus_two = 0x7f ∷ 255 ∷ 255 ∷ 255 ∷ 255 ∷ 255 ∷ 255 ∷ 254 ∷ []

abbrev plus_three : Bytes
plus_three = 0x80 ∷ 0 ∷ 0 ∷ 0 ∷ 0 ∷ 0 ∷ 0 ∷ 3 ∷ []

i64-minus_two : i64 (negsuc 1) ≡ ok minus_two
unfolding i64 to_bytes to_twos flip_first
i64-minus_two = refl

i64-plus_three : i64 (pos 3) ≡ ok plus_three
unfolding i64 to_bytes to_twos flip_first
i64-plus_three = refl

i64-order_example : str_leb minus_two plus_three ≡ leb_ℤ (negsuc 1) (pos 3)
i64-order_example = i64-order (negsuc 1) (pos 3) minus_two plus_three i64-minus_two i64-plus_three
