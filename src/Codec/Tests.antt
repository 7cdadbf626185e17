-- ===== src/Codec/Tests.antt =====
-- Runs of the codec, and its theorems at concrete values.
use mathlib.Core.Quot
use tessaridb_sdk_python.Codec.Unordered.{Unordered, encode_unordered, encode_unordered-injective}
use tessaridb_sdk_python.Prelude.{sym, ◌∙◌, ◌≡◌, ◌≢◌, refl, [], ◌∷◌, ◌++◌, arith, pos, negsuc}
use tessaridb_sdk_python.Result.{Bytes, ok, err, protocol, trailing, out_of_fuel}
use tessaridb_sdk_python.Dict.{sort_by_name, insert_by_name, str_leb}
use tessaridb_sdk_python.Value.{
  Value, integer, array, object, field, no_fields, item, no_items, range, included, unbounded,
  canon, IsPython, fields_list, fields_of,
}
use tessaridb_sdk_python.Bytes.Endian.{to_bytes, to_twos, flip_first}
use tessaridb_sdk_python.Bytes.Utf8.{encode_utf8, encode_char}
use tessaridb_sdk_python.Bytes.Writer
use tessaridb_sdk_python.Bytes.Writer.{◌⨾◌}
use tessaridb_sdk_python.Codec.Encode.{put_value, put_fields, count_fields, count_items, encode}
use tessaridb_sdk_python.Codec.Decode.{decode}
use tessaridb_sdk_python.Codec.RoundTrip.{decode-encode}
use tessaridb_sdk_python.Codec.Fuel.{decode-ne-out_of_fuel}
use tessaridb_sdk_python.Codec.Canonical.{encode-canon}
use tessaridb_sdk_python.Codec.Strict.{decode-trailing}

-- {"b": [-1], "a": 1..}, the fields out of order.
abbrev sample : Value
sample = object (
    field (98 ∷ []) (array (item (integer (negsuc 0)) no_items))
      (field (97 ∷ []) (range (included (integer (pos 1))) unbounded) no_fields))

abbrev sample_bytes : Bytes
sample_bytes =
    0x0d ∷ 0 ∷ 0 ∷ 0 ∷ 2 ∷ 0 ∷ 0 ∷ 0 ∷ 1 ∷ 97 ∷ 0x0e ∷ 2 ∷ 4 ∷ 1 ∷ 0x80 ∷ 0 ∷ 0 ∷ 0 ∷ 0 ∷ 0 ∷ 0 ∷ 1
    ∷ 1 ∷ 0 ∷ 0 ∷ 0 ∷ 1 ∷ 98 ∷ 0x0c ∷ 0 ∷ 0 ∷ 0 ∷ 1 ∷ 4 ∷ 1 ∷ 0x7f ∷ 255 ∷ 255 ∷ 255 ∷ 255 ∷ 255
    ∷ 255 ∷ 255 ∷ []

encode-sample : encode sample ≡ ok sample_bytes
unfolding encode put_value put_fields count_fields count_items sort_by_name str_leb ◌⨾◌ Writer.u8
    Writer.u32 Writer.i64 Writer.text Writer.lenbytes Writer.raw encode_utf8 encode_char to_bytes
    to_twos flip_first
encode-sample = refl

sample-IsPython : IsPython sample
unfolding IsPython fields_list
sample-IsPython = (((ground arith, tt), (tt, tt)), ((tt, tt), ((tt, tt), tt)))

decode-encode_example : decode sample_bytes ≡ ok (canon sample)
decode-encode_example = decode-encode sample sample_bytes sample-IsPython encode-sample

decode-trailing_example : decode (sample_bytes ++ 1 ∷ 2 ∷ []) ≡ err (protocol (trailing 2))
decode-trailing_example =
    decode-trailing sample sample_bytes 1 (2 ∷ []) sample-IsPython encode-sample

decode-ne-out_of_fuel_example : decode (0x0c ∷ 255 ∷ 255 ∷ 255 ∷ 255 ∷ []) ≢ err out_of_fuel
decode-ne-out_of_fuel_example = decode-ne-out_of_fuel (0x0c ∷ 255 ∷ 255 ∷ 255 ∷ 255 ∷ [])

-- `sample` with its fields in name order.
abbrev sorted_sample : Value
sorted_sample = object (
    field (97 ∷ []) (range (included (integer (pos 1))) unbounded)
      (field (98 ∷ []) (array (item (integer (negsuc 0)) no_items)) no_fields))

same_canon : canon sample ≡ canon sorted_sample
unfolding canon sort_by_name insert_by_name str_leb fields_of
same_canon = refl

encode-sorted : encode sorted_sample ≡ ok sample_bytes
encode-sorted = sym (encode-canon sample sorted_sample same_canon) ∙ encode-sample

sorted-IsPython : IsPython sorted_sample
unfolding IsPython fields_list
sorted-IsPython = (((ground arith, tt), (tt, tt)), ((tt, tt), ((tt, tt), tt)))

abbrev set_late : Unordered
set_late = Quot.mk (sample, sample-IsPython)

abbrev set_early : Unordered
set_early = Quot.mk (sorted_sample, sorted-IsPython)

encode-late : encode_unordered set_late ≡ ok sample_bytes
unfolding encode_unordered
encode-late = encode-sample

encode-early : encode_unordered set_early ≡ ok sample_bytes
unfolding encode_unordered
encode-early = encode-sorted

encode_unordered-injective_example : set_late ≡ set_early
encode_unordered-injective_example =
    encode_unordered-injective set_late set_early sample_bytes encode-late encode-early
