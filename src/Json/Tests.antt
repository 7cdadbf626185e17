-- ===== src/Json/Tests.antt =====
-- Concrete values in JSON.
use tessaridb_sdk_python.Json.Numbers.{negative}
use tessaridb_sdk_python.Json.Kinds.{held_fields, held_items}
use tessaridb_sdk_python.Json.Geometry.{each_of}
use tessaridb_sdk_python.Text.{first_of, strip}
use tessaridb_sdk_python.Json.Durations.{part_of, split_digits, time_text, time_nanos}
use tessaridb_sdk_python.Dict.{dict_get}
use tessaridb_sdk_python.Json.Node.{typed_dict, typed_str, typed_list}
use tessaridb_sdk_python.Prelude.{
  ℕ, ◌+◌, ◌*◌, ◌<◌, ◌≤◌, ◌≡◌, refl, true, ℤ, pos, negsuc, pos_part, neg_part, [], ◌∷◌, ◌++◌, arith,
}
use tessaridb_sdk_python.Result.{ok}
use tessaridb_sdk_python.Value.{none_value, null_value, integer, text, duration}
use tessaridb_sdk_python.Text.{chars}
use tessaridb_sdk_python.Json.Node.{
  Node, null, number, string, list, dict, no_nodes, node_then, no_members, member, other_character,
  decimal_digit,
}
use tessaridb_sdk_python.Json.Kinds.{
  Kind, integer_kind, text_kind, duration_kind, array_kind, object_kind, one_kind, no_declared,
  declared, Held, held, array_held, object_held, no_held, held_then, no_held_fields, held_field,
}
use tessaridb_sdk_python.Json.Durations.{minutes, millis, read_duration}
use tessaridb_sdk_python.Json.Counts.{sign_text, spelled, span_nanos}
use tessaridb_sdk_python.Json.Reading.{read_value}
use tessaridb_sdk_python.Json.Fits.{Fits}
use tessaridb_sdk_python.Json.Sound.{read_value-Fits}
use tessaridb_sdk_python.Json.Samples.{ascii_character, ascii_python}
use tessaridb_sdk_python.Json.Spelled.{read_duration-spelled}

abbrev job : Node
job = dict (
    member (chars "tags") (list (node_then (string (chars "a")) (node_then null no_nodes))) (
      member (chars "n") (number (pos 5))
        (member (chars "ttl") (string (chars "-500ms")) no_members)))

abbrev job_kind : Kind
job_kind = object_kind (
    declared (chars "n") integer_kind (
      declared (chars "ttl") duration_kind (
        declared (chars "tags") (array_kind (one_kind text_kind))
          (declared (chars "note") text_kind no_declared))))

abbrev held_job : Held
held_job = object_held (
    held_field (chars "n") (held (integer (pos 5))) (
      held_field (chars "ttl") (held (duration (negsuc 0) (pos 500_000_000))) (
        held_field (chars "tags")
          (array_held (held_then (held (text (chars "a"))) (held_then (held null_value) no_held)))
          (held_field (chars "note") (held none_value) no_held_fields))))

read_value-job : read_value ascii_python job job_kind ≡ ok held_job
unfolding read_value typed_dict dict_get typed_str read_duration part_of split_digits first_of strip
    time_text typed_list each_of held_fields negative held_items time_nanos
read_value-job = refl

read_value-Fits_example : Fits job_kind held_job
read_value-Fits_example = read_value-Fits ascii_python job job_kind held_job read_value-job

ascii_digit : (d : ℕ) → d < 10 → ascii_character (48 + d) ≡ decimal_digit d
ascii_digit d h = ground arith

ascii_letter : (c : ℕ) → 97 ≤ c → c ≤ 122 → ascii_character c ≡ other_character
ascii_letter c low high = ground arith

read_duration-spelled_example :
    (whole : ℤ) × (left : ℕ) × (read_duration ascii_python
        (sign_text true ++ spelled ((1, minutes) ∷ (500, millis) ∷ []))
      ≡ ok (duration whole (pos left)))
    × (left < 1_000_000_000)
    × (pos_part whole * 1_000_000_000 + left + span_nanos ((1, minutes) ∷ (500, millis) ∷ [])
        ≡ neg_part whole * 1_000_000_000 + 0)
read_duration-spelled_example =
    read_duration-spelled ascii_python ascii_digit ascii_letter true 1 minutes ((500, millis) ∷ [])
