-- ===== src/Events/Tests.antt =====
-- Literals at concrete values.
use tessaridb_sdk_python.Prelude.{◌≡◌, refl, pos, negsuc, []}
use tessaridb_sdk_python.Result.{ok, err, not_an_event}
use tessaridb_sdk_python.Value.{
  integer, array, object, item, no_items, field, no_fields, none_value,
}
use tessaridb_sdk_python.Dict.{sort_by_name}
use tessaridb_sdk_python.Text.{chars, show, show_int, join_with}
use tessaridb_sdk_python.Events.Quoting.{quoted, unquoted, replace_char, unquoted-quoted}
use tessaridb_sdk_python.Events.Literals.{
  literal, any_none, in_order, braces, brackets, decimal_text,
}

unquoted-quoted_example : unquoted (quoted (chars "it's \\ here")) ≡ chars "it's \\ here"
unquoted-quoted_example = unquoted-quoted (chars "it's \\ here")

quoted_sample : quoted (chars "it's") ≡ chars "'it\\'s'"
unfolding quoted replace_char
quoted_sample = refl

decimal_sample : decimal_text (negsuc 4) (pos 2) ≡ chars "dec -0.05"
unfolding decimal_text show
decimal_sample = refl

literal_sample :
    literal
      (λ bits. [])
      (λ s n. err not_an_event)
      (object (
        field
          (chars "b")
          (array (item (integer (negsuc 1)) no_items))
          (field (chars "a") none_value no_fields)))
    ≡ ok (chars "{ 'b': [-2] }")
unfolding literal sort_by_name in_order braces brackets quoted replace_char any_none show_int show
    join_with
literal_sample = refl
