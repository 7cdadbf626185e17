-- ===== src/Query/Tests.antt =====
-- Statements at concrete inputs, and the theorems at them.
use tessaridb_sdk_python.Prelude.{◌≡◌, refl, ◌↔◌, true, none, some, List, [], ◌∷◌, ◌++◌, All, pos}
use tessaridb_sdk_python.Result.{Str, ok, bind}
use tessaridb_sdk_python.Value.{Value, integer, bool, text}
use tessaridb_sdk_python.Dict.{Distinct, sort_by_name, dict_set, str_leb}
use tessaridb_sdk_python.Dict.Reordered.{swap}
use tessaridb_sdk_python.Text.{chars, show, first_of, strip, join_with}
use tessaridb_sdk_python.Follow.Selection.{is_plain, plain_start, plain_char, plain_chars}
use tessaridb_sdk_python.Query.Names.{check_name, count}
use tessaridb_sdk_python.Query.Spans.{
  Part, IsPart, spelled, check_span, unit_text, skip_digits, skip_unit, span_from,
}
use tessaridb_sdk_python.Query.Grammar.{check_span-spelled}
use tessaridb_sdk_python.Query.Filter.{
  Filter, eq, ge, comparison, both, either, render_filter, reference, operator_text, word_text,
  bind_value, IsNamed,
}
use tessaridb_sdk_python.Query.Binding.{bare, render_filter-bare}
use tessaridb_sdk_python.Query.Reading.{read_rendering}
use tessaridb_sdk_python.Query.ReadBack.{read_rendering-render_filter}
use tessaridb_sdk_python.Query.Safe.{IsSafe}
use tessaridb_sdk_python.Query.Objects.{assigned_texts}
use tessaridb_sdk_python.Query.Statement.{
  select, Select, render_select, render_create, render_update, field, narrow, order_by, direction,
  limit, staleness, head_clauses, tail_clauses, where_clause,
}
use tessaridb_sdk_python.Query.Checked.{
  Call, field_call, where_call, order_by_call, limit_call, staleness_call, perform_all, IsCall,
  IsChecked, built-IsChecked, render_select-IsSafe,
}
use tessaridb_sdk_python.Query.Writes.{IsNamedField, update_text, render_write-Reordered}

-- `compare("age", ">=", 18) & (compare("city", "=", "Oslo") | compare("vip", "=", true))`.
abbrev adult : Filter
adult = comparison (chars "age") ge (integer (pos 18))

abbrev narrowed : Filter
narrowed = both adult (
    either (comparison (chars "city") eq (text (chars "Oslo")))
      (comparison (chars "vip") eq (bool true)))

narrowed-IsNamed : IsNamed narrowed
unfolding IsNamed both either is_plain plain_chars plain_char plain_start
narrowed-IsNamed = (refl, (refl, refl))

narrowed_text : (render_filter narrowed []).0 ≡ chars "(age >= $p0 AND (city = $p1 OR vip = $p2))"
unfolding render_filter both either bind_value reference operator_text word_text show dict_set
narrowed_text = refl

check_span-spelled_example : (check_span (chars "1m30s") ≡ ok (chars "1m30s")) ↔ (
    (p : Part) × (parts : List Part) × All IsPart (p ∷ parts)
    × (chars "1m30s" ≡ spelled (p ∷ parts)))
check_span-spelled_example = check_span-spelled (chars "1m30s")

span_sample : check_span (chars "1m30s") ≡ ok (chars "1m30s")
unfolding check_span span_from skip_digits skip_unit unit_text first_of strip
span_sample = refl

-- The same comparison with a text that spells a statement.
abbrev injected : Filter
injected = comparison (chars "age") ge (text (chars "0; DELETE users:1"))

injected-bare : bare injected ≡ bare adult
unfolding bare
injected-bare = refl

render_filter-bare_example : (render_filter injected []).0 ≡ (render_filter adult []).0
render_filter-bare_example = render_filter-bare injected adult injected-bare

read_rendering-render_filter_example : read_rendering (render_filter narrowed []) ≡ some narrowed
read_rendering-render_filter_example = read_rendering-render_filter narrowed narrowed-IsNamed

abbrev calls : List Call
calls =
    field_call (chars "name")
    ∷ where_call narrowed
    ∷ order_by_call (chars "age") true
    ∷ limit_call (pos 20)
    ∷ staleness_call (chars "30s")
    ∷ []

abbrev people : Select
people = record {
  table = chars "people";
  items = chars "name" ∷ [];
  filter = some narrowed;
  order = chars "age DESC" ∷ [];
  first = none;
  most = some 20;
  freshness = some (chars "30s");
  answerer = none;
}

built : bind (select (chars "people")) (perform_all calls) ≡ ok people
unfolding select perform_all field narrow order_by direction limit staleness check_name check_span
    span_from skip_digits skip_unit unit_text first_of strip count
built = refl

people_text :
    (render_select people).0
    ≡ chars
        "SELECT name FROM people WHERE (age >= $p0 AND (city = $p1 OR vip = $p2)) ORDER BY age DESC LIMIT 20 STALENESS 30s;"
unfolding render_select head_clauses tail_clauses where_clause render_filter both either bind_value
    reference operator_text word_text show dict_set join_with
people_text = refl

calls-IsCall : All IsCall calls
calls-IsCall = (tt, (narrowed-IsNamed, (tt, (tt, (tt, tt)))))

built-IsChecked_example : IsChecked people
built-IsChecked_example = built-IsChecked (chars "people") calls people calls-IsCall built

render_select-IsSafe_example :
    (body : Str) × IsSafe body × ((render_select people).0 ≡ body ++ chars ";")
render_select-IsSafe_example = render_select-IsSafe (chars "people") calls people calls-IsCall built

abbrev city_item : Str × Value
city_item = (chars "city", text (chars "Oslo"))

abbrev age_item : Str × Value
age_item = (chars "age", integer (pos 31))

items-IsNamedField : All IsNamedField (city_item ∷ age_item ∷ [])
unfolding is_plain plain_chars plain_char plain_start
items-IsNamedField = (refl, (refl, tt))

items-Distinct : Distinct (city_item ∷ age_item ∷ [])
items-Distinct = (((λ e. cc), tt), (tt, tt))

update_sample :
    update_text (chars "people") (sort_by_name (city_item ∷ age_item ∷ []))
    ≡ chars "UPDATE people:$p0 SET age = $p1, city = $p2;"
unfolding update_text sort_by_name str_leb assigned_texts reference show join_with
update_sample = refl

render_write-Reordered_example :
    (render_create
        (record { table = chars "people"; identity = none; fields = city_item ∷ age_item ∷ [] })
      ≡ render_create
          (record { table = chars "people"; identity = none; fields = age_item ∷ city_item ∷ [] }))
    × (render_update
          (record { table = chars "people"; identity = none; fields = city_item ∷ age_item ∷ [] })
        ≡ render_update (record {
          table = chars "people";
          identity = none;
          fields = age_item ∷ city_item ∷ [];
        }))
render_write-Reordered_example =
    render_write-Reordered (chars "people") none city_item age_item (age_item ∷ []) (city_item ∷ [])
      (swap city_item age_item) items-Distinct items-IsNamedField
