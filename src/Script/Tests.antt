-- ===== src/Script/Tests.antt =====
-- A concrete records outcome.
use tessaridb_sdk_python.Json.Geometry.{each_of}
use tessaridb_sdk_python.Dict.{dict_get}
use tessaridb_sdk_python.Json.Node.{is_word, iterate, subscript, is_truthy}
use tessaridb_sdk_python.Prelude.{◌≡◌, refl, true, false, some, pos, List, [], ◌∷◌}
use tessaridb_sdk_python.Result.{Str, ok}
use tessaridb_sdk_python.Value.{integer}
use tessaridb_sdk_python.Text.{chars}
use tessaridb_sdk_python.Json.Node.{
  Node, boolean, number, string, list, dict, no_nodes, node_then, no_members, member, gettable,
}
use tessaridb_sdk_python.Json.Kinds.{held, integer_kind}
use tessaridb_sdk_python.Json.Reading.{read_value}
use tessaridb_sdk_python.Json.Samples.{ascii_python}
use tessaridb_sdk_python.Script.Outcome.{
  Reading, exact_claim, nothing_near, ScriptRecords, script_records,
}
use tessaridb_sdk_python.Script.Reading.{one_of, paths, read_outcome}
use tessaridb_sdk_python.Script.Backed.{PlanItems, Says, read_outcome-IsBacked}
use tessaridb_sdk_python.Script.Suggested.{is_set, Suggests}

abbrev integers : Reading
integers = record { declared_kind = some integer_kind }

abbrev row : Node
row = dict (
    member (chars "id") (string (chars "ada")) (member (chars "value") (number (pos 7)) no_members))

abbrev answer : Node
answer = dict (
    member (chars "kind") (string (chars "records")) (
      member (chars "path") (string (chars "scan")) (
        member (chars "plan") (dict (member (chars "exact") (boolean true) no_members)) (
          member (chars "records") (list (node_then row no_nodes))
            (member (chars "suggestion") (dict no_members) no_members)))))

abbrev read_records_outcome : ScriptRecords
read_records_outcome = record {
  path = chars "scan";
  plan = record { access = string (chars "scan"); exactness = exact_claim; details = [] };
  rows = record { identity = string (chars "ada"); value = held (integer (pos 7)) } ∷ [];
  notes = [];
  only = false;
  suggestion = nothing_near;
}

read_outcome-answer :
    read_outcome ascii_python integers answer ≡ ok (script_records read_records_outcome)
unfolding read_outcome gettable is_word dict_get iterate each_of subscript read_value is_truthy
read_outcome-answer = refl

read_outcome-IsBacked_example :
    (items : List (Str × Node)) × (gettable answer ≡ ok items)
    × ((dict_get (chars "path") items ≡ some (string (chars "scan")))
        × (one_of (chars "scan") paths ≡ true))
    × ((plan : List (Str × Node)) × PlanItems (dict_get (chars "plan") items) plan
        × Says (dict_get (chars "exact") plan) exact_claim)
    × (false ≡ is_set (dict_get (chars "only") items))
    × Suggests (dict_get (chars "suggestion") items) nothing_near
read_outcome-IsBacked_example =
    read_outcome-IsBacked ascii_python integers answer read_records_outcome read_outcome-answer
