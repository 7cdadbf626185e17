-- ===== src/Script/Reading.antt =====
-- `read_results` and what it calls, of script.py.
use tessaridb_sdk_python.Prelude.{
  ℤ, pos, Bool, true, false, ◌||◌, Option, none, some, List, [], ◌∷◌, if◌then◌else◌,
}
use tessaridb_sdk_python.Result.{
  Str, Result, ok, err, bind, malformed, value_error, type_error, attribute_error,
}
use tessaridb_sdk_python.Value.{none_value}
use tessaridb_sdk_python.Dict.{str_eq, dict_get}
use tessaridb_sdk_python.Text.{chars, strip}
use tessaridb_sdk_python.Json.Node.{
  Node, boolean, number, double, string, list, dict, no_nodes, no_members, nodes_list, members_list,
  Python, is_word, gettable, subscript, is_truthy, iterate,
}
use tessaridb_sdk_python.Json.Kinds.{Kind, Held, held}
use tessaridb_sdk_python.Json.Numbers.{int_of_text}
use tessaridb_sdk_python.Json.Geometry.{each_of, required}
use tessaridb_sdk_python.Json.Reading.{read_value}
use tessaridb_sdk_python.Script.Outcome.{
  Reading, Claim, exact_claim, unstated_claim, inexact_claim, Plan, ScriptRow, ScriptNote,
  ScriptCorrection, ScriptSuggestion, never_consulted, nothing_near, corrected, ScriptOutcome,
  script_done, script_unknown, script_value, script_keys, script_removed, script_records,
}

-- `d.get(name, default)`.
unfoldable pub get_default : Str → Node → List (Str × Node) → Node
get_default name default items = elim (dict_get name items) [ none ↦ default | some n ↦ n ]

unfoldable pub one_of : Str → List Str → Bool
one_of s [] = false
one_of s (word ∷ words) = str_eq s word || one_of s words

-- `PATHS`.
abbrev pub paths : List Str
paths =
    chars "record"
    ∷ chars "index"
    ∷ chars "ordered"
    ∷ chars "scan"
    ∷ chars "approximate"
    ∷ chars "graph"
    ∷ chars "join"
    ∷ chars "span"
    ∷ chars "materialised"
    ∷ []

-- A list or a dictionary is no member of a set of strings, and cannot be asked for.
unfoldable pub checked_path : Option Node → Result Str
unfolding one_of
checked_path (some (string s)) = if one_of s paths then ok s else err malformed
checked_path (some (list ns)) = err type_error
checked_path (some (dict ms)) = err type_error
checked_path _ = err malformed

-- The keys of a plan that are not kept as details.
unfoldable pub without : List Str → List (Str × Node) → List (Str × Node)
unfolding one_of
without names [] = []
without names ((name, n) ∷ items) =
    if one_of name names then without names items else (name, n) ∷ without names items

unfoldable pub claim_of : Option Node → List (Str × Node) → Claim
unfolding get_default
claim_of none body = unstated_claim
claim_of (some n) body =
    if is_truthy n
    then exact_claim
    else inexact_claim (get_default (chars "inexact") (string []) body)

unfoldable pub plan_of : List (Str × Node) → Plan
unfolding claim_of get_default without
plan_of body = record {
  access = get_default (chars "access") (string (chars "scan")) body;
  exactness = claim_of (dict_get (chars "exact") body) body;
  details = without (chars "access" ∷ chars "exact" ∷ chars "inexact" ∷ []) body;
}

unfoldable pub holds_word : Str → List Node → Bool
holds_word word [] = false
holds_word word (n ∷ ns) = is_word (some n) word || holds_word word ns

-- `word in text`.
unfoldable pub holds_text : Str → Str → Bool
holds_text word [] = elim (strip word []) [ none ↦ false | some rest ↦ true ]
holds_text word (c ∷ s) = elim (strip word (c ∷ s)) [ none ↦ holds_text word s | some rest ↦ true ]

-- `_plan`: a list or a text may be asked for "exact", and fails afterwards.
unfoldable pub read_plan : Node → Result Plan
unfolding plan_of holds_word holds_text
read_plan (dict ms) = ok (plan_of (members_list ms))
read_plan (list ns) =
    if holds_word (chars "exact") (nodes_list ns) then err type_error else err attribute_error
read_plan (string s) = if holds_text (chars "exact") s then err type_error else err attribute_error
read_plan _ = err type_error

unfoldable pub read_correction : Node → Result ScriptCorrection
read_correction n = bind (subscript (chars "typed") n) λ typed.
    bind (subscript (chars "instead") n) λ instead. ok (record { typed = typed; instead = instead })

unfoldable pub corrections_of : Node → Result ScriptSuggestion
unfolding read_correction
corrections_of n =
    if is_truthy n
    then bind (iterate n) (λ items. bind (each_of read_correction items) λ cs. ok (corrected cs))
    else ok nothing_near

-- `_suggestion`, of the value of the key.
unfoldable pub suggestion_of : Option Node → Result ScriptSuggestion
unfolding corrections_of get_default
suggestion_of none = ok never_consulted
suggestion_of (some n) =
    bind (gettable n)
      λ body. corrections_of (get_default (chars "corrections") (list no_nodes) body)

unfoldable pub read_note : Node → Result ScriptNote
read_note n = bind (subscript (chars "kind") n) λ kind.
    bind (subscript (chars "message") n) λ message. ok (record { kind = kind; message = message })

-- The array of `keys`.
unfoldable pub keys_of_node : Option Node → Result (List Node)
keys_of_node (some (list ns)) = ok (nodes_list ns)
keys_of_node _ = err malformed

module _ (py : Python) where
  -- `int(node)`.
  unfoldable pub to_int : Node → Result ℤ
  to_int (boolean b) = ok (if b then pos 1 else pos 0)
  to_int (number n) = ok n
  to_int (double bits) = py.int_of_float bits
  to_int (string s) = elim (int_of_text py s) [ none ↦ err value_error | some n ↦ ok n ]
  to_int _ = err type_error

  unfoldable pub read_declared : Option Kind → Node → Result Held
  read_declared none n = err malformed
  read_declared (some kind) n = read_value py n kind

  -- The kind is missing before anything of the row is looked at.
  unfoldable pub read_row : Option Kind → Node → Result ScriptRow
  read_row none row = err malformed
  read_row (some kind) row = bind (subscript (chars "id") row) λ identity.
      bind (subscript (chars "value") row)
        λ value. bind (read_value py value kind) λ h. ok (record { identity = identity; value = h })

  -- `_records`.
  unfoldable pub read_records : Reading → List (Str × Node) → Result ScriptOutcome
  unfolding checked_path get_default read_row read_note read_plan suggestion_of
  read_records reading node = bind (checked_path (dict_get (chars "path") node)) λ path.
      bind (iterate (get_default (chars "records") (list no_nodes) node)) λ records.
        bind (each_of (read_row (reading.declared_kind)) records) λ rows.
          bind (iterate (get_default (chars "notes") (list no_nodes) node)) λ noted.
            bind (each_of read_note noted) λ notes.
              bind (read_plan (get_default (chars "plan") (dict no_members) node)) λ plan.
                bind (suggestion_of (dict_get (chars "suggestion") node)) λ suggestion. ok (
                  script_records (record {
                    path = path;
                    plan = plan;
                    rows = rows;
                    notes = notes;
                    only = is_truthy (get_default (chars "only") (boolean false) node);
                    suggestion = suggestion;
                  }))

  unfoldable pub value_outcome_of : Option Kind → Option Node → Result ScriptOutcome
  unfolding read_declared
  value_outcome_of kind none = ok (script_value (held none_value))
  value_outcome_of kind (some n) = bind (read_declared kind n) λ h. ok (script_value h)

  unfoldable pub outcome_of_kind : Option Node → Reading → List (Str × Node) → Result ScriptOutcome
  unfolding value_outcome_of keys_of_node to_int read_records
  outcome_of_kind kind reading node =
      if is_word kind (chars "done")
      then ok script_done
      else if is_word kind (chars "value")
      then value_outcome_of reading.declared_kind (dict_get (chars "value") node)
      else if is_word kind (chars "keys")
      then bind (keys_of_node (dict_get (chars "keys") node)) (λ ns. ok (script_keys ns))
      else if is_word kind (chars "removed")
      then bind (bind (required (chars "count") node) to_int) (λ n. ok (script_removed n))
      else if is_word kind (chars "unknown")
      then ok script_unknown
      else if is_word kind (chars "records")
      then read_records reading node
      else err malformed

  unfoldable pub read_outcome : Reading → Node → Result ScriptOutcome
  unfolding outcome_of_kind
  read_outcome reading node =
      bind (gettable node) λ items. outcome_of_kind (dict_get (chars "kind") items) reading items

  unfoldable pub results_of : Reading → Option Node → Result (List ScriptOutcome)
  unfolding read_outcome
  results_of reading (some (list ns)) = each_of (read_outcome reading) (nodes_list ns)
  results_of reading _ = err malformed

  -- `read_results`, of what `_json` returned.
  unfoldable pub read_results : Reading → Node → Result (List ScriptOutcome)
  unfolding results_of
  read_results reading body =
      bind (gettable body) λ items. results_of reading (dict_get (chars "results") items)
