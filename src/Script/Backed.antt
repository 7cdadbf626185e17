-- ===== src/Script/Backed.antt =====
-- What a records outcome says of its reading, the answer said.
use tessaridb_sdk_python.Prelude.{
  ◌≡◌, refl, Bool, true, false, Bool-cases, inl, inr, Option, none, some, List, [], if◌then◌else◌,
}
use tessaridb_sdk_python.Result.{
  Str, Result, ok, bind, bind-eq-ok, OnOk, returned, raised, OnOk-apply, OnOk-if,
}
use tessaridb_sdk_python.Dict.{dict_get}
use tessaridb_sdk_python.Text.{chars}
use tessaridb_sdk_python.Json.Node.{
  Node, null, boolean, number, double, string, list, dict, Members, no_members, member, no_nodes,
  nodes_list, members_list, Python, is_word, gettable, is_truthy, iterate,
}
use tessaridb_sdk_python.Json.Kinds.{Kind}
use tessaridb_sdk_python.Json.Geometry.{each_of, required}
use tessaridb_sdk_python.Json.Leaves.{OnOk-then, Any, map-OnOk}
use tessaridb_sdk_python.Script.Outcome.{
  Reading, Claim, exact_claim, unstated_claim, inexact_claim, Plan, ScriptRecords, ScriptOutcome,
  script_value, script_keys, script_removed, script_records,
}
use tessaridb_sdk_python.Script.Suggested.{is_set, Suggests, suggestion_of-Suggests}
use tessaridb_sdk_python.Script.Reading.{
  get_default, one_of, paths, checked_path, claim_of, plan_of, holds_word, holds_text, read_plan,
  suggestion_of, read_note, keys_of_node, to_int, read_declared, read_row, read_records,
  value_outcome_of, outcome_of_kind, read_outcome,
}

-- The items of the plan that the answer has, none where it has no plan.
abbrev pub PlanItems : Option Node → List (Str × Node) → Type 0
PlanItems none plan = plan ≡ []
PlanItems (some n) plan = (ms : Members) × (n ≡ dict ms) × (plan ≡ members_list ms)

-- What a plan says of its exactness, by its value of "exact".
abbrev pub Says : Option Node → Claim → Type 0
Says said exact_claim = (n : Node) × (said ≡ some n) × (is_truthy n ≡ true)
Says said unstated_claim = said ≡ none
Says said (inexact_claim reason) = (n : Node) × (said ≡ some n) × (is_truthy n ≡ false)

abbrev IsBacked : List (Str × Node) → ScriptRecords → Type 0
IsBacked items r =
    ((dict_get (chars "path") items ≡ some (string r.path)) × (one_of r.path paths ≡ true))
    × ((plan : List (Str × Node)) × PlanItems (dict_get (chars "plan") items) plan
        × Says (dict_get (chars "exact") plan) r.plan.exactness)
    × (r.only ≡ is_set (dict_get (chars "only") items))
    × Suggests (dict_get (chars "suggestion") items) r.suggestion

abbrev Backs : List (Str × Node) → ScriptOutcome → Type 0
Backs items (script_records r) = IsBacked items r
Backs items _ = Unit

abbrev Known : Option Node → Str → Type 0
Known n path = (n ≡ some (string path)) × (one_of path paths ≡ true)

checked_path-Known : (n : Option Node) → OnOk (Known n) (checked_path n)
unfolding checked_path
checked_path-Known none = raised
checked_path-Known (some (string s)) =
    OnOk-if (one_of s paths) (λ e. returned (refl, e)) (λ e. raised)
checked_path-Known (some null) = raised
checked_path-Known (some (boolean _)) = raised
checked_path-Known (some (number _)) = raised
checked_path-Known (some (double _)) = raised
checked_path-Known (some (list _)) = raised
checked_path-Known (some (dict _)) = raised

claim_of-Says : (said : Option Node) (body : List (Str × Node)) → Says said (claim_of said body)
unfolding claim_of
claim_of-Says none body = refl
claim_of-Says (some n) body = elim (Bool-cases (is_truthy n)) [
  | inl e ↦ rw e (n, refl, e)
  | inr e ↦ rw e (n, refl, e)
]

abbrev Planned : Node → Plan → Type 0
Planned n plan =
    (ms : Members) × (n ≡ dict ms)
    × Says (dict_get (chars "exact") (members_list ms)) plan.exactness

read_plan-Planned : (n : Node) → OnOk (Planned n) (read_plan n)
unfolding read_plan plan_of
read_plan-Planned (dict ms) = returned (ms, refl, claim_of-Says _ (members_list ms))
read_plan-Planned (list ns) =
    OnOk-if (holds_word (chars "exact") (nodes_list ns)) (λ e. raised) (λ e. raised)
read_plan-Planned (string s) = OnOk-if (holds_text (chars "exact") s) (λ e. raised) (λ e. raised)
read_plan-Planned null = raised
read_plan-Planned (boolean _) = raised
read_plan-Planned (number _) = raised
read_plan-Planned (double _) = raised

-- A plan that the answer leaves out is read as an empty one.
Planned-PlanItems :
    (n : Option Node) (plan : Plan)
    → Planned (elim n [ none ↦ dict no_members | some m ↦ m ]) plan
    → (items : List (Str × Node)) × PlanItems n items
      × Says (dict_get (chars "exact") items) plan.exactness
unfolding members_list
Planned-PlanItems none plan (no_members, shape, says) = ([], refl, says)
Planned-PlanItems none plan (member name m ms, shape, says) = cc
Planned-PlanItems (some m) plan (ms, shape, says) = (members_list ms, (ms, shape, refl), says)

default-is_set :
    (n : Option Node) → is_truthy (elim n [ none ↦ boolean false | some m ↦ m ]) ≡ is_set n
unfolding is_truthy
default-is_set none = refl
default-is_set (some n) = refl

module _ (py : Python) (reading : Reading) (items : List (Str × Node)) where
  read_records-Backs : OnOk (Backs items) (read_records py reading items)
  unfolding read_records get_default
  read_records-Backs =
      let word = dict_get (chars "path") items in
      let rows = get_default (chars "records") (list no_nodes) items in
      let noted = get_default (chars "notes") (list no_nodes) items in
      let planned = get_default (chars "plan") (dict no_members) items in
      let suggested = dict_get (chars "suggestion") items in
      OnOk-then (checked_path word) (checked_path-Known word) λ path known.
        OnOk-then (iterate rows) (Any (iterate rows)) λ records u.
          OnOk-then (each_of (read_row py (reading.declared_kind)) records) (Any _) λ rs u.
            OnOk-then (iterate noted) (Any (iterate noted)) λ ns u.
              OnOk-then (each_of read_note ns) (Any (each_of read_note ns)) λ notes u.
                OnOk-then (read_plan planned) (read_plan-Planned planned) λ plan said.
                  OnOk-then (suggestion_of suggested) (suggestion_of-Suggests suggested)
                    λ suggestion there. returned (
                      known,
                      Planned-PlanItems (dict_get (chars "plan") items) plan said,
                      default-is_set (dict_get (chars "only") items),
                      there,
                    )

  value_outcome-Backs :
      (kind : Option Kind) (n : Option Node) → OnOk (Backs items) (value_outcome_of py kind n)
  unfolding value_outcome_of
  value_outcome-Backs kind none = returned tt
  value_outcome-Backs kind (some n) = map-OnOk script_value (read_declared py kind n) (λ h. tt)

  choose-Backs :
      (b : Bool) (x y : Result ScriptOutcome)
      → OnOk (Backs items) x
      → OnOk (Backs items) y
      → OnOk (Backs items) (if b then x else y)
  choose-Backs true x y h k = h
  choose-Backs false x y h k = k

  outcome_of_kind-Backs :
      (kind : Option Node) → OnOk (Backs items) (outcome_of_kind py kind reading items)
  unfolding outcome_of_kind
  outcome_of_kind-Backs kind = choose-Backs (is_word kind (chars "done")) _ _ (returned tt) (
      choose-Backs (is_word kind (chars "value")) _ _
        (value_outcome-Backs reading.declared_kind (dict_get (chars "value") items))
        (choose-Backs (is_word kind (chars "keys")) _ _
          (map-OnOk script_keys (keys_of_node (dict_get (chars "keys") items)) (λ ns. tt))
          (choose-Backs (is_word kind (chars "removed")) _ _
            (map-OnOk script_removed (bind (required (chars "count") items) (to_int py)) (λ n. tt))
            (choose-Backs (is_word kind (chars "unknown")) _ _ (returned tt)
              (choose-Backs (is_word kind (chars "records")) _ _ read_records-Backs raised)))))

-- A records outcome that was read says what the answer says. Its path is the answer's, and one of
-- the nine. Its plan is exact where the answer's plan has a value of "exact" that is true, inexact
-- where it is false, and unstated where there is none or no plan. `only` is whether the answer's is
-- there and true. Its suggestion was never consulted where the answer has none, has nothing near
-- where the suggestion's corrections are missing or empty, and is corrected otherwise, by each of the
-- listed corrections in turn.
pub read_outcome-IsBacked :
    (py : Python) (reading : Reading) (node : Node) (r : ScriptRecords)
    → read_outcome py reading node ≡ ok (script_records r)
    → (items : List (Str × Node)) × (gettable node ≡ ok items)
      × ((dict_get (chars "path") items ≡ some (string r.path)) × (one_of r.path paths ≡ true))
      × ((plan : List (Str × Node)) × PlanItems (dict_get (chars "plan") items) plan
          × Says (dict_get (chars "exact") plan) r.plan.exactness)
      × (r.only ≡ is_set (dict_get (chars "only") items))
      × Suggests (dict_get (chars "suggestion") items) r.suggestion
unfolding read_outcome
read_outcome-IsBacked py reading node r e =
    let (items, got, read) = bind-eq-ok (gettable node) _ e in
    let (known, planned, only, suggests) =
      OnOk-apply (outcome_of_kind-Backs py reading items (dict_get (chars "kind") items)) read in
    (items, got, known, planned, only, suggests)
