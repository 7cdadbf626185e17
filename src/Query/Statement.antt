-- ===== src/Query/Statement.antt =====
-- statement.py: the four statements, their methods and their texts.
use tessaridb_sdk_python.Prelude.{
  ℕ, ℤ, Bool, Option, none, some, List, [], ◌∷◌, ◌++◌, if◌then◌else◌,
}
use tessaridb_sdk_python.Result.{Str, Result, ok, err, builder, incomplete, bind}
use tessaridb_sdk_python.Value.{Value}
use tessaridb_sdk_python.Dict.{dict_set, sort_by_name}
use tessaridb_sdk_python.Text.{chars, show, join_with}
use tessaridb_sdk_python.Query.Names.{check_name, check_answerer, count}
use tessaridb_sdk_python.Query.Spans.{check_span}
use tessaridb_sdk_python.Query.Filter.{
  Filter, Binder, bind_value, with_reference, render_filter, assigned, render_object,
  checked_fields,
}

-- `Rendered`: the script and the parameters.
abbrev pub Rendered : Type 0
Rendered = Str × Binder

pub record Select : Type 0 where
  pub table : Str
  pub items : List Str
  pub filter : Option Filter
  pub order : List Str
  pub first : Option ℕ
  pub most : Option ℕ
  pub freshness : Option Str
  pub answerer : Option Str

unfoldable pub select : Str → Result Select
select name = bind (check_name (chars "a table") name) λ checked. ok (record {
  table = checked;
  items = [];
  filter = none;
  order = [];
  first = none;
  most = none;
  freshness = none;
  answerer = none;
})

unfoldable pub field : Str → Select → Result Select
field name s =
    bind (check_name (chars "a field") name)
      λ checked. ok (record s { items = s.items ++ checked ∷ [] })

-- The window of a text field, under the field's own name.
unfoldable pub window : Str → ℕ → ℕ → Str
window name start most =
    chars "string::lines("
    ++ (name
        ++ (chars ", " ++ (show start ++ (chars ", " ++ (show most ++ (chars ") AS " ++ name))))))

unfoldable pub lines : Str → ℤ → ℤ → Select → Result Select
unfolding window
lines name start most s = bind (check_name (chars "a field") name) λ checked.
    bind (count start) λ from.
      bind (count most) λ many. ok (record s { items = s.items ++ window checked from many ∷ [] })

-- `Select.where`.
unfoldable pub narrow : Filter → Select → Result Select
narrow f s = ok (record s { filter = some f })

unfoldable pub direction : Bool → Str
direction descending = if descending then chars " DESC" else chars " ASC"

unfoldable pub order_by : Str → Bool → Select → Result Select
order_by name descending s =
    bind (check_name (chars "a field") name)
      λ checked. ok (record s { order = s.order ++ (checked ++ direction descending) ∷ [] })

unfoldable pub start : ℤ → Select → Result Select
start n s = bind (count n) λ from. ok (record s { first = some from })

unfoldable pub limit : ℤ → Select → Result Select
limit n s = bind (count n) λ many. ok (record s { most = some many })

unfoldable pub staleness : Str → Select → Result Select
staleness span s = bind (check_span span) λ checked. ok (record s { freshness = some checked })

unfoldable pub answered_by : Str → Select → Result Select
answered_by word s = bind (check_answerer word) λ checked. ok (record s { answerer = some checked })

unfoldable pub projection : List Str → Str
projection [] = chars "*"
projection (item ∷ items) = join_with (chars ", ") (item ∷ items)

-- A clause that stands only where it was given.
unfoldable pub clause : Str → Option Str → Str
clause word none = []
clause word (some t) = word ++ t

unfoldable pub shown : Option ℕ → Option Str
shown none = none
shown (some n) = some (show n)

unfoldable pub order_clause : List Str → Str
order_clause [] = []
order_clause (field ∷ fields) = chars " ORDER BY " ++ join_with (chars ", ") (field ∷ fields)

unfoldable pub where_clause : Option Filter → Str × Binder
unfolding with_reference
where_clause none = ([], [])
where_clause (some f) = with_reference (chars " WHERE ") (render_filter f [])

-- What follows the filter.
unfoldable pub tail_clauses : Select → Str
unfolding clause shown order_clause
tail_clauses s =
    order_clause s.order
    ++ (clause (chars " START ") (shown s.first)
        ++ (clause (chars " LIMIT ") (shown s.most)
            ++ (clause (chars " STALENESS ") s.freshness
                ++ clause (chars " ANSWERED BY ") s.answerer)))

unfoldable pub head_clauses : Select → Str
unfolding projection
head_clauses s = chars "SELECT " ++ (projection s.items ++ (chars " FROM " ++ s.table))

unfoldable pub finished : Str → Str → Str × Binder → Rendered
finished before behind (clause, binder) = ((before ++ (clause ++ behind)) ++ chars ";", binder)

-- `Select.render`.
unfoldable pub render_select : Select → Rendered
unfolding finished
render_select s = finished (head_clauses s) (tail_clauses s) (where_clause s.filter)

-- `_Write`.
pub record Write : Type 0 where
  pub table : Str
  pub identity : Option Value
  pub fields : List (Str × Value)

unfoldable pub write : Str → Option Value → Result Write
write name identity =
    bind (check_name (chars "a table") name)
      λ checked. ok (record { table = checked; identity = identity; fields = [] })

-- `create` and `update`.
unfoldable pub create : Str → Option Value → Result Write
unfolding write
create = write

unfoldable pub update : Str → Value → Result Write
unfolding write
update name identity = write name (some identity)

-- `d.update(other)`.
unfoldable pub dict_update : List (Str × Value) → List (Str × Value) → List (Str × Value)
dict_update items [] = items
dict_update items ((name, value) ∷ others) = dict_update (dict_set name value items) others

-- `_Write.set`.
unfoldable pub set_fields : List (Str × Value) → List (Str × Value) → Write → Write
unfolding dict_update
set_fields fields named w = record w { fields = dict_update (dict_update w.fields fields) named }

-- A table and the reference of the record in it.
unfoldable pub subject : Str → Option Value → Binder → Str × Binder
unfolding with_reference
subject table none binder = (table, binder)
subject table (some identity) binder =
    with_reference (table ++ chars ":") (bind_value identity binder)

unfoldable pub created : List (Str × Value) → Str × Binder → Rendered
created fields (what, binder) =
    let (object, binder') = render_object fields binder in
    (chars "CREATE " ++ (what ++ (chars " = " ++ (object ++ chars ";"))), binder')

-- `Create.render`.
unfoldable pub render_create : Write → Result Rendered
unfolding created
render_create w =
    bind (checked_fields w.fields) λ fields. ok (created fields (subject w.table w.identity []))

unfoldable pub updated : List (Str × Value) → Str × Binder → Rendered
updated fields (what, binder) =
    let (assignments, binder') = assigned (chars " = ") (sort_by_name fields) binder in
    (
      chars "UPDATE "
          ++ (what ++ (chars " SET " ++ (join_with (chars ", ") assignments ++ chars ";"))),
      binder',
    )

unfoldable pub with_identity : Write → List (Str × Value) → Option Value → Result Rendered
unfolding updated
with_identity w fields none = err (builder incomplete)
with_identity w fields (some identity) = ok (updated fields (subject w.table (some identity) []))

-- `Update.render`.
unfoldable pub render_update : Write → Result Rendered
unfolding with_identity
render_update w = bind (checked_fields w.fields) λ fields. with_identity w fields w.identity

unfoldable pub deleted : Str × Binder → Rendered
deleted (what, binder) = (chars "DELETE " ++ (what ++ chars ";"), binder)

-- `delete(table, identity).render()`.
unfoldable pub render_delete : Str → Value → Result Rendered
unfolding deleted
render_delete name identity =
    bind (check_name (chars "a table") name)
      λ checked. ok (deleted (subject checked (some identity) []))
