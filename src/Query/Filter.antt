-- ===== src/Query/Filter.antt =====
-- query.py: comparisons and junctions, and how they and an object's fields are written with a
-- reference in the place of each value.
use tessaridb_sdk_python.Prelude.{ℕ, ◌≡◌, true, List, [], ◌∷◌, ◌++◌, length}
use tessaridb_sdk_python.Result.{Str, Result, ok, err, builder, incomplete, bind}
use tessaridb_sdk_python.Value.{Value}
use tessaridb_sdk_python.Dict.{dict_set, sort_by_name}
use tessaridb_sdk_python.Text.{chars, show, join_with}
use tessaridb_sdk_python.Follow.Selection.{is_plain}
use tessaridb_sdk_python.Query.Names.{check_name}

pub data Operator : Type 0 where
  eq ne lt le gt ge : Operator

unfoldable pub operator_text : Operator → Str
operator_text eq = chars "="
operator_text ne = chars "!="
operator_text lt = chars "<"
operator_text le = chars "<="
operator_text gt = chars ">"
operator_text ge = chars ">="

-- The word of a junction.
pub data Word : Type 0 where
  all_of any_of : Word

unfoldable pub word_text : Word → Str
word_text all_of = chars "AND"
word_text any_of = chars "OR"

pub data Filter : Type 0 where
  comparison : Str → Operator → Value → Filter
  junction : Word → Filter → Filter → Filter

-- `a & b` and `a | b`.
unfoldable pub both : Filter → Filter → Filter
both = junction all_of

unfoldable pub either : Filter → Filter → Filter
either = junction any_of

unfoldable pub compare : Str → Operator → Value → Result Filter
compare field operator value =
    bind (check_name (chars "a field") field) λ name. ok (comparison name operator value)

-- The state of a `Binder`: its parameters, in the order in which they were bound.
abbrev pub Binder : Type 0
Binder = List (Str × Value)

-- `f"p{n}"`.
unfoldable pub reference : ℕ → Str
reference n = chars "p" ++ show n

-- `Binder.bind`.
unfoldable pub bind_value : Value → Binder → Str × Binder
unfolding reference
bind_value value binder =
    let name = reference (length binder) in (chars "$" ++ name, dict_set name value binder)

-- A text that a value's reference ends.
unfoldable pub with_reference : Str → Str × Binder → Str × Binder
with_reference before (bound, binder) = (before ++ bound, binder)

-- The two sides of a junction, the left one written first.
unfoldable pub joined : Word → Str → Str × Binder → Str × Binder
joined word left (right, binder) = (
  chars "(" ++ (left ++ (chars " " ++ (word_text word ++ (chars " " ++ (right ++ chars ")"))))),
  binder,
)

-- `Filter._render`.
unfoldable pub render_filter : Filter → Binder → Str × Binder
unfolding with_reference joined
render_filter (comparison field operator value) binder =
    with_reference (field ++ (chars " " ++ (operator_text operator ++ chars " ")))
      (bind_value value binder)
render_filter (junction word left right) binder =
    let (before, after_left) = render_filter left binder in
    joined word before (render_filter right after_left)

-- Each name in turn with what stands between it and its reference.
unfoldable pub assigned : Str → List (Str × Value) → Binder → List Str × Binder
assigned sign [] binder = ([], binder)
assigned sign ((name, value) ∷ fields) binder =
    let (bound, binder') = bind_value value binder in
    let (others, binder'') = assigned sign fields binder' in
    ((name ++ (sign ++ bound)) ∷ others, binder'')

unfoldable pub in_braces : List Str × Binder → Str × Binder
in_braces (written, binder) = (chars "{ " ++ (join_with (chars ", ") written ++ chars " }"), binder)

unfoldable pub render_object : List (Str × Value) → Binder → Str × Binder
unfolding in_braces
render_object fields binder = in_braces (assigned (chars ": ") (sort_by_name fields) binder)

-- The loop of `checked_fields`.
unfoldable pub check_each : List (Str × Value) → Result (List (Str × Value))
check_each [] = ok []
check_each ((name, value) ∷ fields) =
    bind (check_name (chars "a field") name)
      λ checked. bind (check_each fields) λ others. ok ((checked, value) ∷ others)

unfoldable pub checked_fields : List (Str × Value) → Result (List (Str × Value))
unfolding check_each
checked_fields [] = err (builder incomplete)
checked_fields (field ∷ fields) = check_each (field ∷ fields)

-- A filter whose names `compare` let through.
unfoldable pub IsNamed : Filter → Type 0
IsNamed (comparison field operator value) = is_plain field ≡ true
IsNamed (junction word left right) = IsNamed left × IsNamed right
