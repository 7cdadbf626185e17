-- ===== src/Json/Reading.antt =====
-- `read_value` of _json.py.
use tessaridb_sdk_python.Prelude.{
  ℕ, suc, Option, none, some, List, [], ◌∷◌, if◌then◌else◌, length, ◌==◌,
}
use tessaridb_sdk_python.Result.{Str, Result, ok, err, bind, malformed}
use tessaridb_sdk_python.Value.{
  Value, none_value, null_value, bool, integer, float, text, bytes, uuid, geometry, regex,
}
use tessaridb_sdk_python.Dict.{dict_get}
use tessaridb_sdk_python.Text.{chars}
use tessaridb_sdk_python.Events.Quoting.{replace_char}
use tessaridb_sdk_python.Json.Node.{
  Node, null, number, Python, is_word, typed_bool, typed_str, typed_list, typed_dict,
}
use tessaridb_sdk_python.Json.Kinds.{
  Kind, null_kind, bool_kind, integer_kind, float_kind, decimal_kind, text_kind, bytes_kind,
  duration_kind, datetime_kind, uuid_kind, table_kind, record_kind, regex_kind, geometry_kind,
  array_kind, set_kind, object_kind, range_kind, Elements, one_kind, kind_each, Kinds, no_kinds,
  kind_then, Declared, no_declared, declared, Held, held, name_held, array_held, set_held,
  object_held, range_held, HeldItems, held_items, held_fields, HeldBound, held_unbounded,
  held_included, held_excluded,
}
use tessaridb_sdk_python.Json.Numbers.{read_decimal, read_float, from_hex}
use tessaridb_sdk_python.Json.Durations.{read_duration, read_datetime}
use tessaridb_sdk_python.Json.Geometry.{read_shape, each_of}

-- JSON null is null under every kind.
unfoldable pub unless_null : Node → Result Held → Result Held
unless_null null read = ok (held null_value)
unless_null node read = read

unfoldable pub held_as : {A : Type 0} → (A → Value) → Result A → Result Held
held_as value r = bind r λ a. ok (held (value a))

unfoldable pub typed_int : Node → Result Held
typed_int (number n) = ok (held (integer n))
typed_int _ = err malformed

unfoldable pub bounded : Option Node → Option Node → (Node → Result Held) → Result HeldBound
unfolding is_word
bounded word value read =
    if is_word word (chars "unbounded") then ok held_unbounded else elim value [
      | none ↦ err malformed
      | some node ↦
          if is_word word (chars "included")
          then bind (read node) (λ h. ok (held_included h))
          else if is_word word (chars "excluded")
          then bind (read node) (λ h. ok (held_excluded h))
          else err malformed
    ]

-- `_bound`, of what `body.get` returned, where a missing endpoint is None.
unfoldable pub bound_at : Option Node → (Node → Result Held) → Result HeldBound
unfolding bounded
bound_at none read = err malformed
bound_at (some node) read =
    bind (typed_dict node)
      λ body. bounded (dict_get (chars "bound") body) (dict_get (chars "value") body) read

unfoldable pub array_of_nodes :
    (HeldItems → Held) → (List Node → Result (List Held)) → Node → Result Held
array_of_nodes build read node =
    bind (typed_list node) λ items. bind (read items) λ hs. ok (build (held_items hs))

unfoldable pub count_kinds : Kinds → ℕ
count_kinds no_kinds = 0
count_kinds (kind_then kind kinds) = suc (count_kinds kinds)

module _ (py : Python) where
  unfoldable mutual
    unfolding unless_null held_as typed_int bound_at array_of_nodes

    pub read_value : Node → Kind → Result Held
    read_value node null_kind = unless_null node (err malformed)
    read_value node bool_kind = unless_null node (held_as bool (typed_bool node))
    read_value node integer_kind = unless_null node (typed_int node)
    read_value node float_kind = unless_null node (held_as float (read_float py node))
    read_value node decimal_kind =
        unless_null node (held_as (λ v. v) (bind (typed_str node) (read_decimal py)))
    read_value node text_kind = unless_null node (held_as text (typed_str node))
    read_value node bytes_kind = unless_null node (held_as bytes (bind (typed_str node) from_hex))
    read_value node duration_kind =
        unless_null node (held_as (λ v. v) (bind (typed_str node) (read_duration py)))
    read_value node datetime_kind =
        unless_null node (held_as (λ v. v) (bind (typed_str node) (read_datetime py)))
    read_value node uuid_kind =
        unless_null node
          (held_as uuid (bind (typed_str node) (λ s. from_hex (replace_char 45 [] s))))
    read_value node table_kind = unless_null node (bind (typed_str node) (λ s. ok (name_held s)))
    read_value node record_kind = unless_null node (bind (typed_str node) (λ s. ok (name_held s)))
    read_value node regex_kind = unless_null node (held_as regex (typed_str node))
    read_value node geometry_kind =
        unless_null node (held_as geometry (bind (typed_dict node) (λ body. read_shape py node)))
    read_value node (array_kind elements) =
        unless_null node (array_of_nodes array_held (read_elements elements) node)
    read_value node (set_kind elements) =
        unless_null node (array_of_nodes set_held (read_elements elements) node)
    read_value node (object_kind fields) = unless_null node (
        bind (typed_dict node)
          λ body. bind (read_fields fields body) λ hs. ok (object_held (held_fields hs)))
    read_value node (range_kind kind) = unless_null node (
        bind (typed_dict node) λ body.
          bind (bound_at (dict_get (chars "start") body) (λ n. read_value n kind)) λ start.
            bind (bound_at (dict_get (chars "end") body) (λ n. read_value n kind))
              λ end. ok (range_held start end))

    -- `_items`, of the items of the array.
    pub read_elements : Elements → List Node → Result (List Held)
    read_elements (one_kind kind) items = each_of (λ n. read_value n kind) items
    read_elements (kind_each kinds) items =
        if count_kinds kinds == length items then read_kinds kinds items else err malformed

    -- One kind for each element, of which there are as many.
    pub read_kinds : Kinds → List Node → Result (List Held)
    read_kinds no_kinds [] = ok []
    read_kinds (kind_then kind kinds) (n ∷ ns) =
        bind (read_value n kind) λ h. bind (read_kinds kinds ns) λ hs. ok (h ∷ hs)
    read_kinds _ _ = err malformed

    -- `_fields`.
    pub read_fields : Declared → List (Str × Node) → Result (List (Str × Held))
    read_fields no_declared body = ok []
    read_fields (declared name kind more) body =
        bind
          (elim (dict_get name body) [ none ↦ ok (held none_value) | some n ↦ read_value n kind ])
          λ h. bind (read_fields more body) λ hs. ok ((name, h) ∷ hs)
