-- ===== src/Json/Sound.antt =====
-- What is read at a kind fits the kind.
use tessaridb_sdk_python.Prelude.{
  ◌≡◌, Bool-cases, inl, inr, Option, none, some, Option-cases, List, [], ◌∷◌, length, ◌==◌,
}
use tessaridb_sdk_python.Result.{Str, Result, ok, bind, OnOk, returned, raised, OnOk-apply}
use tessaridb_sdk_python.Dict.{dict_get}
use tessaridb_sdk_python.Text.{chars}
use tessaridb_sdk_python.Value.{Value, bool, float, text, bytes, uuid, geometry, regex}
use tessaridb_sdk_python.Events.Quoting.{replace_char}
use tessaridb_sdk_python.Json.Node.{
  is_word, Node, Python, typed_bool, typed_str, typed_list, typed_dict,
}
use tessaridb_sdk_python.Json.Kinds.{
  Kind, null_kind, bool_kind, integer_kind, float_kind, decimal_kind, text_kind, bytes_kind,
  duration_kind, datetime_kind, uuid_kind, table_kind, record_kind, regex_kind, geometry_kind,
  array_kind, set_kind, object_kind, range_kind, Elements, one_kind, kind_each, Kinds, no_kinds,
  kind_then, Declared, no_declared, declared, Held, held, name_held, array_held, set_held,
  HeldItems, held_items, held_fields,
}
use tessaridb_sdk_python.Json.Numbers.{read_decimal, read_float, from_hex}
use tessaridb_sdk_python.Json.Durations.{read_duration, read_datetime}
use tessaridb_sdk_python.Json.Geometry.{read_shape, each_of}
use tessaridb_sdk_python.Json.Reading.{
  unless_null, held_as, bounded, bound_at, array_of_nodes, count_kinds, read_value, read_elements,
  read_kinds, read_fields,
}
use tessaridb_sdk_python.Json.Fits.{
  Fits, a_bool, a_float, a_text, some_bytes, a_uuid, a_table, a_record, a_regex, a_geometry,
  an_array, a_set, an_object, a_range, FitElements, no_more, one_more, none_left, each_more,
  FitFields, no_field, set_field, omitted_field, FitBound, open_end, inclusive, exclusive,
}
use tessaridb_sdk_python.Json.Leaves.{
  unless_null-OnOk, Any, typed_int-OnOk, from_hex-OnOk, OnOk-then, map-OnOk, Leaf,
  read_decimal-OnOk, read_duration-OnOk, read_datetime-OnOk,
}

module _ (py : Python) where
  module _ (k : Kind) (ih : (node : Node) → OnOk (Fits k) (read_value py node k)) where
    each_of-OnOk :
        (items : List Node)
        → OnOk
            (λ hs. FitElements (one_kind k) (held_items hs))
            (each_of (λ n. read_value py n k) items)
    unfolding each_of held_items
    each_of-OnOk [] = returned no_more
    each_of-OnOk (n ∷ ns) = OnOk-then (read_value py n k) (ih n) λ h f.
        OnOk-then (each_of (λ n. read_value py n k) ns) (each_of-OnOk ns)
          λ hs fs. returned (one_more f fs)

    bounded-OnOk :
        (word value : Option Node) → OnOk (FitBound k) (bounded word value (λ n. read_value py n k))
    unfolding bounded
    bounded-OnOk word value = elim (Bool-cases (is_word word (chars "unbounded"))) [
      | inl e ↦ rw e (returned open_end)
      | inr e ↦ elim (Option-cases value) [
        | inl missing ↦ rw (e, missing) raised
        | inr (node, found) ↦ elim (Bool-cases (is_word word (chars "included"))) [
          | inl i ↦
              rw (e, found, i)
                (OnOk-then (read_value py node k) (ih node) (λ h f. returned (inclusive f)))
          | inr i ↦ elim (Bool-cases (is_word word (chars "excluded"))) [
            | inl x ↦
                rw (e, found, i, x)
                  (OnOk-then (read_value py node k) (ih node) (λ h f. returned (exclusive f)))
            | inr x ↦ rw (e, found, i, x) raised
          ]
        ]
      ]
    ]

    bound_at-OnOk : (end : Option Node) → OnOk (FitBound k) (bound_at end (λ n. read_value py n k))
    unfolding bound_at
    bound_at-OnOk none = raised
    bound_at-OnOk (some node) =
        OnOk-then (typed_dict node) (Any (typed_dict node))
          λ body u. bounded-OnOk (dict_get (chars "bound") body) (dict_get (chars "value") body)

  array_of_nodes-OnOk :
      (k : Kind) (of : Elements) (build : HeldItems → Held) (node : Node)
      → ((hs : HeldItems) → FitElements of hs → Fits k (build hs))
      → ((items : List Node)
          → OnOk (λ hs. FitElements of (held_items hs)) (read_elements py of items))
      → OnOk (Fits k) (unless_null node (array_of_nodes build (read_elements py of) node))
  unfolding array_of_nodes
  array_of_nodes-OnOk k of build node fits ih = unless_null-OnOk k node _ (
      OnOk-then (typed_list node) (Any (typed_list node)) λ items u.
        OnOk-then (read_elements py of items) (ih items) λ hs f. returned (fits (held_items hs) f))

  -- A leaf that is spelled as a text.
  spelled-OnOk :
      {A : Type 0} {P : A → Type 0} (k : Kind) (node : Node) (read : Str → Result A)
      (value : A → Value)
      → ((s : Str) → OnOk P (read s))
      → ((a : A) → P a → Leaf k (value a))
      → OnOk (Fits k) (unless_null node (held_as value (bind (typed_str node) read)))
  unfolding held_as
  spelled-OnOk k node read value reads fits = unless_null-OnOk k node _ (
      OnOk-then (bind (typed_str node) read)
        (OnOk-then (typed_str node) (Any (typed_str node)) (λ s u. reads s))
        (λ a p. returned (fits a p)))

  plain-OnOk :
      {A : Type 0} (k : Kind) (node : Node) (r : Result A) (value : A → Value)
      → ((a : A) → Leaf k (value a))
      → OnOk (Fits k) (unless_null node (held_as value r))
  unfolding held_as
  plain-OnOk k node r value fits = unless_null-OnOk k node _ (map-OnOk (λ a. held (value a)) r fits)

  name-OnOk :
      (k : Kind) (node : Node)
      → ((s : Str) → Fits k (name_held s))
      → OnOk (Fits k) (unless_null node (bind (typed_str node) (λ s. ok (name_held s))))
  name-OnOk k node fits = unless_null-OnOk k node _ (map-OnOk name_held (typed_str node) fits)

  mutual
    unfolding read_value read_elements read_kinds read_fields held_items held_fields

    read_value-OnOk : (k : Kind) (node : Node) → OnOk (Fits k) (read_value py node k)
    read_value-OnOk null_kind node = unless_null-OnOk null_kind node _ raised
    read_value-OnOk bool_kind node = plain-OnOk bool_kind node (typed_bool node) bool (λ b. a_bool)
    read_value-OnOk integer_kind node = unless_null-OnOk integer_kind node _ (typed_int-OnOk node)
    read_value-OnOk float_kind node =
        plain-OnOk float_kind node (read_float py node) float (λ b. a_float)
    read_value-OnOk decimal_kind node =
        spelled-OnOk decimal_kind node (read_decimal py) (λ v. v) (read_decimal-OnOk py) (λ v f. f)
    read_value-OnOk text_kind node = plain-OnOk text_kind node (typed_str node) text (λ t. a_text)
    read_value-OnOk bytes_kind node =
        spelled-OnOk bytes_kind node from_hex bytes from_hex-OnOk (λ bs f. some_bytes f)
    read_value-OnOk duration_kind node =
        spelled-OnOk duration_kind node (read_duration py) (λ v. v) (read_duration-OnOk py)
          (λ v f. f)
    read_value-OnOk datetime_kind node =
        spelled-OnOk datetime_kind node (read_datetime py) (λ v. v) (read_datetime-OnOk py)
          (λ v f. f)
    read_value-OnOk uuid_kind node =
        spelled-OnOk uuid_kind node (λ s. from_hex (replace_char 45 [] s)) uuid
          (λ s. from_hex-OnOk (replace_char 45 [] s)) (λ bs f. a_uuid f)
    read_value-OnOk table_kind node = name-OnOk table_kind node (λ s. a_table)
    read_value-OnOk record_kind node = name-OnOk record_kind node (λ s. a_record)
    read_value-OnOk regex_kind node =
        plain-OnOk regex_kind node (typed_str node) regex (λ t. a_regex)
    read_value-OnOk geometry_kind node =
        plain-OnOk geometry_kind node (bind (typed_dict node) (λ body. read_shape py node)) geometry
          (λ s. a_geometry)
    read_value-OnOk (array_kind of) node =
        array_of_nodes-OnOk (array_kind of) of array_held node (λ hs f. an_array f)
          (read_elements-OnOk of)
    read_value-OnOk (set_kind of) node =
        array_of_nodes-OnOk (set_kind of) of set_held node (λ hs f. a_set f) (read_elements-OnOk of)
    read_value-OnOk (object_kind fields) node = unless_null-OnOk (object_kind fields) node _ (
        OnOk-then (typed_dict node) (Any (typed_dict node)) λ body u.
          OnOk-then (read_fields py fields body) (read_fields-OnOk fields body)
            λ hs f. returned (an_object f))
    read_value-OnOk (range_kind k) node = unless_null-OnOk (range_kind k) node _ (
        OnOk-then (typed_dict node) (Any (typed_dict node)) λ body u.
          OnOk-then (bound_at (dict_get (chars "start") body) (λ n. read_value py n k))
            (bound_at-OnOk k (read_value-OnOk k) (dict_get (chars "start") body))
            λ start f.
              OnOk-then (bound_at (dict_get (chars "end") body) (λ n. read_value py n k))
                (bound_at-OnOk k (read_value-OnOk k) (dict_get (chars "end") body))
                λ end g. returned (a_range f g))

    read_elements-OnOk :
        (of : Elements) (items : List Node)
        → OnOk (λ hs. FitElements of (held_items hs)) (read_elements py of items)
    read_elements-OnOk (one_kind k) items = each_of-OnOk k (read_value-OnOk k) items
    read_elements-OnOk (kind_each ks) items =
        let each = read_kinds-OnOk ks items in
        elim (Bool-cases (count_kinds ks == length items)) [
          | inl e ↦ rw e each
          | inr e ↦ rw e raised
        ]

    read_kinds-OnOk :
        (ks : Kinds) (items : List Node)
        → OnOk (λ hs. FitElements (kind_each ks) (held_items hs)) (read_kinds py ks items)
    read_kinds-OnOk no_kinds [] = returned none_left
    read_kinds-OnOk no_kinds (n ∷ ns) = raised
    read_kinds-OnOk (kind_then k ks) [] = raised
    read_kinds-OnOk (kind_then k ks) (n ∷ ns) =
        OnOk-then (read_value py n k) (read_value-OnOk k n) λ h f.
          OnOk-then (read_kinds py ks ns) (read_kinds-OnOk ks ns) λ hs fs. returned (each_more f fs)

    read_fields-OnOk :
        (fields : Declared) (body : List (Str × Node))
        → OnOk (λ hs. FitFields fields (held_fields hs)) (read_fields py fields body)
    read_fields-OnOk no_declared body = returned no_field
    read_fields-OnOk (declared name k more) body =
        let later = read_fields-OnOk more body in
        let here = read_value-OnOk k in
        elim (Option-cases (dict_get name body)) [
          | inl missing ↦
              rw missing
                (OnOk-then (read_fields py more body) later (λ hs f. returned (omitted_field f)))
          | inr (node, found) ↦ rw found (
              OnOk-then (read_value py node k) (here node) λ h f.
                OnOk-then (read_fields py more body) later λ hs fs. returned (set_field f fs))
        ]

-- A value that is read at a kind fits it, at any depth, or is the null that every kind admits: a
-- duration has less than a second of nanoseconds, bytes and uuids hold bytes, an array has elements of
-- the one kind or of as many kinds as are declared, and an object has the declared fields in their
-- order, each of which fits its kind or is none.
pub read_value-Fits :
    (py : Python) (node : Node) (k : Kind) (h : Held) → read_value py node k ≡ ok h → Fits k h
read_value-Fits py node k h e = OnOk-apply (read_value-OnOk py k node) e
