-- ===== src/Json/Kinds.antt =====
-- kind.py, and what a value read at a kind is: a value, or the name that a table or a record has.
use tessaridb_sdk_python.Prelude.{List, [], ◌∷◌}
use tessaridb_sdk_python.Result.{Str}
use tessaridb_sdk_python.Value.{Value}

-- `Elements` is the `of` of an array or a set: one kind for every element, or one for each.
mutual
  pub data Kind : Type 0 where
    null_kind bool_kind integer_kind float_kind decimal_kind text_kind bytes_kind : Kind
    duration_kind datetime_kind uuid_kind table_kind record_kind regex_kind geometry_kind : Kind
    array_kind set_kind : Elements → Kind
    object_kind : Declared → Kind
    range_kind : Kind → Kind

  pub data Elements : Type 0 where
    one_kind : Kind → Elements
    kind_each : Kinds → Elements

  pub data Kinds : Type 0 where
    no_kinds : Kinds
    kind_then : Kind → Kinds → Kinds

  pub data Declared : Type 0 where
    no_declared : Declared
    declared : Str → Kind → Declared → Declared

-- What `read_value` returns. A container may hold the name of a table or a record, a plain string,
-- where the values of value.py hold values.
mutual
  pub data Held : Type 0 where
    held : Value → Held
    name_held : Str → Held
    array_held set_held : HeldItems → Held
    object_held : HeldFields → Held
    range_held : HeldBound → HeldBound → Held

  pub data HeldItems : Type 0 where
    no_held : HeldItems
    held_then : Held → HeldItems → HeldItems

  pub data HeldFields : Type 0 where
    no_held_fields : HeldFields
    held_field : Str → Held → HeldFields → HeldFields

  pub data HeldBound : Type 0 where
    held_unbounded : HeldBound
    held_included held_excluded : Held → HeldBound

unfoldable pub held_items : List Held → HeldItems
held_items [] = no_held
held_items (h ∷ hs) = held_then h (held_items hs)

unfoldable pub held_fields : List (Str × Held) → HeldFields
held_fields [] = no_held_fields
held_fields ((name, h) ∷ fields) = held_field name h (held_fields fields)
