-- ===== src/Json/Fits.antt =====
-- When a value that was read fits a kind.
use tessaridb_sdk_python.Prelude.{ℕ, ◌<◌, Bool, ℤ, pos, All}
use tessaridb_sdk_python.Result.{Bytes, Str}
use tessaridb_sdk_python.Value.{
  Shape, none_value, null_value, bool, integer, float, decimal, text, bytes, uuid, geometry, regex,
  duration, datetime,
}
use tessaridb_sdk_python.Json.Kinds.{
  Kind, bool_kind, integer_kind, float_kind, decimal_kind, text_kind, bytes_kind, duration_kind,
  datetime_kind, uuid_kind, table_kind, record_kind, regex_kind, geometry_kind, array_kind,
  set_kind, object_kind, range_kind, Elements, one_kind, kind_each, Kinds, no_kinds, kind_then,
  Declared, no_declared, declared, Held, held, name_held, array_held, set_held, object_held,
  range_held, HeldItems, no_held, held_then, HeldFields, no_held_fields, held_field, HeldBound,
  held_unbounded, held_included, held_excluded,
}

abbrev pub IsBytes : Bytes → Type 0
IsBytes = All (λ b. b < 256)

-- A null fits every kind; a declared field that the body leaves out is none.
mutual
  pub data Fits : Kind → Held → Type 0 where
    a_null : {k : Kind} → Fits k (held null_value)
    a_bool : {b : Bool} → Fits bool_kind (held (bool b))
    an_integer : {n : ℤ} → Fits integer_kind (held (integer n))
    a_float : {bits : ℕ} → Fits float_kind (held (float bits))
    a_decimal : {mantissa : ℤ} {scale : ℕ} → Fits decimal_kind (held (decimal mantissa (pos scale)))
    a_text : {t : Str} → Fits text_kind (held (text t))
    some_bytes : {bs : Bytes} → IsBytes bs → Fits bytes_kind (held (bytes bs))
    a_duration :
        {seconds : ℤ} {nanos : ℕ}
        → nanos < 1_000_000_000
        → Fits duration_kind (held (duration seconds (pos nanos)))
    a_datetime : {seconds nanos : ℤ} → Fits datetime_kind (held (datetime seconds nanos))
    a_uuid : {bs : Bytes} → IsBytes bs → Fits uuid_kind (held (uuid bs))
    a_table : {name : Str} → Fits table_kind (name_held name)
    a_record : {name : Str} → Fits record_kind (name_held name)
    a_regex : {t : Str} → Fits regex_kind (held (regex t))
    a_geometry : {s : Shape} → Fits geometry_kind (held (geometry s))
    an_array :
        {of : Elements} {hs : HeldItems} → FitElements of hs → Fits (array_kind of) (array_held hs)
    a_set : {of : Elements} {hs : HeldItems} → FitElements of hs → Fits (set_kind of) (set_held hs)
    an_object :
        {fields : Declared} {hs : HeldFields}
        → FitFields fields hs
        → Fits (object_kind fields) (object_held hs)
    a_range :
        {k : Kind} {start end : HeldBound}
        → FitBound k start
        → FitBound k end
        → Fits (range_kind k) (range_held start end)

  pub data FitElements : Elements → HeldItems → Type 0 where
    no_more : {k : Kind} → FitElements (one_kind k) no_held
    one_more :
        {k : Kind} {h : Held} {hs : HeldItems}
        → Fits k h
        → FitElements (one_kind k) hs
        → FitElements (one_kind k) (held_then h hs)
    none_left : FitElements (kind_each no_kinds) no_held
    each_more :
        {k : Kind} {ks : Kinds} {h : Held} {hs : HeldItems}
        → Fits k h
        → FitElements (kind_each ks) hs
        → FitElements (kind_each (kind_then k ks)) (held_then h hs)

  pub data FitFields : Declared → HeldFields → Type 0 where
    no_field : FitFields no_declared no_held_fields
    set_field :
        {name : Str} {k : Kind} {more : Declared} {h : Held} {hs : HeldFields}
        → Fits k h
        → FitFields more hs
        → FitFields (declared name k more) (held_field name h hs)
    omitted_field :
        {name : Str} {k : Kind} {more : Declared} {hs : HeldFields}
        → FitFields more hs
        → FitFields (declared name k more) (held_field name (held none_value) hs)

  pub data FitBound : Kind → HeldBound → Type 0 where
    open_end : {k : Kind} → FitBound k held_unbounded
    inclusive : {k : Kind} {h : Held} → Fits k h → FitBound k (held_included h)
    exclusive : {k : Kind} {h : Held} → Fits k h → FitBound k (held_excluded h)
