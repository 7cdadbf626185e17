-- ===== src/Value.antt =====
-- value.py: the seventeen value types. A float is its IEEE-754 bits, a string its code points; an
-- object's fields stand in the order of its dictionary.
use tessaridb_sdk_python.Prelude.{ℕ, ◌^◌, ◌<◌, Bool, List, [], ◌∷◌, All, ℤ}
use tessaridb_sdk_python.Result.{Bytes, Str}
use tessaridb_sdk_python.Dict.{Distinct, sort_by_name}

pub data RecordId : Type 0 where
  integer_id : ℤ → RecordId
  text_id : Str → RecordId
  uuid_id : Bytes → RecordId
  bytes_id : Bytes → RecordId

pub record Position : Type 0 where
  pub lon : ℕ
  pub lat : ℕ

abbrev pub Ring : Type 0
Ring = List Position

pub record Polygon : Type 0 where
  pub exterior : Ring
  pub interiors : List Ring

-- `Shapes` is the sequence inside a collection.
mutual
  pub data Shape : Type 0 where
    point : Position → Shape
    line : List Position → Shape
    polygon_shape : Polygon → Shape
    multi_point : List Position → Shape
    multi_line : List Ring → Shape
    multi_polygon : List Polygon → Shape
    collection : Shapes → Shape

  pub data Shapes : Type 0 where
    no_shapes : Shapes
    shape_then : Shape → Shapes → Shapes

-- `Items` is the sequence inside an array or a set, `Fields` the dictionary of an object.
mutual
  pub data Value : Type 0 where
    none_value null_value : Value
    bool : Bool → Value
    integer : ℤ → Value
    float : ℕ → Value
    decimal : ℤ → ℤ → Value
    text : Str → Value
    bytes : Bytes → Value
    duration : ℤ → ℤ → Value
    datetime : ℤ → ℤ → Value
    uuid : Bytes → Value
    table : ℤ → Value
    record_value : ℤ → RecordId → Value
    array : Items → Value
    object : Fields → Value
    set : Items → Value
    range : Bound → Bound → Value
    geometry : Shape → Value
    regex : Str → Value

  pub data Items : Type 0 where
    no_items : Items
    item : Value → Items → Items

  pub data Fields : Type 0 where
    no_fields : Fields
    field : Str → Value → Fields → Fields

  pub data Bound : Type 0 where
    unbounded : Bound
    included excluded : Value → Bound

unfoldable pub items_of : List Value → Items
items_of [] = no_items
items_of (v ∷ vs) = item v (items_of vs)

unfoldable pub items_list : Items → List Value
items_list no_items = []
items_list (item v vs) = v ∷ items_list vs

unfoldable pub fields_of : List (Str × Value) → Fields
fields_of [] = no_fields
fields_of ((name, v) ∷ fields) = field name v (fields_of fields)

unfoldable pub fields_list : Fields → List (Str × Value)
fields_list no_fields = []
fields_list (field name v fields) = (name, v) ∷ fields_list fields

unfoldable pub shapes_of : List Shape → Shapes
shapes_of [] = no_shapes
shapes_of (s ∷ more) = shape_then s (shapes_of more)

-- What Python's types give for nothing: a float is 64 bits, and a dictionary has a key once.
abbrev pub IsDouble : ℕ → Type 0
IsDouble bits = bits < 2 ^ 64

abbrev pub IsPosition : Position → Type 0
IsPosition p = IsDouble p.lon × IsDouble p.lat

abbrev pub IsRing : Ring → Type 0
IsRing = All IsPosition

abbrev pub IsPolygon : Polygon → Type 0
IsPolygon p = IsRing p.exterior × All IsRing p.interiors

unfoldable mutual
  pub IsShape : Shape → Type 0
  IsShape (point p) = IsPosition p
  IsShape (line ps) = IsRing ps
  IsShape (polygon_shape p) = IsPolygon p
  IsShape (multi_point ps) = IsRing ps
  IsShape (multi_line rings) = All IsRing rings
  IsShape (multi_polygon ps) = All IsPolygon ps
  IsShape (collection shapes) = AreShapes shapes

  pub AreShapes : Shapes → Type 0
  AreShapes no_shapes = Unit
  AreShapes (shape_then s more) = IsShape s × AreShapes more

unfoldable mutual
  pub IsPython : Value → Type 0
  IsPython (float bits) = IsDouble bits
  IsPython (array items) = ArePython items
  IsPython (object fields) = Distinct (fields_list fields) × FieldsPython fields
  IsPython (set items) = ArePython items
  IsPython (range start end) = BoundPython start × BoundPython end
  IsPython (geometry s) = IsShape s
  IsPython _ = Unit

  pub ArePython : Items → Type 0
  ArePython no_items = Unit
  ArePython (item v items) = IsPython v × ArePython items

  pub FieldsPython : Fields → Type 0
  FieldsPython no_fields = Unit
  FieldsPython (field name v fields) = IsPython v × FieldsPython fields

  pub BoundPython : Bound → Type 0
  BoundPython unbounded = Unit
  BoundPython (included v) = IsPython v
  BoundPython (excluded v) = IsPython v

-- A value with the fields of every object inside it in name order.
unfoldable mutual
  pub canon : Value → Value
  canon (array items) = array (canon_items items)
  canon (object fields) = object (fields_of (sort_by_name (canon_fields fields)))
  canon (set items) = set (canon_items items)
  canon (range start end) = range (canon_bound start) (canon_bound end)
  canon v = v

  pub canon_items : Items → Items
  canon_items no_items = no_items
  canon_items (item v items) = item (canon v) (canon_items items)

  pub canon_fields : Fields → List (Str × Value)
  canon_fields no_fields = []
  canon_fields (field name v fields) = (name, canon v) ∷ canon_fields fields

  pub canon_bound : Bound → Bound
  canon_bound unbounded = unbounded
  canon_bound (included v) = included (canon v)
  canon_bound (excluded v) = excluded (canon v)
