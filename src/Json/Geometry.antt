-- ===== src/Json/Geometry.antt =====
-- _geojson.py.
use tessaridb_sdk_python.Prelude.{ℕ, Option, none, some, List, [], ◌∷◌, if◌then◌else◌}
use tessaridb_sdk_python.Result.{
  Str, Result, ok, err, bind, malformed, value_error, key_error, type_error,
}
use tessaridb_sdk_python.Value.{
  Position, Ring, Polygon, Shape, point, line, polygon_shape, multi_point, multi_line,
  multi_polygon, collection, shapes_of,
}
use tessaridb_sdk_python.Dict.{str_eq, dict_get}
use tessaridb_sdk_python.Text.{chars}
use tessaridb_sdk_python.Json.Node.{
  Node, null, boolean, number, double, string, list, dict, Nodes, no_nodes, node_then, Members,
  no_members, member, members_list, Python, iterate,
}

-- `body[name]`.
unfoldable pub required : Str → List (Str × Node) → Result Node
required name items = elim (dict_get name items) [ none ↦ err key_error | some n ↦ ok n ]

-- A generator over what Python iterates over.
unfoldable pub each_of : {A : Type 0} → (Node → Result A) → List Node → Result (List A)
each_of f [] = ok []
each_of f (n ∷ ns) = bind (f n) λ a. bind (each_of f ns) λ as'. ok (a ∷ as')

unfoldable pub polygon_of : List Ring → Polygon
polygon_of [] = record { exterior = []; interiors = [] }
polygon_of (wall ∷ walls) = record { exterior = wall; interiors = walls }

module _ (py : Python) where
  -- `float(value)`.
  unfoldable pub to_float : Node → Result ℕ
  to_float (boolean b) = ok (if b then 0x3FF0_0000_0000_0000 else 0)
  to_float (number n) = py.float_of_int n
  to_float (double bits) = ok bits
  to_float (string s) = py.float_of_text s
  to_float _ = err type_error

  -- `_coordinate`.
  unfoldable pub coordinate : Node → Result ℕ
  unfolding to_float
  coordinate null = ok 0x7FF8_0000_0000_0000
  coordinate n = to_float n

  unfoldable pub pair_of : List Node → Result Position
  pair_of (lon ∷ lat ∷ []) =
      bind (coordinate lon) λ x. bind (coordinate lat) λ y. ok (record { lon = x; lat = y })
  pair_of _ = err value_error

  unfoldable pub read_position : Node → Result Position
  unfolding pair_of
  read_position pair = bind (iterate pair) pair_of

  unfoldable pub read_ring : Node → Result Ring
  unfolding read_position
  read_ring n = bind (iterate n) (each_of read_position)

  unfoldable pub read_polygon : Node → Result Polygon
  unfolding read_ring
  read_polygon n =
      bind (iterate n) λ rings. bind (each_of read_ring rings) λ walls. ok (polygon_of walls)

  unfoldable pub taken :
      {A : Type 0} → (Node → Result A) → (A → Shape) → List (Str × Node) → Result Shape
  taken read build items =
      bind (required (chars "coordinates") items) λ n. bind (read n) λ a. ok (build a)

  unfoldable pub each_taken :
      {A : Type 0} → (Node → Result A) → (List A → Shape) → List (Str × Node) → Result Shape
  unfolding taken
  each_taken read = taken (λ n. bind (iterate n) (each_of read))

  unfoldable pub nested_shapes : Option (Result (List Shape)) → Result Shape
  nested_shapes none = err key_error
  nested_shapes (some nested) = bind nested λ shapes. ok (collection (shapes_of shapes))

  -- `SHAPES`.
  unfoldable pub shape_named : Str → List (Str × Node) → Option (Result (List Shape)) → Result Shape
  unfolding taken each_taken nested_shapes
  shape_named word items nested =
      if str_eq word (chars "Point")
      then taken read_position point items
      else if str_eq word (chars "LineString")
      then each_taken read_position line items
      else if str_eq word (chars "Polygon")
      then taken read_polygon polygon_shape items
      else if str_eq word (chars "MultiPoint")
      then each_taken read_position multi_point items
      else if str_eq word (chars "MultiLineString")
      then each_taken read_ring multi_line items
      else if str_eq word (chars "MultiPolygon")
      then each_taken read_polygon multi_polygon items
      else if str_eq word (chars "GeometryCollection")
      then nested_shapes nested
      else err malformed

  unfoldable pub by_type :
      Option Node → List (Str × Node) → Option (Result (List Shape)) → Result Shape
  unfolding shape_named
  by_type (some (string word)) items nested = shape_named word items nested
  by_type (some (list ns)) items nested = err type_error
  by_type (some (dict ms)) items nested = err type_error
  by_type _ items nested = err malformed

  -- `read_shape`; `geometries` is what iterating over `body["geometries"]` reads, if it is there.
  unfoldable mutual
    unfolding by_type

    pub read_shape : Node → Result Shape
    read_shape (dict ms) =
        by_type (dict_get (chars "type") (members_list ms)) (members_list ms) (geometries ms)
    read_shape _ = err type_error

    pub geometries : Members → Option (Result (List Shape))
    geometries no_members = none
    geometries (member name n ms) =
        if str_eq name (chars "geometries") then some (shapes_in n) else geometries ms

    pub shapes_in : Node → Result (List Shape)
    shapes_in (list ns) = read_shapes ns
    shapes_in (string []) = ok []
    shapes_in (dict no_members) = ok []
    shapes_in _ = err type_error

    pub read_shapes : Nodes → Result (List Shape)
    read_shapes no_nodes = ok []
    read_shapes (node_then n ns) =
        bind (read_shape n) λ s. bind (read_shapes ns) λ more. ok (s ∷ more)
