-- ===== src/Codec/Encode.antt =====
-- _encode.py. A field of an object is written by the action that stands under its name, so that the
-- names are sorted before anything is written.
use tessaridb_sdk_python.Prelude.{ℕ, suc, List, [], ◌∷◌, if◌then◌else◌, length, pos}
use tessaridb_sdk_python.Result.{Str, ok, bind}
use tessaridb_sdk_python.Dict.{sort_by_name}
use tessaridb_sdk_python.Value.{
  Value, Items, Fields, Bound, RecordId, Position, Polygon, Shape, Shapes, none_value, null_value,
  bool, integer, float, decimal, bytes, duration, datetime, uuid, table, record_value, array,
  object, set, range, geometry, regex, no_items, item, no_fields, field, unbounded, included,
  excluded, integer_id, text_id, uuid_id, bytes_id, point, line, polygon_shape, multi_point,
  multi_line, multi_polygon, collection, no_shapes, shape_then,
}
use tessaridb_sdk_python.Bytes.Utf8.{encode_utf8}
use tessaridb_sdk_python.Bytes.Writer.{
  Put, ◌⨾◌, u8, u32, i64, i128, nanos, double, fixed, lenbytes, text, varbytes,
}
use tessaridb_sdk_python.Codec.Tags.{
  tag_none, tag_null, tag_bool, tag_number, tag_string, tag_bytes, tag_duration, tag_datetime,
  tag_uuid, tag_table, tag_record, tag_array, tag_object, tag_range, tag_set, tag_geometry,
  tag_regex, number_integer, number_float, number_decimal, bound_unbounded, bound_included,
  bound_excluded, id_integer, id_text, id_uuid, id_bytes, shape_point, shape_line, shape_polygon,
  shape_multipoint, shape_multiline, shape_multipolygon, shape_collection, uuid_width,
}

-- `w.u8(tag)` for a constant of _tags.py.
abbrev pub tag : ℕ → Put
tag t = u8 (pos t)

unfoldable pub put_record_id : RecordId → Put
put_record_id (integer_id number) = tag id_integer ⨾ i64 number
put_record_id (text_id string) = tag id_text ⨾ bind (encode_utf8 string) varbytes
put_record_id (uuid_id bs) = tag id_uuid ⨾ fixed bs uuid_width
put_record_id (bytes_id bs) = tag id_bytes ⨾ varbytes bs

unfoldable pub put_position : Position → Put
put_position p = double p.lon ⨾ double p.lat

-- `for x in xs: p(x)`.
unfoldable pub put_each {ℓ} : {A : Type ℓ} → (A → Put) → List A → Put
put_each p [] = ok []
put_each p (x ∷ xs) = p x ⨾ put_each p xs

unfoldable pub put_counted {ℓ} : {A : Type ℓ} → (A → Put) → List A → Put
put_counted p xs = u32 (pos (length xs)) ⨾ put_each p xs

unfoldable pub put_positions : List Position → Put
put_positions positions = put_counted put_position positions

unfoldable pub put_polygon : Polygon → Put
put_polygon p = put_positions p.exterior ⨾ put_counted put_positions p.interiors

unfoldable pub count_shapes : Shapes → ℕ
count_shapes no_shapes = 0
count_shapes (shape_then s more) = suc (count_shapes more)

unfoldable mutual
  pub put_shape : Shape → Put
  put_shape (point p) = tag shape_point ⨾ put_position p
  put_shape (line positions) = tag shape_line ⨾ put_positions positions
  put_shape (polygon_shape p) = tag shape_polygon ⨾ put_polygon p
  put_shape (multi_point positions) = tag shape_multipoint ⨾ put_positions positions
  put_shape (multi_line lines) = tag shape_multiline ⨾ put_counted put_positions lines
  put_shape (multi_polygon polygons) = tag shape_multipolygon ⨾ put_counted put_polygon polygons
  put_shape (collection shapes) =
      tag shape_collection ⨾ u32 (pos (count_shapes shapes)) ⨾ put_shapes shapes

  pub put_shapes : Shapes → Put
  put_shapes no_shapes = ok []
  put_shapes (shape_then s more) = put_shape s ⨾ put_shapes more

unfoldable pub count_items : Items → ℕ
count_items no_items = 0
count_items (item v items) = suc (count_items items)

unfoldable pub count_fields : Fields → ℕ
count_fields no_fields = 0
count_fields (field name v fields) = suc (count_fields fields)

-- The loop over `sorted(fields)`.
unfoldable pub put_fields : List (Str × Put) → Put
put_fields [] = ok []
put_fields ((name, p) ∷ fields) = text name ⨾ p ⨾ put_fields fields

unfoldable mutual
  pub put_value : Value → Put
  put_value none_value = tag tag_none ⨾ ok []
  put_value null_value = tag tag_null ⨾ ok []
  put_value (bool flag) = tag tag_bool ⨾ tag (if flag then 1 else 0)
  put_value (integer number) = tag tag_number ⨾ tag number_integer ⨾ i64 number
  put_value (float number) = tag tag_number ⨾ tag number_float ⨾ double number
  put_value (decimal mantissa scale) =
      tag tag_number ⨾ tag number_decimal ⨾ i128 mantissa ⨾ u32 scale
  put_value (Value.text string) = tag tag_string ⨾ text string
  put_value (bytes bs) = tag tag_bytes ⨾ lenbytes bs
  put_value (duration seconds ns) = tag tag_duration ⨾ i64 seconds ⨾ nanos ns
  put_value (datetime seconds ns) = tag tag_datetime ⨾ i64 seconds ⨾ nanos ns
  put_value (uuid bs) = tag tag_uuid ⨾ fixed bs uuid_width
  put_value (table identifier) = tag tag_table ⨾ u32 identifier
  put_value (record_value identifier identity) =
      tag tag_record ⨾ u32 identifier ⨾ put_record_id identity
  put_value (array items) = tag tag_array ⨾ u32 (pos (count_items items)) ⨾ put_items items
  put_value (set items) = tag tag_set ⨾ u32 (pos (count_items items)) ⨾ put_items items
  put_value (object fields) =
      tag tag_object
      ⨾ u32 (pos (count_fields fields))
      ⨾ put_fields (sort_by_name (field_puts fields))
  put_value (range start end) = tag tag_range ⨾ put_bound start ⨾ put_bound end
  put_value (geometry shape) = tag tag_geometry ⨾ put_shape shape
  put_value (regex pattern) = tag tag_regex ⨾ text pattern

  pub put_items : Items → Put
  put_items no_items = ok []
  put_items (item v items) = put_value v ⨾ put_items items

  pub field_puts : Fields → List (Str × Put)
  field_puts no_fields = []
  field_puts (field name v fields) = (name, put_value v) ∷ field_puts fields

  pub put_bound : Bound → Put
  put_bound unbounded = tag bound_unbounded ⨾ ok []
  put_bound (included v) = tag bound_included ⨾ put_value v
  put_bound (excluded v) = tag bound_excluded ⨾ put_value v

unfoldable pub encode : Value → Put
encode v = put_value v
