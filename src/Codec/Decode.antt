-- ===== src/Codec/Decode.antt =====
-- _decode.py. A reader of values that calls itself takes as fuel the depth of calls that it may
-- make; `decode` gives it the payload's length, and each call has read a byte.
use tessaridb_sdk_python.Prelude.{ℕ, zero, suc, not, List, [], ◌∷◌, if◌then◌else◌, ◌==◌, length}
use tessaridb_sdk_python.Result.{
  Bytes, Str, Result, Error, ok, err, bind, protocol, trailing, unknown_tag, unknown_number,
  unknown_bound, unknown_id, unknown_shape, out_of_fuel,
}
use tessaridb_sdk_python.Dict.{dict_set}
use tessaridb_sdk_python.Value.{
  Value, Bound, RecordId, Position, Polygon, Shape, none_value, null_value, bool, float, decimal,
  bytes, duration, datetime, uuid, table, record_value, array, object, set, range, geometry, regex,
  unbounded, included, excluded, integer_id, text_id, uuid_id, bytes_id, point, line, polygon_shape,
  multi_point, multi_line, multi_polygon, collection, items_of, fields_of, shapes_of,
}
use tessaridb_sdk_python.Bytes.Reader.{
  Get, pure, ◌>>=◌, u8, u32, i64, i128, nanos, double, fixed, lenbytes, as_text, text, varbytes,
  integer, repeat,
}
use tessaridb_sdk_python.Codec.Tags.{
  tag_none, tag_null, tag_bool, tag_number, tag_string, tag_bytes, tag_duration, tag_datetime,
  tag_uuid, tag_table, tag_record, tag_array, tag_object, tag_range, tag_set, tag_geometry,
  tag_regex, number_integer, number_float, number_decimal, bound_unbounded, bound_included,
  bound_excluded, id_integer, id_text, id_uuid, id_bytes, shape_point, shape_line, shape_polygon,
  shape_multipoint, shape_multiline, shape_multipolygon, shape_collection, uuid_width,
}

unfoldable pub fail {ℓ} : {A : Type ℓ} → Error → Get A
fail e r = err e

-- `count = r.u32(); tuple(p(r) for _ in range(count))`.
unfoldable pub counted {ℓ} : {A : Type ℓ} → Get A → Get (List A)
counted p = do count ← u32; repeat count p

unfoldable pub get_record_id : ℕ → Get RecordId
get_record_id t =
    if t == id_integer
    then i64 >>= (λ n. pure (integer_id n))
    else if t == id_text
    then varbytes >>= (λ bs. as_text bs >>= (λ s. pure (text_id s)))
    else if t == id_uuid
    then fixed uuid_width >>= (λ bs. pure (uuid_id bs))
    else if t == id_bytes
    then varbytes >>= (λ bs. pure (bytes_id bs))
    else fail (protocol (unknown_id t))

unfoldable pub record_id : Get RecordId
record_id = do t ← u8; get_record_id t

unfoldable pub position : Get Position
position = do lon ← double; lat ← double; pure (record { lon = lon; lat = lat })

unfoldable pub positions : Get (List Position)
positions = counted position

unfoldable pub polygon : Get Polygon
polygon = do
  exterior ← positions
  interiors ← counted positions
  pure (record { exterior = exterior; interiors = interiors })

-- The dispatch of `_shape`, where `nested` reads a shape.
unfoldable pub get_shape : Get Shape → ℕ → Get Shape
get_shape nested kind =
    if kind == shape_point
    then position >>= (λ p. pure (point p))
    else if kind == shape_line
    then positions >>= (λ ps. pure (line ps))
    else if kind == shape_polygon
    then polygon >>= (λ p. pure (polygon_shape p))
    else if kind == shape_multipoint
    then positions >>= (λ ps. pure (multi_point ps))
    else if kind == shape_multiline
    then counted positions >>= (λ lines. pure (multi_line lines))
    else if kind == shape_multipolygon
    then counted polygon >>= (λ ps. pure (multi_polygon ps))
    else if kind == shape_collection
    then counted nested >>= (λ shapes. pure (collection (shapes_of shapes)))
    else fail (protocol (unknown_shape kind))

unfoldable pub shape : ℕ → Get Shape
shape zero r = err out_of_fuel
shape (suc fuel) r = (do kind ← u8; get_shape (shape fuel) kind) r

unfoldable pub get_number : ℕ → Get Value
get_number kind =
    if kind == number_integer
    then i64 >>= (λ n. pure (Value.integer n))
    else if kind == number_float
    then double >>= (λ bits. pure (float bits))
    else if kind == number_decimal
    then i128 >>= (λ mantissa. integer u32 >>= (λ scale. pure (decimal mantissa scale)))
    else fail (protocol (unknown_number kind))

-- The dispatch of `_bound`, where `nested` reads a value.
unfoldable pub get_bound : Get Value → ℕ → Get Bound
get_bound nested kind =
    if kind == bound_unbounded
    then pure unbounded
    else if kind == bound_included
    then nested >>= (λ v. pure (included v))
    else if kind == bound_excluded
    then nested >>= (λ v. pure (excluded v))
    else fail (protocol (unknown_bound kind))

unfoldable pub bound : Get Value → Get Bound
bound nested = do kind ← u8; get_bound nested kind

-- The loop over an object's fields: a name that comes twice keeps its place and its last value.
unfoldable pub get_fields : Get Value → ℕ → List (Str × Value) → Get (List (Str × Value))
get_fields nested zero fields r = ok (fields, r)
get_fields nested (suc count) fields r =
    bind (text r)
      λ (name, r₁). bind (nested r₁) λ (v, r₂). get_fields nested count (dict_set name v fields) r₂

-- The dispatch of `_value`, where `nested` reads a value and `nested_shape` a shape.
unfoldable pub get_value : Get Value → Get Shape → ℕ → Get Value
get_value nested nested_shape t =
    if t == tag_none
    then pure none_value
    else if t == tag_null
    then pure null_value
    else if t == tag_bool
    then u8 >>= (λ b. pure (bool (not (b == 0))))
    else if t == tag_number
    then u8 >>= get_number
    else if t == tag_string
    then text >>= (λ s. pure (Value.text s))
    else if t == tag_bytes
    then lenbytes >>= (λ bs. pure (bytes bs))
    else if t == tag_duration
    then i64 >>= (λ s. integer nanos >>= (λ ns. pure (duration s ns)))
    else if t == tag_datetime
    then i64 >>= (λ s. integer nanos >>= (λ ns. pure (datetime s ns)))
    else if t == tag_uuid
    then fixed uuid_width >>= (λ bs. pure (uuid bs))
    else if t == tag_table
    then integer u32 >>= (λ n. pure (table n))
    else if t == tag_record
    then integer u32 >>= (λ n. record_id >>= (λ identity. pure (record_value n identity)))
    else if t == tag_array
    then counted nested >>= (λ vs. pure (array (items_of vs)))
    else if t == tag_set
    then counted nested >>= (λ vs. pure (set (items_of vs)))
    else if t == tag_object
    then u32 >>= (λ count. get_fields nested count [] >>= (λ fs. pure (object (fields_of fs))))
    else if t == tag_range
    then bound nested >>= (λ start. bound nested >>= (λ end. pure (range start end)))
    else if t == tag_geometry
    then nested_shape >>= (λ s. pure (geometry s))
    else if t == tag_regex
    then text >>= (λ pattern. pure (regex pattern))
    else fail (protocol (unknown_tag t))

unfoldable pub value : ℕ → Get Value
value zero r = err out_of_fuel
value (suc fuel) r = (do t ← u8; get_value (value fuel) (shape fuel) t) r

unfoldable pub finish : Value × Bytes → Result Value
finish (v, []) = ok v
finish (v, b ∷ rest) = err (protocol (trailing (length (b ∷ rest))))

-- The depth of calls is at most the number of bytes, and one more for the empty payload.
unfoldable pub decode : Bytes → Result Value
decode payload = bind (value (suc (length payload)) payload) finish
