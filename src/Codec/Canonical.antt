-- ===== src/Codec/Canonical.antt =====
-- What `encode` writes does not depend on the order of the fields of objects.
use tessaridb_sdk_python.Prelude.{suc, ◌≡◌, refl, sym, ap, ◌∙◌, List, [], ◌∷◌, pos, length}
use tessaridb_sdk_python.Result.{Str}
use tessaridb_sdk_python.Dict.{sort_by_name}
use tessaridb_sdk_python.Dict.Sorted.{length-sort_by_name}
use tessaridb_sdk_python.Dict.Idempotent.{
  map_held, sort_by_name-sort_by_name, map_held-sort_by_name,
}
use tessaridb_sdk_python.Value.{
  Value, Items, Fields, Bound, none_value, null_value, bool, integer, float, decimal, text, bytes,
  duration, datetime, uuid, table, record_value, array, object, set, range, geometry, regex,
  no_items, item, no_fields, field, unbounded, included, excluded, fields_of, canon, canon_items,
  canon_fields, canon_bound,
}
use tessaridb_sdk_python.Bytes.Writer.{◌⨾◌, u32}
use tessaridb_sdk_python.Codec.Tags.{
  tag_object, tag_array, tag_set, tag_range, bound_included, bound_excluded,
}
use tessaridb_sdk_python.Codec.Encode.{
  tag, count_items, count_fields, put_fields, put_value, put_items, field_puts, put_bound, encode,
}

field_puts-fields_of :
    (fields : List (Str × Value)) → field_puts (fields_of fields) ≡ map_held put_value fields
unfolding field_puts fields_of map_held
field_puts-fields_of [] = refl
field_puts-fields_of ((name, v) ∷ fields) =
    ap (λ l. (name, put_value v) ∷ l) (field_puts-fields_of fields)

count_fields-fields_of :
    (fields : List (Str × Value)) → count_fields (fields_of fields) ≡ length fields
unfolding count_fields fields_of
count_fields-fields_of [] = refl
count_fields-fields_of ((name, v) ∷ fields) = ap suc (count_fields-fields_of fields)

length-canon_fields : (fields : Fields) → length (canon_fields fields) ≡ count_fields fields
unfolding canon_fields count_fields
length-canon_fields no_fields = refl
length-canon_fields (field name v fields) = ap suc (length-canon_fields fields)

count_items-canon_items : (items : Items) → count_items (canon_items items) ≡ count_items items
unfolding canon_items count_items
count_items-canon_items no_items = refl
count_items-canon_items (item v items) = ap suc (count_items-canon_items items)

-- The fields in name order, where they are written alike.
object_alike :
    (fields : Fields)
    → map_held put_value (canon_fields fields) ≡ field_puts fields
    → put_value (canon (object fields)) ≡ put_value (object fields)
unfolding canon put_value
object_alike fields alike =
    let sorted = sort_by_name (canon_fields fields) in
    let count : count_fields (fields_of sorted) ≡ count_fields fields =
      count_fields-fields_of sorted
      ∙ length-sort_by_name (canon_fields fields)
      ∙ length-canon_fields fields in
    let order : sort_by_name (field_puts (fields_of sorted)) ≡ sort_by_name (field_puts fields) =
      ap sort_by_name
        (field_puts-fields_of sorted ∙ map_held-sort_by_name put_value (canon_fields fields))
      ∙ sort_by_name-sort_by_name (map_held put_value (canon_fields fields))
      ∙ ap sort_by_name alike in
    ap
      (λ n.
        tag tag_object ⨾ u32 (pos n) ⨾ put_fields (sort_by_name (field_puts (fields_of sorted))))
      count
    ∙ ap (λ l. tag tag_object ⨾ u32 (pos (count_fields fields)) ⨾ put_fields l) order

mutual
  unfolding canon canon_items canon_fields canon_bound put_value put_items field_puts put_bound
      map_held

  put_value-canon : (v : Value) → put_value (canon v) ≡ put_value v
  put_value-canon (array items) =
      ap (λ n. tag tag_array ⨾ u32 (pos n) ⨾ put_items (canon_items items))
        (count_items-canon_items items)
      ∙ ap (λ p. tag tag_array ⨾ u32 (pos (count_items items)) ⨾ p) (put_items-canon items)
  put_value-canon (set items) =
      ap (λ n. tag tag_set ⨾ u32 (pos n) ⨾ put_items (canon_items items))
        (count_items-canon_items items)
      ∙ ap (λ p. tag tag_set ⨾ u32 (pos (count_items items)) ⨾ p) (put_items-canon items)
  put_value-canon (object fields) = object_alike fields (map_held-canon fields)
  put_value-canon (range start end) =
      ap (λ p. tag tag_range ⨾ p ⨾ put_bound (canon_bound end)) (put_bound-canon start)
      ∙ ap (λ p. tag tag_range ⨾ put_bound start ⨾ p) (put_bound-canon end)
  put_value-canon none_value = refl
  put_value-canon null_value = refl
  put_value-canon (bool flag) = refl
  put_value-canon (integer number) = refl
  put_value-canon (float number) = refl
  put_value-canon (decimal mantissa scale) = refl
  put_value-canon (text string) = refl
  put_value-canon (bytes bs) = refl
  put_value-canon (duration seconds ns) = refl
  put_value-canon (datetime seconds ns) = refl
  put_value-canon (uuid bs) = refl
  put_value-canon (table identifier) = refl
  put_value-canon (record_value identifier identity) = refl
  put_value-canon (geometry shape) = refl
  put_value-canon (regex pattern) = refl

  put_items-canon : (items : Items) → put_items (canon_items items) ≡ put_items items
  put_items-canon no_items = refl
  put_items-canon (item v items) =
      ap (λ p. p ⨾ put_items (canon_items items)) (put_value-canon v)
      ∙ ap (λ p. put_value v ⨾ p) (put_items-canon items)

  map_held-canon : (fields : Fields) → map_held put_value (canon_fields fields) ≡ field_puts fields
  map_held-canon no_fields = refl
  map_held-canon (field name v fields) =
      ap (λ p. (name, p) ∷ map_held put_value (canon_fields fields)) (put_value-canon v)
      ∙ ap (λ l. (name, put_value v) ∷ l) (map_held-canon fields)

  put_bound-canon : (b : Bound) → put_bound (canon_bound b) ≡ put_bound b
  put_bound-canon unbounded = refl
  put_bound-canon (included v) = ap (λ p. tag bound_included ⨾ p) (put_value-canon v)
  put_bound-canon (excluded v) = ap (λ p. tag bound_excluded ⨾ p) (put_value-canon v)

-- Values that differ only in the order of the fields of objects, at any depth, are encoded to the
-- same bytes, or fail with the same exception.
pub encode-canon : (v w : Value) → canon v ≡ canon w → encode v ≡ encode w
unfolding encode
encode-canon v w same = sym (put_value-canon v) ∙ ap put_value same ∙ put_value-canon w
