-- ===== src/Codec/RoundTrip.antt =====
-- Every reader of _decode.py reads back what the writer of its name in _encode.py wrote.
mod Geometries
mod Objects
use tessaridb_sdk_python.Prelude.{
  ℕ, zero, suc, ◌+◌, ◌≤◌, ◌<◌, ◌≡◌, refl, ap, ◌∙◌, sym, Bool, true, false, List, [], ◌∷◌, ◌++◌,
  arith, length, ℤ, pos, append-nil, subst,
}
use tessaridb_sdk_python.Result.{Bytes, Str, ok, bind}
use tessaridb_sdk_python.Dict.{sort_by_name, Fresh, Distinct}
use tessaridb_sdk_python.Dict.Sorted.{
  Alike, none_alike, item_alike, length-sort_by_name, sort_by_name-Alike, sort_by_name-Distinct,
}
use tessaridb_sdk_python.Value.{
  Value, Items, Fields, Bound, RecordId, none_value, null_value, bool, integer, float, decimal,
  text, bytes, duration, datetime, uuid, table, record_value, array, object, set, range, geometry,
  regex, no_items, item, no_fields, field, unbounded, included, excluded, integer_id, text_id,
  uuid_id, bytes_id, canon, canon_items, canon_fields, canon_bound, items_of, items_list, fields_of,
  fields_list, IsPython, ArePython, FieldsPython, BoundPython,
}
use tessaridb_sdk_python.Bytes.Reads.{
  Reads, Reads-bind, Reads-map, Reads-tag, Reads-zero, Reads-pure, Reads-repeat_nil,
  Reads-repeat_cons,
}
use tessaridb_sdk_python.Bytes.RoundTrip.{
  u8-Reads, u32-Reads, u32_length-Reads, i64-Reads, i128-Reads, nanos-Reads, double-Reads,
  fixed-Reads, lenbytes-Reads, text-Reads, varbytes-Reads, varbytes_text-Reads,
}
use tessaridb_sdk_python.Bytes.Writer.{Put, ◌⨾◌, u8, u32}
use tessaridb_sdk_python.Bytes.Reader
use tessaridb_sdk_python.Bytes.Reader.{Get, repeat, pure, ◌>>=◌}
use tessaridb_sdk_python.Codec.Tags.{uuid_width}
use tessaridb_sdk_python.Codec.Encode.{
  tag, put_record_id, put_value, put_items, field_puts, put_bound, put_fields, count_items,
  count_fields, encode,
}
use tessaridb_sdk_python.Codec.Decode.{
  get_record_id, record_id, get_number, get_bound, bound, get_fields, get_value, shape, value,
  finish, decode, counted,
}
use Geometries.{shape-Reads}
use Objects.{get_fields-Reads, Apart-nil}

record_id-Reads :
    {n : ℕ} (identity : RecordId) → Reads n (put_record_id identity) record_id identity
unfolding put_record_id record_id get_record_id
record_id-Reads (integer_id k) = Reads-bind _ (u8-Reads 1) (Reads-map integer_id (i64-Reads k))
record_id-Reads (text_id s) = Reads-bind _ (u8-Reads 2) (varbytes_text-Reads text_id s)
record_id-Reads (uuid_id bs) =
    Reads-bind _ (u8-Reads 3) (Reads-map uuid_id (fixed-Reads bs uuid_width))
record_id-Reads (bytes_id bs) = Reads-bind _ (u8-Reads 4) (Reads-map bytes_id (varbytes-Reads bs))

-- A tagged value: the tag takes a unit of fuel, and what follows it is read with the rest.
tagged :
    (w : Put) (a : Value) (t : ℕ)
    → t < 256
    → ((f : ℕ) → Reads f w (get_value (value f) (shape f) t) a)
    → (f : ℕ) → Reads f (tag t ⨾ w) (value f) a
tagged w a t lt r zero = Reads-zero w (value 0) a t
tagged w a t lt r (suc f) = record {
  at = λ bs rest h le.
      unfold value in (Reads-tag (get_value (value f) (shape f)) t lt (r f)).at bs rest h le;
}

items_of-items_list : (items : Items) → items_of (items_list items) ≡ items
unfolding items_of items_list
items_of-items_list no_items = refl
items_of-items_list (item v items) = ap (item v) (items_of-items_list items)

-- A counted sequence of values, as an array and a set hold it.
listed :
    {n : ℕ} (f : ℕ) (g : Items → Value) (items : Items)
    → Reads n
        (put_items items)
        (repeat (count_items items) (value f))
        (items_list (canon_items items))
    → Reads n
        (u32 (pos (count_items items)) ⨾ put_items items)
        (counted (value f) >>= λ vs. pure (g (items_of vs)))
        (g (canon_items items))
unfolding counted
listed {n} f g items r =
    subst
      (λ x.
        Reads n (u32 (pos (count_items items)) ⨾ put_items items)
          (counted (value f) >>= λ vs. pure (g (items_of vs))) (g x))
      (items_of-items_list (canon_items items))
      (Reads-map (λ vs. g (items_of vs)) (Reads-bind _ (u32_length-Reads (count_items items)) r))

count_fields-eq : (fields : Fields) → length (field_puts fields) ≡ count_fields fields
unfolding put_value count_fields
count_fields-eq no_fields = refl
count_fields-eq (field name v fields) = ap suc (count_fields-eq fields)

canon_fields-Fresh :
    (name : Str) (fields : Fields)
    → Fresh name (fields_list fields)
    → Fresh name (canon_fields fields)
unfolding canon fields_list
canon_fields-Fresh name no_fields h = tt
canon_fields-Fresh name (field key v fields) h = (h.0, canon_fields-Fresh name fields h.1)

canon_fields-Distinct :
    (fields : Fields) → Distinct (fields_list fields) → Distinct (canon_fields fields)
unfolding canon fields_list
canon_fields-Distinct no_fields d = tt
canon_fields-Distinct (field key v fields) d =
    (canon_fields-Fresh key fields d.0, canon_fields-Distinct fields d.1)

-- The sorted fields of an object.
sorted :
    {n : ℕ} (f : ℕ) (fields : Fields)
    → Distinct (fields_list fields)
    → Alike (λ w v. Reads n w (value f) v) (field_puts fields) (canon_fields fields)
    → Reads n
        (u32 (pos (count_fields fields)) ⨾ put_fields (sort_by_name (field_puts fields)))
        (Reader.u32 >>= λ count.
          get_fields (value f) count [] >>= λ fs. pure (object (fields_of fs)))
        (object (fields_of (sort_by_name (canon_fields fields))))
sorted {n} f fields d alike =
    let counts : length (sort_by_name (field_puts fields)) ≡ count_fields fields =
      length-sort_by_name (field_puts fields) ∙ count_fields-eq fields in
    let read : Reads n (put_fields (sort_by_name (field_puts fields)))
        (get_fields (value f) (count_fields fields) []) (sort_by_name (canon_fields fields)) =
      rw (← counts) (
        get_fields-Reads (value f) [] (sort_by_name-Alike alike)
          (sort_by_name-Distinct (canon_fields fields) (canon_fields-Distinct fields d))
          (Apart-nil (sort_by_name (canon_fields fields)))) in
    Reads-bind _ (u32_length-Reads (count_fields fields))
      (Reads-map (λ fs. object (fields_of fs)) read)

mutual
  unfolding put_value canon IsPython get_value get_number get_bound bound items_list count_items
      counted

  value-Reads : (v : Value) → IsPython v → (f : ℕ) → Reads f (put_value v) (value f) (canon v)
  value-Reads none_value h = tagged _ _ 1 (omega arith) λ f. Reads-pure none_value
  value-Reads null_value h = tagged _ _ 2 (omega arith) λ f. Reads-pure null_value
  value-Reads (bool true) h = tagged _ _ 3 (omega arith) λ f. Reads-map _ (u8-Reads 1)
  value-Reads (bool false) h = tagged _ _ 3 (omega arith) λ f. Reads-map _ (u8-Reads 0)
  value-Reads (integer k) h =
      tagged _ _ 4 (omega arith) λ f. Reads-bind _ (u8-Reads 1) (Reads-map integer (i64-Reads k))
  value-Reads (float bits) h =
      tagged _ _ 4 (omega arith)
        λ f. Reads-bind _ (u8-Reads 2) (Reads-map float (double-Reads bits h))
  value-Reads (decimal m s) h = tagged _ _ 4 (omega arith) λ f.
      Reads-bind _ (u8-Reads 3) (Reads-bind _ (i128-Reads m) (Reads-map (decimal m) (u32-Reads s)))
  value-Reads (text s) h = tagged _ _ 5 (omega arith) λ f. Reads-map text (text-Reads s)
  value-Reads (bytes bs) h = tagged _ _ 6 (omega arith) λ f. Reads-map bytes (lenbytes-Reads bs)
  value-Reads (duration s ns) h =
      tagged _ _ 7 (omega arith)
        λ f. Reads-bind _ (i64-Reads s) (Reads-map (duration s) (nanos-Reads ns))
  value-Reads (datetime s ns) h =
      tagged _ _ 8 (omega arith)
        λ f. Reads-bind _ (i64-Reads s) (Reads-map (datetime s) (nanos-Reads ns))
  value-Reads (uuid bs) h =
      tagged _ _ 9 (omega arith) λ f. Reads-map uuid (fixed-Reads bs uuid_width)
  value-Reads (table k) h = tagged _ _ 10 (omega arith) λ f. Reads-map table (u32-Reads k)
  value-Reads (record_value k identity) h =
      tagged _ _ 11 (omega arith)
        λ f. Reads-bind _ (u32-Reads k) (Reads-map (record_value k) (record_id-Reads identity))
  value-Reads (array items) h =
      tagged _ _ 12 (omega arith) λ f. listed f array items (items-Reads items h f)
  value-Reads (object fields) h =
      tagged _ _ 13 (omega arith) λ f. sorted f fields h.0 (fields-Reads fields h.1 f)
  value-Reads (range start end) h =
      tagged _ _ 14 (omega arith)
        λ f. Reads-bind _ (bound-Reads start h.0 f) (Reads-map _ (bound-Reads end h.1 f))
  value-Reads (set items) h =
      tagged _ _ 15 (omega arith) λ f. listed f set items (items-Reads items h f)
  value-Reads (geometry s) h =
      tagged _ _ 16 (omega arith) λ f. Reads-map geometry (shape-Reads s h f)
  value-Reads (regex s) h = tagged _ _ 17 (omega arith) λ f. Reads-map regex (text-Reads s)

  items-Reads :
      (items : Items)
      → ArePython items
      → (f : ℕ)
      → Reads f
          (put_items items)
          (repeat (count_items items) (value f))
          (items_list (canon_items items))
  items-Reads no_items h f = Reads-repeat_nil (value f)
  items-Reads (item v items) h f =
      Reads-repeat_cons (count_items items) (value-Reads v h.0 f) (items-Reads items h.1 f)

  fields-Reads :
      (fields : Fields)
      → FieldsPython fields
      → (f : ℕ) → Alike (λ w v. Reads f w (value f) v) (field_puts fields) (canon_fields fields)
  fields-Reads no_fields h f = none_alike
  fields-Reads (field name v fields) h f =
      item_alike (value-Reads v h.0 f) (fields-Reads fields h.1 f)

  bound-Reads :
      (b : Bound)
      → BoundPython b
      → (f : ℕ) → Reads f (put_bound b) (bound (value f)) (canon_bound b)
  bound-Reads unbounded h f = Reads-bind _ (u8-Reads 1) (Reads-pure unbounded)
  bound-Reads (included v) h f = Reads-bind _ (u8-Reads 2) (Reads-map included (value-Reads v h f))
  bound-Reads (excluded v) h f = Reads-bind _ (u8-Reads 3) (Reads-map excluded (value-Reads v h f))

-- Anywhere in a stream, an encoded value of Python's types is read back with its objects in name
-- order, and what follows it is left; fuel for the length of the encoding is enough.
pub value-put_value :
    (v : Value) (bs rest : Bytes) (f : ℕ)
    → IsPython v
    → put_value v ≡ ok bs
    → length bs ≤ f
    → value f (bs ++ rest) ≡ ok (canon v, rest)
value-put_value v bs rest f h e le = (value-Reads v h f).at bs rest e le

-- A payload that `encode` returned for a value of Python's types decodes to the value, its objects
-- in name order.
pub decode-encode :
    (v : Value) (bs : Bytes) → IsPython v → encode v ≡ ok bs → decode bs ≡ ok (canon v)
unfolding decode encode finish
decode-encode v bs h e =
    let whole : value (suc (length bs)) bs ≡ ok (canon v, []) =
      rw append-nil at (value-put_value v bs [] (suc (length bs)) h e (omega arith)) in
    rw whole

-- Two values of Python's types with the same encoding differ at most in the order of their objects'
-- fields.
pub encode-injective :
    (v w : Value) (bs : Bytes)
    → IsPython v
    → IsPython w
    → encode v ≡ ok bs
    → encode w ≡ ok bs
    → canon v ≡ canon w
encode-injective v w bs h k e e' = cc (decode-encode v bs h e, decode-encode w bs k e')
