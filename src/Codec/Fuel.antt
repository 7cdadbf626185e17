-- ===== src/Codec/Fuel.antt =====
-- The readers of _decode.py on the fuel that they are given: they end, whatever the bytes are.
use tessaridb_sdk_python.Prelude.{ℕ, zero, suc, ◌≢◌, List, [], ◌∷◌, arith, length, ◌==◌}
use tessaridb_sdk_python.Result.{
  Bytes, Str, Result, Error, ok, err, bind, out_of_fuel, protocol, unknown_id, unknown_shape,
  unknown_number, unknown_bound, unknown_tag,
}
use tessaridb_sdk_python.Dict.{dict_set}
use tessaridb_sdk_python.Value.{
  none_value, null_value, duration, datetime, record_value, range, Value, Shape,
}
use tessaridb_sdk_python.Bytes.Reader.{Get, ◌>>=◌}
use tessaridb_sdk_python.Bytes.Fuel.{
  Fine, returns, raises, Safe, Safe-pure, Safe-bind, Safe-map, Safe-if, Safe-tag, Safe-tag_zero,
  Safe-repeat, Safe-u8, Safe-u32, Safe-integer, Safe-i64, Safe-i128, Safe-double, Safe-nanos,
  Safe-fixed, Safe-lenbytes, Safe-as_text, Safe-text, Safe-varbytes,
}
use tessaridb_sdk_python.Codec.Tags.{uuid_width}
use tessaridb_sdk_python.Codec.Decode.{
  fail, counted, get_record_id, record_id, position, positions, polygon, get_shape, shape,
  get_number, get_bound, bound, get_fields, get_value, value, finish, decode,
}

module _ {n : ℕ} where
  pub Safe-fail {ℓ} : {A : Type ℓ} (e : Error) → e ≢ out_of_fuel → Safe n (fail {A = A} e)
  unfolding fail
  Safe-fail e ne = record { at = λ bs h. raises ne }

  pub Safe-counted {ℓ} : {A : Type ℓ} {p : Get A} → Safe n p → Safe n (counted p)
  unfolding counted
  Safe-counted s = Safe-bind _ Safe-u32 λ count. Safe-repeat count s

  Safe-get_record_id : (t : ℕ) → Safe n (get_record_id t)
  unfolding get_record_id
  Safe-get_record_id t = Safe-if (t == 1) (Safe-map _ Safe-i64) (
      Safe-if (t == 2) (Safe-bind _ Safe-varbytes λ raw. Safe-map _ (Safe-as_text raw)) (
        Safe-if (t == 3) (Safe-map _ (Safe-fixed uuid_width)) (
          Safe-if (t == 4) (Safe-map _ Safe-varbytes)
            (Safe-fail (protocol (unknown_id t)) (ground arith)))))

  Safe-record_id : Safe n record_id
  unfolding record_id
  Safe-record_id = Safe-bind _ Safe-u8 Safe-get_record_id

  Safe-position : Safe n position
  unfolding position
  Safe-position = Safe-bind _ Safe-double λ lon. Safe-map _ Safe-double

  Safe-positions : Safe n positions
  unfolding positions
  Safe-positions = Safe-counted Safe-position

  Safe-polygon : Safe n polygon
  unfolding polygon
  Safe-polygon = Safe-bind _ Safe-positions λ exterior. Safe-map _ (Safe-counted Safe-positions)

  Safe-get_shape : {nested : Get Shape} (t : ℕ) → Safe n nested → Safe n (get_shape nested t)
  unfolding get_shape
  Safe-get_shape t s = Safe-if (t == 1) (Safe-map _ Safe-position) (
      Safe-if (t == 2) (Safe-map _ Safe-positions) (
        Safe-if (t == 3) (Safe-map _ Safe-polygon) (
          Safe-if (t == 4) (Safe-map _ Safe-positions) (
            Safe-if (t == 5) (Safe-map _ (Safe-counted Safe-positions)) (
              Safe-if (t == 6) (Safe-map _ (Safe-counted Safe-polygon)) (
                Safe-if (t == 7) (Safe-map _ (Safe-counted s))
                  (Safe-fail (protocol (unknown_shape t)) (ground arith))))))))

  Safe-get_number : (t : ℕ) → Safe n (get_number t)
  unfolding get_number
  Safe-get_number t = Safe-if (t == 1) (Safe-map _ Safe-i64) (
      Safe-if (t == 2) (Safe-map _ Safe-double) (
        Safe-if (t == 3) (Safe-bind _ Safe-i128 λ mantissa. Safe-map _ (Safe-integer Safe-u32))
          (Safe-fail (protocol (unknown_number t)) (ground arith))))

  module _ {nested : Get Value} (s : Safe n nested) where
    Safe-get_bound : (t : ℕ) → Safe n (get_bound nested t)
    unfolding get_bound
    Safe-get_bound t = Safe-if (t == 1) (Safe-pure _) (
        Safe-if (t == 2) (Safe-map _ s)
          (Safe-if (t == 3) (Safe-map _ s) (Safe-fail (protocol (unknown_bound t)) (ground arith))))

    Safe-bound : Safe n (bound nested)
    unfolding bound
    Safe-bound = Safe-bind _ Safe-u8 Safe-get_bound

    Safe-get_fields :
        (count : ℕ) (fields : List (Str × Value)) → Safe n (get_fields nested count fields)
    unfolding get_fields ◌>>=◌
    Safe-get_fields zero fields = record { at = λ bs h. returns (omega arith) }
    Safe-get_fields (suc count) fields = record {
      at =
          (Safe-bind _ Safe-text
            λ name. Safe-bind _ s λ v. Safe-get_fields count (dict_set name v fields)).at;
    }

    Safe-get_value :
        {shapes : Get Shape} → Safe n shapes → (t : ℕ) → Safe n (get_value nested shapes t)
    unfolding get_value
    Safe-get_value ss t = Safe-if (t == 1) (Safe-pure none_value) (
        Safe-if (t == 2) (Safe-pure null_value) (
          Safe-if (t == 3) (Safe-map _ Safe-u8) (
            Safe-if (t == 4) (Safe-bind _ Safe-u8 Safe-get_number) (
              Safe-if (t == 5) (Safe-map _ Safe-text) (
                Safe-if (t == 6) (Safe-map _ Safe-lenbytes) (
                  Safe-if (t == 7)
                    (Safe-bind _ Safe-i64 λ k. Safe-map (duration k) (Safe-integer Safe-nanos))
                    (Safe-if (t == 8)
                      (Safe-bind _ Safe-i64 λ k. Safe-map (datetime k) (Safe-integer Safe-nanos))
                      (Safe-if (t == 9) (Safe-map _ (Safe-fixed uuid_width)) (
                        Safe-if (t == 10) (Safe-map _ (Safe-integer Safe-u32)) (
                          Safe-if (t == 11)
                            (Safe-bind _ (Safe-integer Safe-u32)
                              λ k. Safe-map (record_value k) Safe-record_id)
                            (Safe-if (t == 12) (Safe-map _ (Safe-counted s)) (
                              Safe-if (t == 15) (Safe-map _ (Safe-counted s)) (
                                Safe-if (t == 13)
                                  (Safe-bind _ Safe-u32
                                    λ count. Safe-map _ (Safe-get_fields count []))
                                  (Safe-if (t == 14)
                                    (Safe-bind _ Safe-bound
                                      λ start. Safe-map (range start) Safe-bound)
                                    (Safe-if (t == 16) (Safe-map _ ss) (
                                      Safe-if (t == 17) (Safe-map _ Safe-text) (
                                        Safe-fail (protocol (unknown_tag t))
                                          (ground arith))))))))))))))))))

Safe-shape : (n : ℕ) → Safe n (shape (suc n))
unfolding shape
Safe-shape zero = record { at = (Safe-tag_zero (get_shape (shape 0))).at }
Safe-shape (suc n) = record {
  at = (Safe-tag (get_shape (shape (suc n))) (λ t. Safe-get_shape t (Safe-shape n))).at;
}

-- A unit of fuel more than there are bytes is enough.
pub Safe-value : (n : ℕ) → Safe n (value (suc n))
unfolding value
Safe-value zero = record { at = (Safe-tag_zero (get_value (value 0) (shape 0))).at }
Safe-value (suc n) = record {
  at =
      (Safe-tag (get_value (value (suc n)) (shape (suc n)))
        (Safe-get_value (Safe-value n) (Safe-shape n))).at;
}

finish-ne-out_of_fuel :
    {m : ℕ} (r : Result (Value × Bytes)) → Fine m r → bind r finish ≢ err out_of_fuel
unfolding finish
finish-ne-out_of_fuel (ok (v, [])) h = cc
finish-ne-out_of_fuel (ok (v, b ∷ rest)) h = cc
finish-ne-out_of_fuel (err e) (raises ne) = λ same. ne (cc)

-- `decode` returns a value or raises an exception on every payload: its loops and nested calls end
-- within the fuel that the model gives them.
pub decode-ne-out_of_fuel : (payload : Bytes) → decode payload ≢ err out_of_fuel
unfolding decode
decode-ne-out_of_fuel payload =
    finish-ne-out_of_fuel (value (suc (length payload)) payload)
      ((Safe-value (length payload)).at payload (omega arith))
