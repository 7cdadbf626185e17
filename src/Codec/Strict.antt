-- ===== src/Codec/Strict.antt =====
-- What else the codec promises: no payload with bytes after its value, and equal encodings of
-- objects that hold the same fields.
use tessaridb_sdk_python.Prelude.{ℕ, suc, ◌≡◌, ◌∷◌, ◌++◌, arith, length, length-append}
use tessaridb_sdk_python.Result.{Bytes, ok, err, protocol, trailing}
use tessaridb_sdk_python.Value.{Value, IsPython}
use tessaridb_sdk_python.Codec.Encode.{encode}
use tessaridb_sdk_python.Codec.Decode.{finish, decode}
use tessaridb_sdk_python.Codec.RoundTrip.{value-put_value}

-- Bytes after the encoding of a value of Python's types are an error that counts them, however many
-- there are.
pub decode-trailing :
    (v : Value) (bs : Bytes) (extra : ℕ) (more : Bytes)
    → IsPython v
    → encode v ≡ ok bs
    → decode (bs ++ extra ∷ more) ≡ err (protocol (trailing (length (extra ∷ more))))
unfolding decode encode finish
decode-trailing v bs extra more h e = rw (
    value-put_value v bs (extra ∷ more) (suc (length (bs ++ extra ∷ more))) h e
      (omega (arith, length-append {0} bs (extra ∷ more))))
