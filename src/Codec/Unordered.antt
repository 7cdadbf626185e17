-- ===== src/Codec/Unordered.antt =====
-- Values up to the order of the fields of objects, and their encoding.
use mathlib.Core.Quot
use mathlib.Core.Quot.{Quot, Quot-set}
use tessaridb_sdk_python.Prelude.{◌≡◌}
use tessaridb_sdk_python.Result.{Bytes, Result, ok}
use tessaridb_sdk_python.Value.{Value, IsPython, canon}
use tessaridb_sdk_python.Codec.Encode.{encode}
use tessaridb_sdk_python.Codec.Canonical.{encode-canon}
use tessaridb_sdk_python.Codec.RoundTrip.{encode-injective}

-- A value of Python's types.
abbrev pub PythonValue : Type 0
PythonValue = (v : Value) × IsPython v

abbrev pub SameFields : PythonValue → PythonValue → Type 0
SameFields v w = canon v.0 ≡ canon w.0

-- A dictionary is not the list of its items: the order in which they were set is forgotten.
abbrev pub Unordered : Type 0
Unordered = Quot SameFields

pub Result-set : IsSet (Result Bytes)
Result-set = hlevel

-- `encode` of what the order of fields does not change.
unfoldable pub encode_unordered : Unordered → Result Bytes
encode_unordered = Quot.lift Result-set (λ v. encode v.0) (λ v w same. encode-canon v.0 w.0 same)

-- Injectivity over the classes follows from that over the values.
InjectiveAt : Bytes → Unordered → Unordered → Type 0
InjectiveAt bs x y = encode_unordered x ≡ ok bs → encode_unordered y ≡ ok bs → x ≡ y

InjectiveAt-prop : (bs : Bytes) (x y : Unordered) → IsProp (InjectiveAt bs x y)
unfolding InjectiveAt
InjectiveAt-prop bs x y = hlevel (Quot-set)

InjectiveAt-mk : (bs : Bytes) (x y : Unordered) → InjectiveAt bs x y
unfolding InjectiveAt encode_unordered
InjectiveAt-mk bs x y =
    Quot.ind (λ x. InjectiveAt-prop bs x y)
      (λ v.
        Quot.ind (λ y. InjectiveAt-prop bs (Quot.mk v) y)
          (λ w e e'. Quot.sound (encode-injective v.0 w.0 bs v.1 w.1 e e')) y)
      x

-- On the quotient of Python's values by the order of the fields of objects, on which `encode` is
-- defined, equal bytes are of equal values.
pub encode_unordered-injective :
    (x y : Unordered) (bs : Bytes) → encode_unordered x ≡ ok bs → encode_unordered y ≡ ok bs → x ≡ y
unfolding InjectiveAt
encode_unordered-injective x y bs = InjectiveAt-mk bs x y
