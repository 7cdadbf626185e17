-- ===== src/Json/Leaves.antt =====
-- What the readers of single values return fits their kinds.
use tessaridb_sdk_python.Prelude.{
  ℕ, ◌<◌, ◌≡◌, refl, Bool, Bool-cases, inl, inr, ℤ, pos, negsuc, Option, none, some, Option-cases,
  [], ◌∷◌, arith, ltb, ◌++◌, length, ◌==◌,
}
use tessaridb_sdk_python.Result.{
  Bytes, Str, Result, ok, err, bind, OnOk, returned, raised, OnOk-apply, OnOk-bind, OnOk-if,
}
use tessaridb_sdk_python.Value.{Value, datetime}
use tessaridb_sdk_python.Events.Quoting.{split_last}
use tessaridb_sdk_python.Json.Node.{Node, null, boolean, number, double, string, list, dict, Python}
use tessaridb_sdk_python.Json.Kinds.{
  Kind, integer_kind, decimal_kind, duration_kind, datetime_kind, Held, held,
}
use tessaridb_sdk_python.Json.Numbers.{
  negative, partition, int_of_text, ascii_space, read_decimal, from_hex, scaled, then_byte,
  hex_byte, hex_value,
}
use tessaridb_sdk_python.Json.Durations.{
  read_duration, read_datetime, normalised, floor_mod, magnitude, fraction_of, without_z, moment_of,
}
use tessaridb_sdk_python.Json.Reading.{unless_null, held_as, typed_int}
use tessaridb_sdk_python.Json.Fits.{
  IsBytes, Fits, a_null, an_integer, a_decimal, a_duration, a_datetime,
}

pub unless_null-OnOk :
    (k : Kind) (node : Node) (r : Result Held)
    → OnOk (Fits k) r
    → OnOk (Fits k) (unless_null node r)
unfolding unless_null
unless_null-OnOk k null r f = returned a_null
unless_null-OnOk k (boolean _) r f = f
unless_null-OnOk k (number _) r f = f
unless_null-OnOk k (double _) r f = f
unless_null-OnOk k (string _) r f = f
unless_null-OnOk k (list _) r f = f
unless_null-OnOk k (dict _) r f = f

-- Nothing is said of a result.
pub Any : {A : Type 0} (r : Result A) → OnOk {A = A} (λ a. Unit {0}) r
Any (ok a) = returned tt
Any (err e) = raised

module _ {A : Type 0} (k : Kind) (value : A → Value) {P : A → Type 0}
    (fits : (a : A) → P a → Fits k (held (value a))) where
  pub held_as-OnOk : (r : Result A) → OnOk P r → OnOk (Fits k) (held_as value r)
  unfolding held_as
  held_as-OnOk r f = OnOk-bind f (λ a p. returned (fits a p))

pub typed_int-OnOk : (node : Node) → OnOk (Fits integer_kind) (typed_int node)
unfolding typed_int
typed_int-OnOk (number n) = returned an_integer
typed_int-OnOk null = raised
typed_int-OnOk (boolean _) = raised
typed_int-OnOk (double _) = raised
typed_int-OnOk (string _) = raised
typed_int-OnOk (list _) = raised
typed_int-OnOk (dict _) = raised

abbrev pub IsHex : Option ℕ → Type 0
IsHex none = Unit
IsHex (some v) = v < 16

pub hex_value-IsHex : (c : ℕ) → IsHex (hex_value c)
unfolding hex_value
hex_value-IsHex c = ground arith

pub hex_byte-bound : (a b : Option ℕ) (v : ℕ) → IsHex a → IsHex b → hex_byte a b ≡ some v → v < 256
unfolding hex_byte
hex_byte-bound (some a) (some b) v h k e = ground arith
hex_byte-bound (some a) none v h k e = cc
hex_byte-bound none b v h k e = cc

pub then_byte-OnOk :
    (b : Option ℕ) (r : Result Bytes)
    → ((v : ℕ) → b ≡ some v → v < 256)
    → OnOk IsBytes r
    → OnOk IsBytes (then_byte b r)
unfolding then_byte
then_byte-OnOk (some v) (ok bs) h f = returned (h v refl, OnOk-apply f refl)
then_byte-OnOk (some v) (err e) h f = raised
then_byte-OnOk none r h f = raised

pub from_hex-OnOk : (s : Str) → OnOk IsBytes (from_hex s)
unfolding from_hex
from_hex-OnOk [] = returned tt
from_hex-OnOk (c ∷ []) = elim (Bool-cases (ascii_space c)) [
  | inl e ↦ rw e (returned tt)
  | inr e ↦ rw e raised
]
from_hex-OnOk (c ∷ d ∷ s) =
    let skipped = from_hex-OnOk (d ∷ s) in
    let rest = from_hex-OnOk s in
    OnOk-if _ (λ e. skipped)
      (λ e.
        then_byte-OnOk _ _ (λ v. hex_byte-bound _ _ v (hex_value-IsHex c) (hex_value-IsHex d)) rest)

pub OnOk-then :
    {A B : Type 0} {P : A → Type 0} {Q : B → Type 0} {f : B → Result A} (r : Result B)
    → OnOk Q r
    → ((b : B) → Q b → OnOk P (f b))
    → OnOk P (bind r f)
OnOk-then r h k = OnOk-bind h k

pub map-OnOk :
    {A B : Type 0} {P : A → Type 0} (f : B → A) (r : Result B)
    → ((b : B) → P (f b))
    → OnOk P (bind r (λ b. ok (f b)))
map-OnOk f (ok b) h = returned (h b)
map-OnOk f (err e) h = raised

abbrev pub Leaf : Kind → Value → Type 0
Leaf k v = Fits k (held v)

pub floor_mod-lt : (total : ℤ) → floor_mod total 1_000_000_000 < 1_000_000_000
unfolding floor_mod
floor_mod-lt (pos n) = omega arith
floor_mod-lt (negsuc n) = omega arith

pub scaled-OnOk : (m : Option ℤ) (scale : ℕ) → OnOk (Leaf decimal_kind) (scaled m scale)
unfolding scaled
scaled-OnOk none scale = raised
scaled-OnOk (some m) scale = returned a_decimal

pub normalised-Leaf : (total : ℤ) → Leaf duration_kind (normalised total)
unfolding normalised
normalised-Leaf total = a_duration (floor_mod-lt total)

module _ (py : Python) where
  pub read_decimal-OnOk : (s : Str) → OnOk (Leaf decimal_kind) (read_decimal py s)
  unfolding read_decimal
  read_decimal-OnOk s =
      let (whole, dot, fraction) = partition 46 s in
      scaled-OnOk (int_of_text py (whole ++ fraction)) (length fraction)

  pub read_duration-OnOk : (s : Str) → OnOk (Leaf duration_kind) (read_duration py s)
  unfolding read_duration
  read_duration-OnOk [] = raised
  read_duration-OnOk (c ∷ s) = elim (Bool-cases (c == 45)) [
    | inl e ↦ rw e (
        map-OnOk (λ n. normalised (negative n)) (magnitude py s)
          (λ n. normalised-Leaf (negative n)))
    | inr e ↦
        rw e
          (map-OnOk (λ n. normalised (pos n)) (magnitude py (c ∷ s)) (λ n. normalised-Leaf (pos n)))
  ]

  pub moment_of-OnOk :
      (before fraction : Str) (dot : Bool)
      → OnOk (Leaf datetime_kind) (moment_of py (before, dot, fraction))
  unfolding moment_of
  moment_of-OnOk before fraction dot = elim (Bool-cases (ltb 9 (length fraction))) [
    | inl e ↦ rw e raised
    | inr e ↦ elim (Option-cases (py.instant before)) [
      | inl missing ↦ rw (e, missing) raised
      | inr (at, found) ↦
          rw (e, found)
            (map-OnOk (λ n. datetime at n) (fraction_of py dot fraction) (λ n. a_datetime))
    ]
  ]

  pub read_datetime-OnOk : (s : Str) → OnOk (Leaf datetime_kind) (read_datetime py s)
  unfolding read_datetime without_z
  read_datetime-OnOk [] = raised
  read_datetime-OnOk (c ∷ s) =
      let (before, last) = split_last c s in
      let (whole, dot, fraction) = partition 46 before in
      elim (Bool-cases (last == 90)) [
        | inl e ↦ rw e (moment_of-OnOk whole fraction dot)
        | inr e ↦ rw e raised
      ]
