-- ===== src/Codec/RoundTrip/Objects.antt =====
-- The fields of an object are read back in the order in which they were written.
use tessaridb_sdk_python.Prelude.{
  ℕ, suc, ◌≡◌, ◌≢◌, sym, List, [], ◌∷◌, ◌++◌, length, append-nil, append_assoc,
}
use tessaridb_sdk_python.Result.{Str}
use tessaridb_sdk_python.Dict.{dict_set, dict_set-Fresh, Fresh, Distinct}
use tessaridb_sdk_python.Dict.Sorted.{Alike, none_alike, item_alike}
use tessaridb_sdk_python.Value.{Value}
use tessaridb_sdk_python.Bytes.Reads.{Reads, Reads-bind}
use tessaridb_sdk_python.Bytes.RoundTrip.{text-Reads}
use tessaridb_sdk_python.Bytes.Writer.{Put, ◌⨾◌, text}
use tessaridb_sdk_python.Bytes.Reader.{Get, ◌>>=◌}
use tessaridb_sdk_python.Codec.Encode.{put_fields}
use tessaridb_sdk_python.Codec.Decode.{get_fields}

-- No name of `items` is a key of `fields`.
abbrev pub Apart : List (Str × Value) → List (Str × Value) → Type 0
Apart fields [] = Unit
Apart fields ((name, v) ∷ items) = Fresh name fields × Apart fields items

Fresh-snoc :
    (name other : Str) (v : Value) (fields : List (Str × Value))
    → Fresh name fields
    → other ≢ name
    → Fresh name (fields ++ (other, v) ∷ [])
Fresh-snoc name other v [] h ne = (ne, tt)
Fresh-snoc name other v ((key, w) ∷ fields) h ne = (h.0, Fresh-snoc name other v fields h.1 ne)

Apart-snoc :
    (name : Str) (v : Value) (fields items : List (Str × Value))
    → Apart fields items
    → Fresh name items
    → Apart (fields ++ (name, v) ∷ []) items
Apart-snoc name v fields [] h fresh = tt
Apart-snoc name v fields ((key, w) ∷ items) h fresh = (
  Fresh-snoc key name v fields h.0 (λ e. fresh.0 (sym e)),
  Apart-snoc name v fields items h.1 fresh.1,
)

pub Apart-nil : (items : List (Str × Value)) → Apart [] items
Apart-nil [] = tt
Apart-nil ((name, v) ∷ items) = (tt, Apart-nil items)

-- One field, and then the others on the dictionary that it left.
Reads-field :
    {n : ℕ} (nested : Get Value) (k : ℕ) (fields : List (Str × Value)) (name : Str) {w w' : Put}
    {v : Value} {all : List (Str × Value)}
    → Reads n w nested v
    → Reads n w' (get_fields nested k (dict_set name v fields)) all
    → Reads n (text name ⨾ w ⨾ w') (get_fields nested (suc k) fields) all
unfolding get_fields ◌>>=◌
Reads-field nested k fields name r others = record {
  at =
      (Reads-bind (λ key. nested >>= λ v. get_fields nested k (dict_set key v fields))
        (text-Reads name)
        (Reads-bind (λ v. get_fields nested k (dict_set name v fields)) r others)).at;
}

pub get_fields-Reads :
    {n : ℕ} (nested : Get Value) {puts : List (Str × Put)} {items : List (Str × Value)}
    (fields : List (Str × Value))
    → Alike (λ w v. Reads n w nested v) puts items
    → Distinct items
    → Apart fields items
    → Reads n (put_fields puts) (get_fields nested (length puts) fields) (fields ++ items)
unfolding put_fields get_fields
get_fields-Reads nested fields none_alike d apart = record {
  at = λ bs rest h le. let none_written : bs ≡ [] = cc in rw (none_written, append-nil);
}
get_fields-Reads {n} nested fields (item_alike {name} {a} {b = v} {xs} {ys} r rest) d apart =
    let appended = dict_set-Fresh name v fields apart.0 in
    let apart' : Apart (dict_set name v fields) ys =
      rw appended (Apart-snoc name v fields ys apart.1 d.0) in
    let added : dict_set name v fields ++ ys ≡ fields ++ (name, v) ∷ ys =
      rw appended (append_assoc fields ((name, v) ∷ []) ys) in
    let others : Reads n (put_fields xs) (get_fields nested (length xs) (dict_set name v fields))
        (fields ++ (name, v) ∷ ys) =
      rw (← added) (get_fields-Reads nested (dict_set name v fields) rest d.1 apart') in
    Reads-field nested (length xs) fields name r others
