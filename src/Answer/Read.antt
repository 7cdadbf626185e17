-- ===== src/Answer/Read.antt =====
-- _answer.py. The readers take the bytes of one outcome, and cannot read into the next.
use tessaridb_sdk_python.Prelude.{ℕ, zero, suc, false, not, List, [], ◌∷◌, ltb, ◌==◌, if◌then◌else◌}
use tessaridb_sdk_python.Result.{Bytes, Str, Result, ok, bind, malformed}
use tessaridb_sdk_python.Value.{Value}
use tessaridb_sdk_python.Bytes.Reader.{
  Get, pure, ◌>>=◌, exhausted, u8, u32, u64, fixed, lenbytes, text,
}
use tessaridb_sdk_python.Codec.Decode.{fail, counted, decode}
use tessaridb_sdk_python.Answer.Outcome.{
  AccessPath, record_path, index, scan, ordered, approximate, graph, join, materialised, span, Note,
  exact, inexact, unstated, Correction, Suggestion, not_consulted, complete, corrections, Row,
  Names, Records, Outcome, done, records, value_outcome, keys, removed, unknown_outcome,
}

abbrev access_paths : List AccessPath
access_paths =
    record_path ∷ index ∷ scan ∷ ordered ∷ approximate ∷ graph ∷ join ∷ materialised ∷ span ∷ []

-- `paths[byte]`, and `scan` past the end.
unfoldable pub path_at : List AccessPath → ℕ → AccessPath
path_at [] byte = scan
path_at (path ∷ paths) zero = path
path_at (path ∷ paths) (suc byte) = path_at paths byte

-- `names[table] = name`.
unfoldable pub set_name : ℕ → Str → Names → Names
set_name table name [] = (table, name) ∷ []
set_name table name ((other, old) ∷ names) =
    if other == table then (other, name) ∷ names else (other, old) ∷ set_name table name names

-- The loop of `_names`.
unfoldable pub get_names : ℕ → Names → Get Names
get_names zero names r = ok (names, r)
get_names (suc count) names r =
    bind (u32 r)
      λ (table, r₁). bind (text r₁) λ (name, r₂). get_names count (set_name table name names) r₂

unfoldable pub names : Get Names
names = do count ← u32; get_names count []

-- `decode(r.lenbytes())`.
unfoldable pub held : Bytes → Get Value
held bs r = bind (decode bs) λ v. ok (v, r)

unfoldable pub nested_value : Get Value
nested_value = do bs ← lenbytes; held bs

unfoldable pub row : Get Row
row = do identity ← text; value ← nested_value; pure (record { identity = identity; value = value })

unfoldable pub note : Get Note
note = do kind ← text; message ← text; pure (record { kind = kind; message = message })

unfoldable pub correction : Get Correction
correction = do typed ← text; instead ← text; pure (record { typed = typed; instead = instead })

unfoldable pub get_suggestion : ℕ → Get Suggestion
get_suggestion state =
    if state == 1
    then pure complete
    else if state == 2
    then counted correction >>= (λ items. pure (corrections items))
    else pure not_consulted

unfoldable pub suggestion : Get Suggestion
suggestion = do state ← u8; get_suggestion state

-- A field that may be absent: what was read so far when the body ends here.
unfoldable pub or_end : Records → Get Records → Get Records
or_end so_far more r = if exhausted r then ok (so_far, r) else more r

unfoldable pub with_suggestion : Records → Get Records
with_suggestion so_far = or_end so_far (suggestion >>= λ s. pure (record so_far { suggestion = s }))

unfoldable pub with_exactness : Records → Get Records
with_exactness so_far = or_end so_far (
    u8 >>= λ byte. text >>= λ reason.
    with_suggestion (record so_far { exactness = if byte == 0 then exact else inexact reason }))

unfoldable pub with_only : Records → Get Records
with_only so_far =
    or_end so_far (u8 >>= λ byte. with_exactness (record so_far { only = not (byte == 0) }))

unfoldable pub with_notes : Records → Get Records
with_notes so_far =
    or_end so_far (counted note >>= λ notes. with_only (record so_far { notes = notes }))

unfoldable pub get_records : Get Records
get_records = do
  byte ← u8
  ns ← names
  rows ← counted row
  with_notes (record {
    path = path_at access_paths byte;
    names = ns;
    rows = rows;
    notes = [];
    only = false;
    exactness = unstated;
    suggestion = not_consulted;
  })

-- The dispatch of `_outcome`; the rest of the bytes is the reader's, and `raw[1:]`.
unfoldable pub get_outcome : ℕ → Get Outcome
get_outcome t =
    if t == 0
    then pure done
    else if t == 1
    then get_records >>= (λ answer. pure (records answer))
    else if t == 2
    then names >>= (λ ns. nested_value >>= (λ v. pure (value_outcome ns v)))
    else if t == 3
    then counted text >>= (λ texts. pure (keys texts))
    else if t == 4
    then u64 >>= (λ count. pure (removed count))
    else (λ r. ok (unknown_outcome t r, r))

unfoldable pub outcome : Bytes → Result Outcome
outcome raw = bind ((u8 >>= get_outcome) raw) λ (o, rest). ok o

-- The outcome in a body of this length.
unfoldable pub get_body : ℕ → Get Outcome
get_body size =
    if ltb size 1
    then fail malformed
    else fixed size >>= (λ raw r. bind (outcome raw) λ o. ok (o, r))

unfoldable pub next_outcome : Get Outcome
next_outcome = do size ← u32; get_body size

-- Bytes behind the last outcome are left alone.
unfoldable pub read_answer : Bytes → Result (List Outcome)
read_answer body = bind (counted next_outcome body) λ (outcomes, rest). ok outcomes
