-- ===== src/Connection/Messages.antt =====
-- The bodies that connection.py reads: `_elsewhere`, `_change` and `_progress`.
use tessaridb_sdk_python.Prelude.{
  ℕ, Bool, true, false, Option, none, some, List, ◌==◌, if◌then◌else◌,
}
use tessaridb_sdk_python.Result.{Bytes, Str, Result, ok, bind, malformed}
use tessaridb_sdk_python.Value.{Value}
use tessaridb_sdk_python.Bytes.Reader.{Get, pure, ◌>>=◌, exhausted, u8, u64, fixed, text}
use tessaridb_sdk_python.Codec.Decode.{fail}
use tessaridb_sdk_python.Answer.Outcome.{Outcome}
use tessaridb_sdk_python.Answer.Read.{nested_value}

pub data Settlement : Type 0 where
  settled transient : Settlement

pub record Elsewhere : Type 0 where
  pub node : Bytes
  pub epoch : ℕ
  pub settlement : Settlement
  pub endpoint : Str

pub record Reply : Type 0 where
  pub outcomes : List Outcome
  pub redirect : Option Elsewhere

-- `written` has the fields `removed` and `value` of `Change`: no value for a removal.
pub record Change : Type 0 where
  pub sequence : ℕ
  pub table : Str
  pub identity : Str
  pub removed : Bool
  pub value : Option Value
  pub cursor : Option Str

pub record Progress : Type 0 where
  pub sequence : ℕ
  pub cursor : Option Str

-- The reader's result without what it left.
unfoldable pub run {ℓ} : {A : Type ℓ} → Get A → Bytes → Result A
run p body = bind (p body) λ (a, rest). ok a

unfoldable pub get_settlement : ℕ → Get Settlement
get_settlement byte =
    if byte == 1 then pure settled else if byte == 2 then pure transient else fail malformed

unfoldable pub read_elsewhere : Bytes → Result Elsewhere
read_elsewhere = run (do
  node ← fixed 16
  epoch ← u64
  byte ← u8
  settlement ← get_settlement byte
  endpoint ← text
  pure (record { node = node; epoch = epoch; settlement = settlement; endpoint = endpoint }))

-- `None if r.exhausted else r.text()`.
unfoldable pub cursor_at_end : Get (Option Str)
cursor_at_end r = if exhausted r then ok (none, r) else (text >>= λ cursor. pure (some cursor)) r

-- Whether the record was removed, and its value.
unfoldable pub get_fate : ℕ → Get (Bool × Option Value)
get_fate fate =
    if fate == 0
    then nested_value >>= (λ v. pure (false, some v))
    else if fate == 1
    then pure (true, none)
    else fail malformed

unfoldable pub read_change : Bytes → Result Change
read_change = run (do
  sequence ← u64
  table ← text
  identity ← text
  byte ← u8
  fate ← get_fate byte
  cursor ← cursor_at_end
  pure (record {
    sequence = sequence;
    table = table;
    identity = identity;
    removed = fate.0;
    value = fate.1;
    cursor = cursor;
  }))

unfoldable pub read_progress : Bytes → Result Progress
read_progress = run (do
  sequence ← u64
  cursor ← cursor_at_end
  pure (record { sequence = sequence; cursor = cursor }))
