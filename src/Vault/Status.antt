-- ===== src/Vault/Status.antt =====
-- `VaultStatus.read` of _vault_frame.py. How Python makes a moment of seconds and nanoseconds since
-- the epoch, and a period of a duration, are parameters.
use tessaridb_sdk_python.Prelude.{ℤ, Bool, false, Option, none, some, List, if◌then◌else◌}
use tessaridb_sdk_python.Result.{Str, Result, ok, err, bind, malformed}
use tessaridb_sdk_python.Value.{
  Value, none_value, bool, text, duration, datetime, object, fields_list,
}
use tessaridb_sdk_python.Dict.{str_eq, dict_get}
use tessaridb_sdk_python.Text.{chars}

pub data SealState : Type 0 where
  uninitialised sealed unsealed : SealState

pub data Custody : Type 0 where
  own store : Custody

unfoldable pub seal_state : Str → Result SealState
seal_state word =
    if str_eq word (chars "uninitialised")
    then ok uninitialised
    else if str_eq word (chars "sealed")
    then ok sealed
    else if str_eq word (chars "unsealed")
    then ok unsealed
    else err malformed

unfoldable pub custody_of : Option Value → Result (Option Custody)
custody_of none = ok none
custody_of (some (text word)) =
    if str_eq word (chars "own")
    then ok (some own)
    else if str_eq word (chars "store")
    then ok (some store)
    else err malformed
custody_of _ = err malformed

-- `fields.get("initialised") == Bool(True)`.
unfoldable pub is_true : Option Value → Bool
is_true (some (bool b)) = b
is_true _ = false

pub record VaultStatus (M P : Type 0) : Type 0 where
  pub state : SealState
  pub seals_at : Option M
  pub unseal_for : P
  pub initialised : Bool
  pub custody : Option Custody

module _ {M P : Type 0} (moment : ℤ → ℤ → Result M) (period : ℤ → ℤ → Result P) where
  unfoldable pub closing_time : Option Value → Result (Option M)
  closing_time none = ok none
  closing_time (some none_value) = ok none
  closing_time (some (datetime seconds nanos)) = bind (moment seconds nanos) λ at. ok (some at)
  closing_time _ = err malformed

  -- Whether `custody` is a string or missing, which is looked at before the words are.
  unfoldable pub custody_text : Option Value → Result (Option Value)
  custody_text none = ok none
  custody_text (some (text word)) = ok (some (text word))
  custody_text _ = err malformed

  unfoldable pub with_state :
      List (Str × Value) → Option Value → Option Value → Result (VaultStatus M P)
  unfolding closing_time custody_text
  with_state fields (some (text word)) (some (duration seconds nanos)) =
      bind (closing_time (dict_get (chars "seals_at") fields)) λ at.
        bind (custody_text (dict_get (chars "custody") fields)) λ custody.
          bind (seal_state word) λ state. bind (period seconds nanos) λ lasting.
            bind (custody_of custody) λ held_by. ok (record {
              state = state;
              seals_at = at;
              unseal_for = lasting;
              initialised = is_true (dict_get (chars "initialised") fields);
              custody = held_by;
            })
  with_state fields _ _ = err malformed

  unfoldable pub read_status : Value → Result (VaultStatus M P)
  unfolding with_state
  read_status (object fields) =
      with_state (fields_list fields) (dict_get (chars "state") (fields_list fields))
        (dict_get (chars "unseal_for") (fields_list fields))
  read_status _ = err malformed
