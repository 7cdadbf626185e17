-- ===== src/Vault/Operations.antt =====
-- The acts of vault.py over a connection, and the operations of `Vault` over what it executes.
use tessaridb_sdk_python.Prelude.{ℕ, ℤ, Option, none, some, List, [], ◌∷◌, ltb, if◌then◌else◌}
use tessaridb_sdk_python.Result.{Bytes, Str, Result, ok, err, bind, malformed, node_too_old}
use tessaridb_sdk_python.Value.{Value, none_value, bytes, array, object, fields_list, items_list}
use tessaridb_sdk_python.Dict.{dict_get}
use tessaridb_sdk_python.Text.{chars}
use tessaridb_sdk_python.Query.Filter.{Binder}
use tessaridb_sdk_python.Answer.Outcome.{Outcome, value_outcome}
use tessaridb_sdk_python.Connection.Messages.{Reply}
use tessaridb_sdk_python.Connection.Session.{Connection, Session, vault_call}
use tessaridb_sdk_python.Worker.Answers.{answered_by}
use tessaridb_sdk_python.Vault.Frame.{
  Act, status_act, seal_act, unseal_act, declare_act, change_act, Place, frame_body,
}
use tessaridb_sdk_python.Vault.Status.{VaultStatus, read_status}
use tessaridb_sdk_python.Vault.Statements.{
  Statement, Statements, list_statement, reveal_statement, write_statement, recipients_statement,
  add_recipient_statement, remove_recipient_statement, audit_statement,
}

abbrev pub declare_minor : ℕ
declare_minor = 6

module _ {M P : Type 0} (moment : ℤ → ℤ → Result M) (period : ℤ → ℤ → Result P) where
  unfoldable pub status_read : Result Value × Connection → Result (VaultStatus M P) × Connection
  status_read (r, c) = (bind r (read_status moment period), c)

  -- `_act`, and the acts on the store, which name no vault.
  unfoldable pub act : Act → Option Place → Session (VaultStatus M P)
  unfolding status_read
  act a place c = status_read (vault_call (frame_body a place) c)

  unfoldable pub vault_status : Session (VaultStatus M P)
  unfolding act
  vault_status = act status_act none

  unfoldable pub unseal : Str → Session (VaultStatus M P)
  unfolding act
  unseal passphrase = act (unseal_act passphrase) none

  unfoldable pub seal : Session (VaultStatus M P)
  unfolding act
  seal = act seal_act none

  unfoldable pub change_passphrase : Str → Str → Session (VaultStatus M P)
  unfolding act
  change_passphrase current new = act (change_act current new) none

  -- The acts on one vault.
  unfoldable pub status_of : Place → Session (VaultStatus M P)
  unfolding act
  status_of place = act status_act (some place)

  unfoldable pub unseal_vault : Place → Str → Session (VaultStatus M P)
  unfolding act
  unseal_vault place passphrase = act (unseal_act passphrase) (some place)

  unfoldable pub seal_vault : Place → Session (VaultStatus M P)
  unfolding act
  seal_vault place = act seal_act (some place)

  unfoldable pub change_vault : Place → Str → Str → Session (VaultStatus M P)
  unfolding act
  change_vault place current new = act (change_act current new) (some place)

  -- `Vault.declare`.
  unfoldable pub declare : Str → Place → Session (VaultStatus M P)
  unfolding act
  declare passphrase place c =
      if ltb c.minor declare_minor
      then (err (node_too_old c.minor declare_minor), c)
      else act (declare_act passphrase) (some place) c

-- `_value`.
unfoldable pub vault_answer : Option Outcome → Result Value
vault_answer (some (value_outcome names v)) = ok v
vault_answer _ = err malformed

pub record Page : Type 0 where
  pub ids : List Value
  pub next_id : Option Value

unfoldable pub following : Option Value → Option Value
following none = none
following (some none_value) = none
following (some v) = some v

unfoldable pub array_of : Option Value → Result (List Value)
array_of (some (array items)) = ok (items_list items)
array_of _ = err malformed

unfoldable pub page_of : Value → Result Page
unfolding following array_of
page_of (object fields) = bind (array_of (dict_get (chars "records") (fields_list fields))) λ ids.
    ok (record { ids = ids; next_id = following (dict_get (chars "next") (fields_list fields)) })
page_of _ = err malformed

unfoldable pub audit_of : Value → Result (List Value)
unfolding array_of
audit_of (object fields) = array_of (dict_get (chars "audit") (fields_list fields))
audit_of _ = err malformed

unfoldable pub revealed_of : Value → Result (List (Str × Value))
revealed_of (object fields) = ok (fields_list fields)
revealed_of _ = err malformed

unfoldable pub bytes_of : Value → Result Bytes
bytes_of (bytes bs) = ok bs
bytes_of _ = err malformed

unfoldable pub each_key : List (Str × Value) → Result (List (Str × Bytes))
unfolding bytes_of
each_key [] = ok []
each_key ((name, key) ∷ fields) =
    bind (bytes_of key) λ bs. bind (each_key fields) λ others. ok ((name, bs) ∷ others)

unfoldable pub held_keys : Option Value → Result (List (Str × Bytes))
unfolding each_key
held_keys (some (object fields)) = each_key (fields_list fields)
held_keys _ = err malformed

unfoldable pub recipients_of : Value → Result (List (Str × Bytes))
unfolding held_keys
recipients_of (object fields) = held_keys (dict_get (chars "recipients") (fields_list fields))
recipients_of _ = err malformed

module _ {S : Type 0} (execute : Str → Binder → S → Result Reply × S) where
  unfoldable pub run_statement : Result Statement → S → Result Reply × S
  run_statement (ok (script, given)) s = execute script given s
  run_statement (err e) s = (err e, s)

  -- A statement whose answer is a value, and what is made of it.
  unfoldable pub read_value :
      {A : Type 0} → (Value → Result A) → Result Statement → S → Result A × S
  unfolding run_statement
  read_value take statement s =
      answered_by (λ o. bind (vault_answer o) take) (run_statement statement s)

  unfoldable pub carry_out : Result Statement → S → Result (Unit {0}) × S
  unfolding run_statement
  carry_out statement s = let (r, s') = run_statement statement s in (bind r (λ reply. ok tt), s')

  unfoldable pub vault_audit : Str → Str → Option Str → S → Result (List Value) × S
  unfolding read_value
  vault_audit namespace database by = read_value audit_of (audit_statement namespace database by)

  unfoldable pub list_page : Statements → Option Value → Option ℤ → S → Result Page × S
  unfolding read_value
  list_page w after limit = read_value page_of (list_statement w after limit)

  unfoldable pub reveal : Statements → Value → List Str → S → Result (List (Str × Value)) × S
  unfolding read_value
  reveal w id fields = read_value revealed_of (reveal_statement w id fields)

  unfoldable pub write_record : Statements → Value → List (Str × Value) → S → Result (Unit {0}) × S
  unfolding carry_out
  write_record w id fields = carry_out (write_statement w id fields)

  unfoldable pub recipients : Statements → Value → S → Result (List (Str × Bytes)) × S
  unfolding read_value
  recipients w id = read_value recipients_of (ok (recipients_statement w id))

  unfoldable pub add_recipient : Statements → Value → Str → Bytes → S → Result (Unit {0}) × S
  unfolding carry_out
  add_recipient w id name key = carry_out (ok (add_recipient_statement w id name key))

  unfoldable pub remove_recipient : Statements → Value → Str → S → Result (Unit {0}) × S
  unfolding carry_out
  remove_recipient w id name = carry_out (ok (remove_recipient_statement w id name))
