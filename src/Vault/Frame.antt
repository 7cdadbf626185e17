-- ===== src/Vault/Frame.antt =====
-- `frame_body` of _vault_frame.py.
use tessaridb_sdk_python.Prelude.{pos, Option, none, some}
use tessaridb_sdk_python.Result.{Str, err, value_error}
use tessaridb_sdk_python.Bytes.Writer
use tessaridb_sdk_python.Bytes.Writer.{Put, ◌⨾◌}
use tessaridb_sdk_python.Connection.Session.{put_credentials}

-- The acts with their fields; a passphrase that was left out is the empty one.
pub data Act : Type 0 where
  status_act seal_act : Act
  unseal_act declare_act : Str → Act
  change_act : Str → Str → Act

-- A namespace, a database and a vault in it.
abbrev pub Place : Type 0
Place = Str × Str × Str

unfoldable pub put_place : Act → Option Place → Put
put_place (declare_act passphrase) none = err value_error
put_place act none = Writer.u8 (pos 0)
put_place act (some (namespace, database, vault)) =
    Writer.u8 (pos 1) ⨾ Writer.text namespace ⨾ Writer.text database ⨾ Writer.text vault

-- The number of the act in `_ACTS`, and its fields.
unfoldable pub put_act : Act → Put
put_act status_act = Writer.u8 (pos 1)
put_act (unseal_act passphrase) = Writer.u8 (pos 2) ⨾ Writer.text passphrase
put_act seal_act = Writer.u8 (pos 3)
put_act (change_act current new) = Writer.u8 (pos 4) ⨾ Writer.text current ⨾ Writer.text new
put_act (declare_act passphrase) = Writer.u8 (pos 5) ⨾ Writer.text passphrase

unfoldable pub frame_body : Act → Option Place → Option (Str × Str) → Put
unfolding put_place put_act
frame_body act place credentials = put_credentials credentials ⨾ put_place act place ⨾ put_act act
