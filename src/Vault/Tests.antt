-- ===== src/Vault/Tests.antt =====
-- Concrete vault frames.
use tessaridb_sdk_python.Prelude.{◌≡◌, refl, Option, none, some, [], ◌∷◌}
use tessaridb_sdk_python.Result.{Bytes, ok}
use tessaridb_sdk_python.Bytes.Endian.{to_bytes}
use tessaridb_sdk_python.Bytes.Utf8.{encode_utf8, encode_char}
use tessaridb_sdk_python.Bytes.Writer
use tessaridb_sdk_python.Bytes.Writer.{◌⨾◌}
use tessaridb_sdk_python.Connection.Session.{put_credentials}
use tessaridb_sdk_python.Text.{chars}
use tessaridb_sdk_python.Vault.Frame.{unseal_act, Place, put_place, put_act, frame_body}
use tessaridb_sdk_python.Vault.ReadBack.{read_vault_body, read_vault_body-frame_body}

abbrev keys_vault : Option Place
keys_vault = some (chars "n", chars "d", chars "keys")

abbrev unseal_bytes : Bytes
unseal_bytes =
    0 ∷ 1 ∷ 0 ∷ 0 ∷ 0 ∷ 1 ∷ 110 ∷ 0 ∷ 0 ∷ 0 ∷ 1 ∷ 100 ∷ 0 ∷ 0 ∷ 0 ∷ 4 ∷ 107 ∷ 101 ∷ 121 ∷ 115 ∷ 2
    ∷ 0 ∷ 0 ∷ 0 ∷ 2 ∷ 112 ∷ 119 ∷ []

frame_body-unseal : frame_body (unseal_act (chars "pw")) keys_vault none ≡ ok unseal_bytes
unfolding frame_body put_place put_act put_credentials ◌⨾◌ Writer.u8 Writer.u32 Writer.text
    Writer.lenbytes Writer.raw encode_utf8 encode_char to_bytes
frame_body-unseal = refl

read_vault_body-frame_body_example :
    read_vault_body unseal_bytes ≡ ok ((none, keys_vault, unseal_act (chars "pw")), [])
read_vault_body-frame_body_example =
    read_vault_body-frame_body (unseal_act (chars "pw")) keys_vault none unseal_bytes
      frame_body-unseal
