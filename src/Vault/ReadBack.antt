-- ===== src/Vault/ReadBack.antt =====
-- A reader of the body of a vault frame, as a node needs one.
use tessaridb_sdk_python.Prelude.{
  ℕ, zero, suc, ◌≡◌, refl, sym, ap, ◌∙◌, Option, none, some, [], append-nil, arith, length, pos,
}
use tessaridb_sdk_python.Result.{Bytes, Str, ok, err, malformed}
use tessaridb_sdk_python.Bytes.Writer
use tessaridb_sdk_python.Bytes.Writer.{Put, ◌⨾◌}
use tessaridb_sdk_python.Bytes.Reader
use tessaridb_sdk_python.Bytes.Reader.{Get, pure, ◌>>=◌}
use tessaridb_sdk_python.Bytes.Reads.{Reads, Reads-bind, Reads-map}
use tessaridb_sdk_python.Bytes.RoundTrip.{u8-Reads, text-Reads}
use tessaridb_sdk_python.Connection.Session.{put_credentials}
use tessaridb_sdk_python.Vault.Frame.{
  Act, status_act, seal_act, unseal_act, declare_act, change_act, Place, put_place, put_act,
  frame_body,
}

abbrev pub Credentials : Type 0
Credentials = Option (Str × Str)

unfoldable pub credentials_by : ℕ → Get Credentials
credentials_by zero = pure none
credentials_by (suc zero) =
    Reader.text >>= λ user. Reader.text >>= λ password. pure (some (user, password))
credentials_by _ = λ bs. err malformed

unfoldable pub place_by : ℕ → Get (Option Place)
place_by zero = pure none
place_by (suc zero) = Reader.text >>= λ namespace.
    Reader.text >>= λ database. Reader.text >>= λ vault. pure (some (namespace, database, vault))
place_by _ = λ bs. err malformed

unfoldable pub act_by : ℕ → Get Act
act_by (suc zero) = pure status_act
act_by (suc (suc zero)) = Reader.text >>= λ passphrase. pure (unseal_act passphrase)
act_by (suc (suc (suc zero))) = pure seal_act
act_by (suc (suc (suc (suc zero)))) =
    Reader.text >>= λ current. Reader.text >>= λ new. pure (change_act current new)
act_by (suc (suc (suc (suc (suc zero))))) =
    Reader.text >>= λ passphrase. pure (declare_act passphrase)
act_by _ = λ bs. err malformed

-- The credentials, the vault and the act of a frame.
unfoldable pub read_vault_body : Get (Credentials × Option Place × Act)
unfolding credentials_by place_by act_by
read_vault_body = (Reader.u8 >>= credentials_by) >>= λ credentials.
    (Reader.u8 >>= place_by) >>= λ place.
    (Reader.u8 >>= act_by) >>= λ act. pure (credentials, place, act)

module _ {n : ℕ} where
  -- A byte that nothing follows.
  alone :
      {A : Type 0} (f : ℕ → Get A) (t : ℕ) (a : A)
      → ((bs : Bytes) → f t bs ≡ ok (a, bs))
      → Reads n (Writer.u8 (pos t)) (Reader.u8 >>= f) a
  unfolding ◌>>=◌
  alone f t a ends = record {
    at = λ bs rest h le. rw ((u8-Reads {n = n} t).at bs rest h le) (ends rest);
  }

  credentials-Reads :
      (credentials : Credentials)
      → Reads n (put_credentials credentials) (Reader.u8 >>= credentials_by) credentials
  unfolding put_credentials credentials_by
  credentials-Reads none = alone credentials_by 0 none (λ bs. refl)
  credentials-Reads (some (user, password)) =
      Reads-bind credentials_by (u8-Reads 1)
        (Reads-bind _ (text-Reads user) (Reads-map (λ p. some (user, p)) (text-Reads password)))

  place-Reads :
      (act : Act) (place : Option Place)
      → Reads n (put_place act place) (Reader.u8 >>= place_by) place
  unfolding put_place place_by
  place-Reads (declare_act passphrase) none = record { at = λ bs rest h le. cc }
  place-Reads status_act none = alone place_by 0 none (λ bs. refl)
  place-Reads seal_act none = alone place_by 0 none (λ bs. refl)
  place-Reads (unseal_act passphrase) none = alone place_by 0 none (λ bs. refl)
  place-Reads (change_act current new) none = alone place_by 0 none (λ bs. refl)
  place-Reads act (some (namespace, database, vault)) =
      rw (place_text act namespace database vault) (
        Reads-bind place_by (u8-Reads 1) (
          Reads-bind _ (text-Reads namespace) (
            Reads-bind _ (text-Reads database)
              (Reads-map (λ v. some (namespace, database, v)) (text-Reads vault)))))
    where
      place_text :
          (act : Act) (namespace database vault : Str)
          → put_place act (some (namespace, database, vault))
            ≡ (Writer.u8 (pos 1) ⨾ Writer.text namespace ⨾ Writer.text database ⨾ Writer.text vault)
      place_text (declare_act passphrase) n d v = refl
      place_text _ n d v = refl

  act-Reads : (act : Act) → Reads n (put_act act) (Reader.u8 >>= act_by) act
  unfolding put_act act_by
  act-Reads status_act = alone act_by 1 status_act (λ bs. refl)
  act-Reads seal_act = alone act_by 3 seal_act (λ bs. refl)
  act-Reads (unseal_act passphrase) =
      Reads-bind act_by (u8-Reads 2) (Reads-map unseal_act (text-Reads passphrase))
  act-Reads (declare_act passphrase) =
      Reads-bind act_by (u8-Reads 5) (Reads-map declare_act (text-Reads passphrase))
  act-Reads (change_act current new) =
      Reads-bind act_by (u8-Reads 4)
        (Reads-bind _ (text-Reads current) (Reads-map (λ p. change_act current p) (text-Reads new)))

  frame_body-Reads :
      (act : Act) (place : Option Place) (credentials : Credentials)
      → Reads n (frame_body act place credentials) read_vault_body (credentials, place, act)
  unfolding frame_body read_vault_body
  frame_body-Reads act place credentials = Reads-bind _ (credentials-Reads credentials) (
      Reads-bind _ (place-Reads act place)
        (Reads-map (λ a. (credentials, place, a)) (act-Reads act)))

-- The body of a vault frame, where it can be written, is read back as the credentials, the vault and
-- the act that it was made of, with nothing left: no passphrase is taken for another field.
pub read_vault_body-frame_body :
    (act : Act) (place : Option Place) (credentials : Credentials) (bs : Bytes)
    → frame_body act place credentials ≡ ok bs
    → read_vault_body bs ≡ ok ((credentials, place, act), [])
read_vault_body-frame_body act place credentials bs h =
    ap read_vault_body (sym (append-nil bs))
    ∙ (frame_body-Reads {n = length bs} act place credentials).at bs [] h (omega arith)
