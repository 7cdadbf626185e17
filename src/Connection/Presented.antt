-- ===== src/Connection/Presented.antt =====
-- The credentials of a connection in the frames of its requests.
use tessaridb_sdk_python.Prelude.{
  ℕ, ◌≤◌, ◌≡◌, refl, true, false, Bool-cases, inl, inr, Option, none, some, [], ◌∷◌, ◌++◌, length,
  ℤ, pos, leb_ℤ, ◌&&◌,
}
use tessaridb_sdk_python.Result.{Bytes, Str, Result, ok, err, bind-eq-ok, ok-injective}
use tessaridb_sdk_python.Bytes.Endian.{to_bytes}
use tessaridb_sdk_python.Bytes.Utf8.{encode_utf8}
use tessaridb_sdk_python.Bytes.Writer
use tessaridb_sdk_python.Bytes.Writer.{◌⨾◌}
use tessaridb_sdk_python.Frames.Framing.{ceiling, request, frame}
use tessaridb_sdk_python.Connection.Session.{
  Connection, Parameters, owes, or_empty, put_credentials, put_parameters, finish_request,
  request_body, ask,
}
use tessaridb_sdk_python.Connection.Sending.{ask-sent}
use tessaridb_sdk_python.Connection.Credentials.{ask-owes}

-- A text in UTF-8, behind the number of its bytes.
abbrev pub IsText : Str → Bytes → Type 0
IsText s bs = (raw : Bytes) × (encode_utf8 s ≡ ok raw) × (bs ≡ to_bytes 4 (length raw) ++ raw)

-- A name and a password behind a one, or a zero.
abbrev pub IsCredentials : Option (Str × Str) → Bytes → Type 0
IsCredentials none bs = bs ≡ 0 ∷ []
IsCredentials (some (user, password)) bs =
    (name secret : Bytes) × IsText user name × IsText password secret × (bs ≡ 1 ∷ (name ++ secret))

-- The body of a request: its script, who asks, and its parameters.
abbrev pub IsRequest : Str → Option (Str × Str) → Parameters → Bytes → Type 0
IsRequest script who parameters body =
    (text credentials given : Bytes) × IsText script text
    × IsCredentials who credentials
    × (put_parameters parameters ≡ ok given)
    × (body ≡ (text ++ credentials) ++ given)

u32-eq-ok : (n : ℕ) (bs : Bytes) → Writer.u32 (pos n) ≡ ok bs → bs ≡ to_bytes 4 n
unfolding Writer.u32 Writer.check
u32-eq-ok n bs h =
    let (v, e, h') = bind-eq-ok (Writer.check (pos n) (pos 0) (pos Writer.uint32_max)) _ h in
    elim (Bool-cases (leb_ℤ (pos 0) (pos n) && leb_ℤ (pos n) (pos Writer.uint32_max))) [
      | inl fits ↦
          let as_it_is : ◌≡◌ {A = Result ℤ} (ok (pos n)) (ok v) = rw fits at e in
          rw (← ok-injective h', ← ok-injective as_it_is) refl
      | inr not ↦ let refused = rw not at e in cc
    ]

⨾-eq-ok :
    (a b : Result Bytes) (bs : Bytes)
    → (a ⨾ b) ≡ ok bs
    → (x y : Bytes) × (a ≡ ok x) × (b ≡ ok y) × (bs ≡ x ++ y)
unfolding ◌⨾◌
⨾-eq-ok a b bs h =
    let (x, e, h') = bind-eq-ok a _ h in
    let (y, f, h'') = bind-eq-ok b _ h' in (x, y, e, f, rw (ok-injective h'') refl)

text-IsText : (s : Str) (bs : Bytes) → Writer.text s ≡ ok bs → IsText s bs
unfolding Writer.text Writer.lenbytes Writer.raw
text-IsText s bs h =
    let (raw, e, h') = bind-eq-ok (encode_utf8 s) Writer.lenbytes h in
    let (size, rest, f, g, whole) =
      ⨾-eq-ok (Writer.u32 (pos (length raw))) (Writer.raw raw) bs h' in
    (raw, e, rw (whole, u32-eq-ok (length raw) size f, ← ok-injective g) refl)

put_credentials-IsCredentials :
    (who : Option (Str × Str)) (bs : Bytes) → put_credentials who ≡ ok bs → IsCredentials who bs
unfolding put_credentials Writer.u8 Writer.check
put_credentials-IsCredentials none bs h = rw (← ok-injective h) refl
put_credentials-IsCredentials (some (user, password)) bs h =
    let (flag, pair, e, f, whole) =
      ⨾-eq-ok (Writer.u8 (pos 1)) (Writer.text user ⨾ Writer.text password) bs h in
    let (name, secret, f', g, both) = ⨾-eq-ok (Writer.text user) (Writer.text password) pair f in
    (
      name,
      secret,
      text-IsText user name f',
      text-IsText password secret g,
      rw (whole, both, ← ok-injective e) refl,
    )

request_body-IsRequest :
    (script : Str) (parameters : Parameters) (c : Connection) (body : Bytes)
    → (request_body script parameters c).0 ≡ ok body
    → IsRequest script (owes c) parameters body
unfolding request_body finish_request
request_body-IsRequest script parameters c body h =
    finished (Writer.text script ⨾ put_credentials (owes c)) refl h
  where
    finished :
        (r : Result Bytes)
        → Writer.text script ⨾ put_credentials (owes c) ≡ r
        → (finish_request r parameters c).0 ≡ ok body
        → IsRequest script (owes c) parameters body
    finished (err e) begun h = cc
    finished (ok head) begun h =
        let (given, e, h') = bind-eq-ok (put_parameters parameters) _ h in
        let (t, w, f, g, whole) =
          ⨾-eq-ok (Writer.text script) (put_credentials (owes c)) head begun in
        (
          t,
          w,
          given,
          text-IsText script t f,
          put_credentials-IsCredentials (owes c) w g,
          e,
          rw (← ok-injective h', whole) refl,
        )

owing :
    (c : Connection) (user : Str)
    → c.user ≡ some user
    → c.owed ≡ true
    → owes c ≡ some (user, or_empty c.password)
unfolding owes
owing c user u o = rw (o, u) refl

-- Credentials are presented once. The first request of a connection that is no subscription and that
-- has a user and still owes the credentials, if it can be written and fits a frame and the socket
-- takes it, is sent as one frame whose body holds the script, the user's name with the password, and
-- the parameters; whatever the node replied, the body of the next request that can be written holds
-- its script, a zero in their place, and its parameters.
pub ask-IsRequest :
    (script script' : Str) (parameters parameters' : Parameters) (c : Connection) (user : Str)
    (body body' : Bytes)
    → c.subscribed ≡ false
    → c.user ≡ some user
    → c.owed ≡ true
    → (request_body script parameters c).0 ≡ ok body
    → length body ≤ ceiling
    → c.sock.writable ≡ true
    → (request_body script' parameters' (ask script parameters c).1).0 ≡ ok body'
    → ((ask script parameters c).1.sock.sent ≡ c.sock.sent ++ frame request body)
      × IsRequest script (some (user, or_empty c.password)) parameters body
      × IsRequest script' none parameters' body'
ask-IsRequest script script' parameters parameters' c user body body' asks u o made fits writes
      next =
    let first = request_body-IsRequest script parameters c body made in
    let second =
      request_body-IsRequest script' parameters' (ask script parameters c).1 body' next in
    (
      ask-sent script parameters c body asks made fits writes,
      rw (owing c user u o) at first,
      rw (ask-owes script parameters c body asks made) at second,
    )
