-- ===== src/Frames/Framing.antt =====
-- `greet`, `send`, `read` and `read_refusal`.
use tessaridb_sdk_python.Prelude.{
  ℕ, zero, suc, ◌-◌, Bool, true, false, ◌&&◌, ◌||◌, Option, none, some, [], ◌∷◌, ◌++◌, ltb, leb,
  ◌==◌, length, if◌then◌else◌,
}
use tessaridb_sdk_python.Result.{
  Bytes, Str, Result, RefusalClass, ok, err, bind, not_this_protocol, truncated, wrong_version,
  too_large, unknown_frame, out_of_fuel, invalid, unauthenticated, forbidden, throttled, elsewhere,
  retry, conflict, unavailable, internal, unknown,
}
use tessaridb_sdk_python.Bytes.Endian.{to_bytes, from_bytes}
use tessaridb_sdk_python.Bytes.Replace.{decode_replace}
use tessaridb_sdk_python.Frames.Socket.{Socket, recv, sendall, receive}

abbrev pub ceiling : ℕ
ceiling = 16_777_216

abbrev pub magic : Bytes
magic = 84 ∷ 69 ∷ 83 ∷ 83 ∷ []

abbrev pub major : ℕ
major = 1

abbrev pub minor : ℕ
minor = 4

abbrev pub request : ℕ
request = 1

abbrev pub answer : ℕ
answer = 2

abbrev pub refusal : ℕ
refusal = 3

abbrev pub subscribe : ℕ
subscribe = 4

abbrev pub change : ℕ
change = 5

abbrev pub elsewhere_kind : ℕ
elsewhere_kind = 13

abbrev pub vault : ℕ
vault = 17

abbrev pub vault_minor : ℕ
vault_minor = 2

abbrev pub progress : ℕ
progress = 37

abbrev pub condition_minor : ℕ
condition_minor = 4

-- Membership in `FROM_NODE`.
unfoldable pub from_node : ℕ → Bool
from_node kind =
    kind == answer
    || kind == refusal
    || kind == change
    || kind == elsewhere_kind
    || kind == progress

-- `whole.startswith(start)`.
unfoldable pub starts_with : Bytes → Bytes → Bool
starts_with whole [] = true
starts_with [] (b ∷ start) = false
starts_with (a ∷ whole) (b ∷ start) = a == b && starts_with whole start

-- The loop of `greet`, `seen` the bytes so far; a prefix that is not the magic's ends it at once.
unfoldable pub greet_loop : ℕ → Bytes → Socket → Result Socket
greet_loop zero seen s = if ltb (length seen) 4 then err out_of_fuel else ok s
greet_loop (suc rounds) seen s = elim (ltb (length seen) 4) [
  | false ↦ ok s
  | true ↦ bind (recv (4 - length seen) s) λ (piece, s'). elim piece [
    | [] ↦ elim seen [ [] ↦ err not_this_protocol | _ ∷ _ ↦ err truncated ]
    | b ∷ bs ↦ elim (starts_with magic (seen ++ b ∷ bs)) [
      | true ↦ greet_loop rounds (seen ++ b ∷ bs) s'
      | false ↦ err not_this_protocol
    ]
  ]
]

unfoldable pub check_version : Bytes × Socket → Result ((ℕ × ℕ) × Socket)
check_version (peer_major ∷ peer_minor ∷ [], s) =
    if peer_major == major
    then ok ((peer_major, peer_minor), s)
    else err (wrong_version peer_major peer_minor)
check_version (_, s) = err out_of_fuel

-- The peer's (major, minor).
unfoldable pub greet : Socket → Result ((ℕ × ℕ) × Socket)
greet s =
    bind (sendall (magic ++ major ∷ minor ∷ []) s)
      λ s₁. bind (greet_loop 4 [] s₁) λ s₂. bind (receive 2 s₂) check_version

unfoldable pub frame : ℕ → Bytes → Bytes
frame kind body = kind ∷ (to_bytes 4 (length body) ++ body)

unfoldable pub send : ℕ → Bytes → Socket → Result Socket
send kind body s =
    if ltb ceiling (length body) then err (too_large (length body)) else sendall (frame kind body) s

-- The body of a frame whose length is known: the ceiling first, then the kind.
unfoldable pub read_body : ℕ → ℕ → Socket → Result (Option (ℕ × Bytes) × Socket)
read_body kind size s =
    if ltb ceiling size
    then err (too_large size)
    else if from_node kind
    then bind (receive size s) (λ (body, s'). ok (some (kind, body), s'))
    else err (unknown_frame kind)

-- One frame, or `none` for a clean goodbye.
unfoldable pub read : Socket → Result (Option (ℕ × Bytes) × Socket)
read s = bind (recv 1 s) λ (first, s₁). elim first [
  | [] ↦ ok (none, s₁)
  | kind ∷ _ ↦ bind (receive 4 s₁) λ (size, s₂). read_body kind (from_bytes size) s₂
]

-- `RefusalClass.from_byte`.
unfoldable pub from_byte : ℕ → RefusalClass
from_byte b =
    if b == 1
    then invalid
    else if b == 2
    then unauthenticated
    else if b == 3
    then forbidden
    else if b == 4
    then throttled
    else if b == 5
    then elsewhere
    else if b == 6
    then retry
    else if b == 7
    then conflict
    else if b == 8
    then unavailable
    else if b == 9
    then internal
    else unknown

unfoldable pub read_refusal : Bytes → Option RefusalClass × Str
unfolding from_byte decode_replace
read_refusal [] = (none, [])
read_refusal (b ∷ message) =
    if leb b 9
    then (some (from_byte b), decode_replace message)
    else (none, decode_replace (b ∷ message))
