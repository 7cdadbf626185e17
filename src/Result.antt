-- ===== src/Result.antt =====
-- errors.py: every error class of the client as a value, and computations that may raise one.
-- The texts of the messages are left out; what a caller can act on is kept.
use tessaridb_sdk_python.Prelude.{
  ℕ, ℤ, ◌≡◌, refl, subst, Bool, true, false, Option, List, if◌then◌else◌,
}

abbrev pub Bytes : Type 0
Bytes = List ℕ

-- A Python string, as its code points.
abbrev pub Str : Type 0
Str = List ℕ

-- `RefusalClass`.
pub data RefusalClass : Type 0 where
  invalid unauthenticated forbidden throttled elsewhere retry conflict unavailable : RefusalClass
  internal unknown : RefusalClass

-- The ways in which a `ProtocolError` is raised.
pub data Fault : Type 0 where
  does_not_fit : ℤ → Fault
  wrong_width : ℕ → ℕ → Fault
  wanted : ℕ → ℕ → Fault
  outside_nanos : ℕ → Fault
  not_utf8 no_terminator : Fault
  invalid_escape : ℕ → Fault
  trailing : ℕ → Fault
  unknown_tag unknown_number unknown_bound unknown_id unknown_shape : ℕ → Fault

-- The reasons of a `BuilderError`, with what it names: the position, and the text that was given.
pub data Reason : Type 0 where
  not_a_name : Str → Str → Reason
  incomplete : Reason
  not_a_span not_a_count not_an_answerer : Str → Reason

-- The classes of errors.py with what they carry, and exceptions that are not the client's own:
-- `surrogate` is a UnicodeEncodeError, `value_error` a ValueError, `builder` a BuilderError, and
-- `not_an_event` a NotAnEvent, `http_error` an HTTPError by its status, location and class, `session` a bare TessariError.
-- `key_error`, `type_error`, `attribute_error` and `overflow_error` are Python's own. `out_of_fuel` is
-- no Python exception: a loop of the model ran out of its rounds.
pub data Error : Type 0 where
  protocol : Fault → Error
  io not_this_protocol truncated malformed : Error
  wrong_version : ℕ → ℕ → Error
  unknown_frame : ℕ → Error
  too_large : ℕ → Error
  refused : Str → Option RefusalClass → Error
  node_too_old : ℕ → ℕ → Error
  redirect_loop : ℕ → Error
  stale_redirect : ℕ → ℕ → Error
  wrong_node : Bytes → Error
  not_followable : Str → Error
  surrogate : ℕ → Error
  builder : Reason → Error
  http_error : ℕ → Str → Option RefusalClass → Error
  value_error key_error type_error attribute_error overflow_error : Error
  not_an_event session out_of_fuel : Error

pub data Result {ℓ} (A : Type ℓ) : Type ℓ where
  ok : A → Result A
  err : Error → Result A

abbrev pub bind {ℓ κ} : {A : Type ℓ} {B : Type κ} → Result A → (A → Result B) → Result B
bind (ok a) f = f a
bind (err e) f = err e

pub ok-injective {ℓ} : {A : Type ℓ} {a b : A} → ok a ≡ ok b → a ≡ b
ok-injective h = cc

-- Inversion of a successful bind.
pub bind-eq-ok {ℓ κ} :
    {A : Type ℓ} {B : Type κ} (m : Result A) (f : A → Result B) {b : B}
    → bind m f ≡ ok b
    → (a : A) × (m ≡ ok a) × (f a ≡ ok b)
bind-eq-ok (ok a) f h = (a, refl, h)
bind-eq-ok (err e) f h = cc

-- `P` holds of what is returned, if anything is.
pub data OnOk {ℓ κ} {A : Type ℓ} (P : A → Type κ) : Result A → Type (ℓ ⊔ κ) where
  returned : {a : A} → P a → OnOk P (ok a)
  raised : {e : Error} → OnOk P (err e)

module _ {ℓ κ} {A : Type ℓ} {P : A → Type κ} where
  pub OnOk-apply : {r : Result A} {a : A} → OnOk P r → r ≡ ok a → P a
  OnOk-apply (returned p) h = subst P (cc) p
  OnOk-apply raised h = cc

  pub OnOk-if :
      (b : Bool) {x y : Result A}
      → (b ≡ true → OnOk P x)
      → (b ≡ false → OnOk P y)
      → OnOk P (if b then x else y)
  OnOk-if true hx hy = hx refl
  OnOk-if false hx hy = hy refl

  pub OnOk-bind {ℓ' κ'} :
      {B : Type ℓ'} {Q : B → Type κ'} {r : Result B} {f : B → Result A}
      → OnOk Q r
      → ((b : B) → Q b → OnOk P (f b))
      → OnOk P (bind r f)
  OnOk-bind (returned {a} q) k = k a q
  OnOk-bind raised k = raised

-- What is returned is known to be so.
pub OnOk-self {ℓ} : {A : Type ℓ} (r : Result A) → OnOk (λ a. r ≡ ok a) r
OnOk-self (ok a) = returned refl
OnOk-self (err e) = raised

-- A result with a function applied to the state that it came with.
abbrev pub via {ℓ κ μ} :
    {A : Type ℓ} {S : Type κ} {T : Type μ} → (S → T) → Result (A × S) → Result (A × T)
via f (ok (a, s)) = ok (a, f s)
via f (err e) = err e
