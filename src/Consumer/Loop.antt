-- ===== src/Consumer/Loop.antt =====
-- `Consumer` and its run loops, over what the connection executes and what a handler does.
use tessaridb_sdk_python.Prelude.{
  ℕ, ℤ, pos, negsuc, Bool, Option, none, List, [], ◌∷◌, if◌then◌else◌, leb,
}
use tessaridb_sdk_python.Result.{Str, Result, ok, err, bind}
use tessaridb_sdk_python.Query.Filter.{Binder}
use tessaridb_sdk_python.Connection.Messages.{Reply}
use tessaridb_sdk_python.Worker.Answers.{answered_by}
use tessaridb_sdk_python.Worker.Polling.{run}
use tessaridb_sdk_python.Consumer.Statements.{
  Statements, read_statement, ack_statement, nack_statement, Message, read_messages, settled_count,
}

-- `Ack`, `Nack` and `Leave`.
pub data Settle : Type 0 where
  ack_it : Settle
  nack_it : Option ℤ → Settle
  leave : Settle

pub record Consumer : Type 0 where
  pub statements : Statements
  pub batch : ℤ

-- `max(1, batch)`.
unfoldable pub at_least_one : ℤ → ℤ
at_least_one (pos n) = if leb 1 n then pos n else pos 1
at_least_one (negsuc n) = pos 1

unfoldable pub consumer : Statements → ℤ → Consumer
unfolding at_least_one
consumer w batch = record { statements = w; batch = at_least_one batch }

module _ {S : Type 0} (execute : Str → Binder → S → Result Reply × S) where
  -- `Consumer._settle`.
  unfoldable pub settle : Str × Binder → S → Result ℕ × S
  settle (script, parameters) s = answered_by settled_count (execute script parameters s)

  unfoldable pub ack : Consumer → List ℤ → S → Result ℕ × S
  unfolding settle
  ack c [] s = (ok 0, s)
  ack c (position ∷ positions) s = settle (ack_statement c.statements (position ∷ positions)) s

  unfoldable pub nack : Consumer → Option ℤ → List ℤ → S → Result ℕ × S
  unfolding settle
  nack c delay [] s = (ok 0, s)
  nack c delay (position ∷ positions) s =
      settle (nack_statement c.statements (position ∷ positions) delay) s

  unfoldable pub take_batch : Consumer → S → Result (List Message) × S
  take_batch c s = answered_by read_messages (execute (read_statement c.statements c.batch) [] s)

  unfoldable pub uncounted : Result ℕ × S → Result (Unit {0}) × S
  uncounted (r, s) = (bind r (λ n. ok tt), s)

  -- Whether the handler returned or raised an `Exception`; what is raised besides is not caught.
  unfoldable pub settled_auto : Consumer → Message → Result Bool × S → Result (Unit {0}) × S
  unfolding uncounted
  settled_auto c m (err e, s) = (err e, s)
  settled_auto c m (ok returned, s) =
      uncounted
        (if returned then ack c (pos m.position ∷ []) s else nack c none (pos m.position ∷ []) s)

  unfoldable pub settle_auto :
      Consumer → (Message → S → Result Bool × S) → Message → S → Result (Unit {0}) × S
  unfolding settled_auto
  settle_auto c handler m s = settled_auto c m (handler m s)

  unfoldable pub decided : Consumer → Message → Result Settle × S → Result (Unit {0}) × S
  unfolding uncounted
  decided c m (err e, s) = (err e, s)
  decided c m (ok ack_it, s) = uncounted (ack c (pos m.position ∷ []) s)
  decided c m (ok (nack_it delay), s) = uncounted (nack c delay (pos m.position ∷ []) s)
  decided c m (ok leave, s) = (ok tt, s)

  unfoldable pub settle_manual :
      Consumer → (Message → S → Result Settle × S) → Message → S → Result (Unit {0}) × S
  unfolding decided
  settle_manual c handler m s = decided c m (handler m s)

  -- A consumer hands nothing back: what is in flight returns to the group.
  unfoldable pub keep_rest : List Message → S → Result (Unit {0}) × S
  keep_rest ms s = (ok tt, s)

  module _ (stopped : S → Bool) (pause : ℕ → S → S) where
    unfoldable pub run_auto :
        Consumer → (Message → S → Result Bool × S) → ℕ → S → Result (Unit {0}) × S
    run_auto c handler = run stopped pause (take_batch c) (settle_auto c handler) keep_rest

    unfoldable pub run_manual :
        Consumer → (Message → S → Result Settle × S) → ℕ → S → Result (Unit {0}) × S
    run_manual c handler = run stopped pause (take_batch c) (settle_manual c handler) keep_rest
