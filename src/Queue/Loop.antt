-- ===== src/Queue/Loop.antt =====
-- `Queue` and its run loops, over what the connection executes and what a handler does.
use tessaridb_sdk_python.Prelude.{ℕ, ℤ, Bool, Option, none, some, List, [], ◌∷◌, if◌then◌else◌}
use tessaridb_sdk_python.Result.{Str, Result, ok, err, refused, retry, bind}
use tessaridb_sdk_python.Query.Filter.{Filter, Binder}
use tessaridb_sdk_python.Connection.Messages.{Reply}
use tessaridb_sdk_python.Worker.Answers.{answered_by}
use tessaridb_sdk_python.Worker.Polling.{run}
use tessaridb_sdk_python.Queue.Statements.{
  Statements, claim_statement, done_statement, release_statement,
}
use tessaridb_sdk_python.Queue.Jobs.{Job, claimed_jobs}

-- `Finish`, `Release` and `Leave`.
pub data Handled : Type 0 where
  finish : Handled
  release_after : Option ℤ → Handled
  leave : Handled

pub record Queue : Type 0 where
  pub statements : Statements
  pub batch : ℤ
  pub narrowed : Option Filter

-- `S` is the world, and `execute` the connection's method.
module _ {S : Type 0} (execute : Str → Binder → S → Result Reply × S) where
  unfoldable pub sent : Result (Str × Binder) → S → Result Reply × S
  sent (ok (script, parameters)) s = execute script parameters s
  sent (err e) s = (err e, s)

  -- `Queue.claim`.
  unfoldable pub claim : Queue → ℤ → Option Filter → S → Result (List Job) × S
  unfolding sent
  claim q count filter s =
      answered_by claimed_jobs (sent (claim_statement q.statements count filter) s)

  unfoldable pub no_answer : Result Reply × S → Result (Unit {0}) × S
  no_answer (reply, s) = (bind reply (λ r. ok tt), s)

  unfoldable pub done : Queue → Job → S → Result (Unit {0}) × S
  unfolding no_answer
  done q j s = no_answer (execute (done_statement q.statements j.identity) [] s)

  unfoldable pub release : Queue → Option ℤ → Job → S → Result (Unit {0}) × S
  unfolding no_answer
  release q after j s = no_answer (execute (release_statement q.statements j.identity after) [] s)

  unfoldable pub handed_back :
      (S → Result (Unit {0}) × S) → Result (Unit {0}) × S → Result (Unit {0}) × S
  handed_back go_on (err e, s) = (err e, s)
  handed_back go_on (ok u, s) = go_on s

  -- `_hand_back`.
  unfoldable pub hand_back : Queue → List Job → S → Result (Unit {0}) × S
  unfolding handed_back
  hand_back q [] s = (ok tt, s)
  hand_back q (j ∷ js) s = handed_back (hand_back q js) (release q none j s)

  -- A claim that lost a race counts as an empty one.
  unfoldable pub or_raced : Result (List Job) × S → Result (List Job) × S
  or_raced (err (refused message (some retry)), s) = (ok [], s)
  or_raced answer = answer

  unfoldable pub take_batch : Queue → S → Result (List Job) × S
  unfolding or_raced
  take_batch q s = or_raced (claim q q.batch q.narrowed s)

  -- Whether the handler returned or raised an `Exception`, and the settlement that this asks for;
  -- what is raised besides, as a KeyboardInterrupt, is an error that is not caught.
  unfoldable pub settled_auto : Queue → Job → Result Bool × S → Result (Unit {0}) × S
  settled_auto q j (err e, s) = (err e, s)
  settled_auto q j (ok returned, s) = if returned then done q j s else release q none j s

  unfoldable pub settle_auto : Queue → (Job → S → Result Bool × S) → Job → S → Result (Unit {0}) × S
  unfolding settled_auto
  settle_auto q handler j s = settled_auto q j (handler j s)

  -- What the handler returned or raised; it is not caught here.
  unfoldable pub decided : Queue → Job → Result Handled × S → Result (Unit {0}) × S
  decided q j (err e, s) = (err e, s)
  decided q j (ok finish, s) = done q j s
  decided q j (ok (release_after after), s) = release q after j s
  decided q j (ok leave, s) = (ok tt, s)

  unfoldable pub settle_manual :
      Queue → (Job → S → Result Handled × S) → Job → S → Result (Unit {0}) × S
  unfolding decided
  settle_manual q handler j s = decided q j (handler j s)

  module _ (stopped : S → Bool) (pause : ℕ → S → S) where
    unfoldable pub run_auto : Queue → (Job → S → Result Bool × S) → ℕ → S → Result (Unit {0}) × S
    run_auto q handler = run stopped pause (take_batch q) (settle_auto q handler) (hand_back q)

    unfoldable pub run_manual :
        Queue → (Job → S → Result Handled × S) → ℕ → S → Result (Unit {0}) × S
    run_manual q handler = run stopped pause (take_batch q) (settle_manual q handler) (hand_back q)
