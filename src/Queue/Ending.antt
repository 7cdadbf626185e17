-- ===== src/Queue/Ending.antt =====
-- A queue worker that another thread stops leaves its run loop.
use tessaridb_sdk_python.Prelude.{
  ℕ, ℤ, pos, negsuc, ◌-◌, ◌≤◌, ◌<◌, ◌≡◌, Bool, true, false, Option, none, some, List, [], ◌∷◌,
  arith,
}
use tessaridb_sdk_python.Result.{Str, Result, ok, err, bind}
use tessaridb_sdk_python.Value.{Value}
use tessaridb_sdk_python.Query.Filter.{Filter, Binder}
use tessaridb_sdk_python.Answer.Outcome.{Row, Outcome, records}
use tessaridb_sdk_python.Connection.Messages.{Reply}
use tessaridb_sdk_python.Worker.Answers.{answered_by}
use tessaridb_sdk_python.Worker.Ending.{Finished, run-Finished}
use tessaridb_sdk_python.Queue.Statements.{
  Statements, claim_statement, done_statement, release_statement,
}
use tessaridb_sdk_python.Queue.Jobs.{Job, job, jobs, with_attempts, claimed_jobs}
use tessaridb_sdk_python.Queue.Loop.{
  Queue, sent, claim, no_answer, done, release, handed_back, hand_back, or_raced, take_batch,
  settled_auto, settle_auto, run_auto,
}

Finished-bind {ℓ κ} :
    {A : Type ℓ} {B : Type κ} (r : Result A) (f : A → Result B)
    → Finished r
    → ((a : A) → Finished (f a))
    → Finished (bind r f)
Finished-bind (ok a) f h k = k a
Finished-bind (err e) f h k = λ same. h (cc)

job-Finished : (identity : Str) (v : Value) → Finished (job identity v)
unfolding job with_attempts
job-Finished identity v same = ground arith

jobs-Finished : (rows : List Row) → Finished (jobs rows)
unfolding jobs
jobs-Finished [] = λ e. cc
jobs-Finished (row ∷ rows) =
    Finished-bind (job row.identity row.value) _ (job-Finished row.identity row.value)
      λ j. Finished-bind (jobs rows) _ (jobs-Finished rows) λ js. λ e. cc

claimed_jobs-Finished : (answer : Option Outcome) → Finished (claimed_jobs answer)
unfolding claimed_jobs
claimed_jobs-Finished none = λ e. cc
claimed_jobs-Finished (some (records r)) = jobs-Finished r.rows
claimed_jobs-Finished (some _) = λ e. cc

module _ {S : Type 0} (execute : Str → Binder → S → Result Reply × S) (stopped : S → Bool)
    (pause : ℕ → S → S) (handler : Job → S → Result Bool × S)
    -- How many waits and handled jobs are left until another thread calls `stop`.
    (left : S → ℕ) (stops : (s : S) → left s ≡ 0 → stopped s ≡ true)
    (pause_left : (wait : ℕ) (s : S) → left (pause wait s) ≤ left s - 1)
    (handler_left : (j : Job) (s : S) → left (handler j s).1 ≤ left s - 1)
    (handler_ends : (j : Job) (s : S) → Finished (handler j s).0)
    (execute_left : (script : Str) (given : Binder) (s : S)
      → left (execute script given s).1 ≤ left s)
    (execute_ends : (script : Str) (given : Binder) (s : S) → Finished (execute script given s).0)
    (q : Queue) where
  answered_by-Finished :
      (take : Option Outcome → Result (List Job)) (r : Result Reply × S)
      → ((o : Option Outcome) → Finished (take o))
      → Finished r.0
      → Finished (answered_by take r).0
  unfolding answered_by
  answered_by-Finished take (reply, s) h k = Finished-bind reply _ k (λ r. h _)

  sent_left : (script : Result (Str × Binder)) (s : S) → left (sent execute script s).1 ≤ left s
  unfolding sent
  sent_left (ok (script, given)) s = execute_left script given s
  sent_left (err e) s = omega arith

  sent-Finished :
      (script : Result (Str × Binder)) (s : S)
      → Finished script
      → Finished (sent execute script s).0
  unfolding sent
  sent-Finished (ok (script, given)) s h = execute_ends script given s
  sent-Finished (err e) s h = λ same. h (cc)

  claim_statement-Finished :
      (w : Statements) (count : ℤ) (filter : Option Filter)
      → Finished (claim_statement w count filter)
  unfolding claim_statement
  claim_statement-Finished w (pos count) filter = λ e. ground arith
  claim_statement-Finished w (negsuc n) filter = λ e. cc

  or_raced-Finished : (r : Result (List Job) × S) → Finished r.0 → Finished (or_raced execute r).0
  unfolding or_raced
  or_raced-Finished r h = ground arith

  or_raced_left :
      (r : Result (List Job) × S) (s : S) → left r.1 ≤ left s → left (or_raced execute r).1 ≤ left s
  unfolding or_raced
  or_raced_left r s h = ground arith

  take_batch-Finished : (s : S) → Finished (take_batch execute q s).0
  unfolding take_batch claim
  take_batch-Finished s = or_raced-Finished (claim execute q q.batch q.narrowed s) (
      answered_by-Finished claimed_jobs
        (sent execute (claim_statement q.statements q.batch q.narrowed) s) claimed_jobs-Finished
        (sent-Finished (claim_statement q.statements q.batch q.narrowed) s
          (claim_statement-Finished q.statements q.batch q.narrowed)))

  take_batch_left : (s : S) → left (take_batch execute q s).1 ≤ left s
  unfolding take_batch claim answered_by
  take_batch_left s =
      or_raced_left (claim execute q q.batch q.narrowed s) s
        (sent_left (claim_statement q.statements q.batch q.narrowed) s)

  no_answer-Finished : (r : Result Reply × S) → Finished r.0 → Finished (no_answer execute r).0
  unfolding no_answer
  no_answer-Finished (reply, s) h = Finished-bind reply _ h (λ r. λ e. cc)

  settled_auto-Finished :
      (j : Job) (p : Result Bool × S) → Finished p.0 → Finished (settled_auto execute q j p).0
  unfolding settled_auto done release
  settled_auto-Finished j (err e, s) h = λ same. h (cc)
  settled_auto-Finished j (ok true, s) h =
      no_answer-Finished (execute (done_statement q.statements j.identity) [] s)
        (execute_ends _ [] s)
  settled_auto-Finished j (ok false, s) h =
      no_answer-Finished (execute (release_statement q.statements j.identity none) [] s)
        (execute_ends _ [] s)

  settle_auto-Finished : (j : Job) (s : S) → Finished (settle_auto execute q handler j s).0
  unfolding settle_auto
  settle_auto-Finished j s = settled_auto-Finished j (handler j s) (handler_ends j s)

  settled_auto_left :
      (j : Job) (p : Result Bool × S) → left (settled_auto execute q j p).1 ≤ left p.1
  unfolding settled_auto done release no_answer
  settled_auto_left j (err e, s) = omega arith
  settled_auto_left j (ok true, s) = execute_left (done_statement q.statements j.identity) [] s
  settled_auto_left j (ok false, s) =
      execute_left (release_statement q.statements j.identity none) [] s

  settle_auto_left : (j : Job) (s : S) → left (settle_auto execute q handler j s).1 ≤ left s - 1
  unfolding settle_auto
  settle_auto_left j s = omega (arith, settled_auto_left j (handler j s), handler_left j s)

  handed_back_good :
      (most : ℕ) (go_on : S → Result (Unit {0}) × S) (r : Result (Unit {0}) × S)
      → Finished r.0
      → left r.1 ≤ most
      → ((s : S) → Finished (go_on s).0 × (left (go_on s).1 ≤ left s))
      → Finished (handed_back execute go_on r).0 × (left (handed_back execute go_on r).1 ≤ most)
  unfolding handed_back
  handed_back_good most go_on (err e, s) h k ih = (h, k)
  handed_back_good most go_on (ok u, s) h k ih = ((ih s).0, omega (arith, (ih s).1))

  hand_back_good :
      (js : List Job) (s : S)
      → Finished (hand_back execute q js s).0 × (left (hand_back execute q js s).1 ≤ left s)
  unfolding hand_back release no_answer
  hand_back_good [] s = ((λ e. cc), omega arith)
  hand_back_good (j ∷ js) s =
      let released = execute (release_statement q.statements j.identity none) [] s in
      handed_back_good (left s) (hand_back execute q js) (no_answer execute released)
        (no_answer-Finished released (execute_ends _ [] s)) (execute_left _ [] s)
        (hand_back_good js)

  -- A queue worker that is stopped in the end leaves the loop of `run_auto`. Where another thread calls
  -- `stop` after `left` further waits and handled jobs at most, the handler returns or raises,
  -- and every statement is answered or raises an exception, `run_auto` with more rounds than that returns or raises an exception.
  pub run_auto-Finished :
      (fuel : ℕ) (s : S)
      → left s < fuel
      → Finished (run_auto execute stopped pause q handler fuel s).0
  unfolding run_auto
  run_auto-Finished =
      run-Finished stopped pause (take_batch execute q) (settle_auto execute q handler)
        (hand_back execute q) left stops pause_left take_batch_left settle_auto_left
        (λ js s. (hand_back_good js s).1) take_batch-Finished settle_auto-Finished
        (λ js s. (hand_back_good js s).0)
