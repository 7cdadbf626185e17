-- ===== src/Queue/Tests.antt =====
-- A queue worker in a world that counts down to the stop, with an answer for every statement.
use tessaridb_sdk_python.Prelude.{
  ℕ, ◌-◌, ◌≡◌, refl, Bool, none, some, List, [], ◌∷◌, ◌==◌, leb, arith, pos,
}
use tessaridb_sdk_python.Result.{Str, Result, ok}
use tessaridb_sdk_python.Value.{null_value}
use tessaridb_sdk_python.Text.{chars, show}
use tessaridb_sdk_python.Query.Filter.{Binder}
use tessaridb_sdk_python.Connection.Messages.{Reply}
use tessaridb_sdk_python.Worker.Ending.{Finished}
use tessaridb_sdk_python.Worker.Names.{tenancy, is_worker, worker_char, check_worker}
use tessaridb_sdk_python.Follow.Selection.{plain_char, plain_start}
use tessaridb_sdk_python.Query.Names.{check_name}
use tessaridb_sdk_python.Queue.Statements.{
  Statements, statements, claim_statement, release_statement,
}
use tessaridb_sdk_python.Query.Statement.{where_clause}
use tessaridb_sdk_python.Queue.Jobs.{Job}
use tessaridb_sdk_python.Queue.Loop.{Queue, run_auto}
use tessaridb_sdk_python.Queue.Settled.{Settles, worked, each-Settles}
use tessaridb_sdk_python.Queue.Ending.{run_auto-Finished}

abbrev worker : Statements
worker = record {
  before = tenancy (chars "ns") (chars "db");
  queue = chars "tasks";
  worker = chars "w-1";
}

worker_made : statements (chars "ns") (chars "db") (chars "tasks") (chars "w-1") ≡ ok worker
unfolding statements check_name check_worker is_worker worker_char plain_char plain_start
worker_made = refl

claim_text :
    claim_statement worker (pos 5) none
    ≡ ok (chars "USE NAMESPACE ns; USE DATABASE db; USE CONSUMER 'w-1'; CLAIM 5 FROM tasks;", [])
unfolding claim_statement where_clause tenancy show
claim_text = refl

release_text :
    release_statement worker (chars "7") (some (pos 1_500))
    ≡ chars
        "USE NAMESPACE ns; USE DATABASE db; RELEASE tasks:7 FOR CONSUMER 'w-1' NOT BEFORE 1500ms;"
unfolding release_statement tenancy show
release_text = refl

abbrev tasks : Queue
tasks = record { statements = worker; batch = pos 10; narrowed = none }

abbrev ended : ℕ → Bool
ended n = n == 0

abbrev tick : ℕ → ℕ → ℕ
tick wait n = n - 1

abbrev empty_reply : Str → Binder → ℕ → Result Reply × ℕ
empty_reply script given n = (ok (record { outcomes = []; redirect = none }), n)

-- A handler that raises when two are left.
abbrev careful : Job → ℕ → Result Bool × ℕ
careful j n = (ok (leb 3 n), n - 1)

abbrev job_of : Str → Job
job_of identity = record { identity = identity; value = null_value; attempts = pos 1 }

abbrev batch : List Job
batch = job_of (chars "1") ∷ job_of (chars "2") ∷ job_of (chars "3") ∷ []

each-Settles_example :
    Settles empty_reply ended careful tasks batch []
      (worked empty_reply ended careful tasks batch (3, []))
each-Settles_example = each-Settles empty_reply ended careful tasks batch 3 []

run_auto-Finished_example : Finished (run_auto empty_reply ended tick tasks careful 9 8).0
run_auto-Finished_example =
    run_auto-Finished empty_reply ended tick careful (λ n. n) (λ s h. ground arith)
      (λ wait s. omega arith) (λ j s. omega arith) (λ j s e. cc) (λ script given s. omega arith)
      (λ script given s e. cc) tasks 9 8 (omega arith)
