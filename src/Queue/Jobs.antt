-- ===== src/Queue/Jobs.antt =====
-- The records that a claim answers, as jobs.
use tessaridb_sdk_python.Prelude.{ℤ, Bool, ◌||◌, Option, some, List, [], ◌∷◌, if◌then◌else◌}
use tessaridb_sdk_python.Result.{Str, Result, ok, err, value_error, bind}
use tessaridb_sdk_python.Value.{Value, integer, object, fields_list, fields_of}
use tessaridb_sdk_python.Dict.{str_eq, dict_get}
use tessaridb_sdk_python.Text.{chars}
use tessaridb_sdk_python.Answer.Outcome.{Row, Outcome, records}

pub record Job : Type 0 where
  pub identity : Str
  pub value : Value
  pub attempts : ℤ

-- `_ENGINE`.
unfoldable pub is_engine : Str → Bool
is_engine name =
    str_eq name (chars "attempts")
    || str_eq name (chars "claimed_until")
    || str_eq name (chars "claimed_by")

-- The record's own fields.
unfoldable pub work_fields : List (Str × Value) → List (Str × Value)
work_fields [] = []
work_fields ((name, held) ∷ fields) =
    if is_engine name then work_fields fields else (name, held) ∷ work_fields fields

unfoldable pub with_attempts : Str → List (Str × Value) → Option Value → Result Job
unfolding work_fields
with_attempts identity fields (some (integer n)) =
    ok (record {
      identity = identity;
      value = object (fields_of (work_fields fields));
      attempts = n;
    })
with_attempts identity fields _ = err value_error

-- `_job`.
unfoldable pub job : Str → Value → Result Job
unfolding with_attempts
job identity (object fields) =
    with_attempts identity (fields_list fields) (dict_get (chars "attempts") (fields_list fields))
job identity _ = err value_error

unfoldable pub jobs : List Row → Result (List Job)
unfolding job
jobs [] = ok []
jobs (row ∷ rows) = bind (job row.identity row.value) λ j. bind (jobs rows) λ js. ok (j ∷ js)

unfoldable pub claimed_jobs : Option Outcome → Result (List Job)
unfolding jobs
claimed_jobs (some (records r)) = jobs r.rows
claimed_jobs _ = err value_error
