-- ===== src/Worker/Answers.antt =====
-- What a worker takes from a reply: the outcome of the last statement.
use tessaridb_sdk_python.Prelude.{Option, none, some, List, [], ◌∷◌}
use tessaridb_sdk_python.Result.{Result, bind}
use tessaridb_sdk_python.Answer.Outcome.{Outcome}
use tessaridb_sdk_python.Connection.Messages.{Reply}

-- `reply.outcomes[-1] if reply.outcomes else None`.
unfoldable pub last_outcome : List Outcome → Option Outcome
last_outcome [] = none
last_outcome (outcome ∷ []) = some outcome
last_outcome (outcome ∷ next ∷ outcomes) = last_outcome (next ∷ outcomes)

-- What is made of the last outcome, where the statement was answered.
unfoldable pub answered_by {ℓ} :
    {A : Type ℓ} {S : Type 0} → (Option Outcome → Result A) → Result Reply × S → Result A × S
unfolding last_outcome
answered_by take (reply, s) = (bind reply (λ r. take (last_outcome r.outcomes)), s)
