-- ===== src/Worker/Tests.antt =====
-- A worker whose world is the number of waits until it is stopped.
use tessaridb_sdk_python.Prelude.{ℕ, ◌-◌, ◌≡◌, refl, Bool, List, [], ◌∷◌, ◌==◌}
use tessaridb_sdk_python.Result.{Result, ok}
use tessaridb_sdk_python.Worker.Polling.{first_wait, next_batch, next_wait}
use tessaridb_sdk_python.Worker.Waits.{asked, waited, noting, asking}

abbrev now_stopped : ℕ → Bool
now_stopped n = n == 0

abbrev tick : ℕ → ℕ → ℕ
tick wait n = n - 1

abbrev nothing_there : ℕ → Result (List ℕ) × ℕ
nothing_there n = (ok [], n)

deeds_sample :
    (next_batch
      (λ s. now_stopped s.0)
      (noting tick)
      (asking nothing_there)
      9
      first_wait
      (6, [])).1.1
    ≡ asked
      ∷ waited 50
      ∷ asked
      ∷ waited 100
      ∷ asked
      ∷ waited 200
      ∷ asked
      ∷ waited 400
      ∷ asked
      ∷ waited 800
      ∷ asked
      ∷ waited 1_000
      ∷ []
unfolding next_batch noting asking next_wait
deeds_sample = refl
