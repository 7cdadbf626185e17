-- ===== src/Worker/Waits.antt =====
-- The waits of a worker that finds nothing: one behind every poll, and they double up to a second.
use tessaridb_sdk_python.Prelude.{
  ℕ, zero, suc, ◌*◌, ◌^◌, ◌<◌, ◌⊎◌, ◌≡◌, min, Bool, Option, none, some, List, [], ◌∷◌, ◌++◌,
}
use tessaridb_sdk_python.Result.{Result, ok, err, out_of_fuel}
use tessaridb_sdk_python.Worker.Polling.{next_batch}

-- What a worker did: it asked for a batch, or waited.
pub data Deed : Type 0 where
  asked : Deed
  waited : ℕ → Deed

-- A world with what was done in it.
abbrev pub Noted : Type 0 → Type 0
Noted S = S × List Deed

unfoldable pub noting : {S : Type 0} → (ℕ → S → S) → ℕ → Noted S → Noted S
noting pause wait (s, deeds) = (pause wait s, deeds ++ waited wait ∷ [])

unfoldable pub asking : {S A : Type 0} → (S → A × S) → Noted S → A × Noted S
asking poll (s, deeds) = let (a, s') = poll s in (a, (s', deeds ++ asked ∷ []))

-- The wait behind `i` others: 50 ms, doubled `i` times, and a second at most.
abbrev pub wait_of : ℕ → ℕ
wait_of i = min (50 * 2 ^ i) 1_000

-- `k` rounds behind `i` others: in each, the worker asks and then waits.
unfoldable pub rounds : ℕ → ℕ → List Deed
rounds zero i = []
rounds (suc k) i = asked ∷ waited (wait_of i) ∷ rounds k (suc i)

-- How a worker ended that had asked `i` times, by its result: with None, by whole rounds; with a
-- batch or an error, by one poll more; or with all its fuel spent on rounds.
abbrev pub Ended : {J : Type 0} → ℕ → ℕ → Result (Option (List J)) → List Deed → Type 0
Ended fuel i (ok none) deeds = (k : ℕ) × (k < fuel) × (deeds ≡ rounds k i)
Ended fuel i (ok (some js)) deeds = (k : ℕ) × (k < fuel) × (deeds ≡ rounds k i ++ asked ∷ [])
Ended fuel i (err e) deeds =
    ((k : ℕ) × (k < fuel) × (deeds ≡ rounds k i ++ asked ∷ []))
    ⊎ ((e ≡ out_of_fuel) × (deeds ≡ rounds fuel i))

-- So it ended, behind what was noted before.
abbrev Ends : {S J : Type 0} → ℕ → ℕ → List Deed → Result (Option (List J)) × Noted S → Type 0
Ends fuel i before (r, (s, deeds)) =
    (now : List Deed) × (deeds ≡ before ++ now) × Ended fuel i r now

module _ {S J : Type 0} (stopped : S → Bool) (pause : ℕ → S → S)
    (poll : S → Result (List J) × S) where
  noted : ℕ → ℕ → Noted S → Result (Option (List J)) × Noted S
  noted = next_batch (λ s. stopped s.0) (noting pause) (asking poll)
