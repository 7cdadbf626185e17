-- ===== src/Worker/Polling.antt =====
-- `_next_batch` and the loops around it. `S` is the world: the connection, the stop flag that
-- another thread may set, and whatever a handler changes. Times are in milliseconds.
use tessaridb_sdk_python.Prelude.{
  ℕ, zero, suc, ◌*◌, min, Bool, true, false, Option, none, some, List, [], ◌∷◌,
}
use tessaridb_sdk_python.Result.{Result, ok, err, out_of_fuel}

abbrev pub first_wait : ℕ
first_wait = 50

abbrev pub longest_wait : ℕ
longest_wait = 1_000

unfoldable pub next_wait : ℕ → ℕ
next_wait wait = min (wait * 2) longest_wait

module _ {S J : Type 0} (stopped : S → Bool) (pause : ℕ → S → S)
    (poll : S → Result (List J) × S) where
  -- What a poll answered: an empty one is waited for, `again` after the pause.
  unfoldable pub polled :
      ℕ → (S → Result (Option (List J)) × S) → Result (List J) × S → Result (Option (List J)) × S
  polled wait again (err e, s) = (err e, s)
  polled wait again (ok [], s) = again (pause wait s)
  polled wait again (ok (j ∷ js), s) = (ok (some (j ∷ js)), s)

  -- `_next_batch` behind its first line.
  unfoldable pub next_batch : ℕ → ℕ → S → Result (Option (List J)) × S
  unfolding polled
  next_batch zero wait s = (err out_of_fuel, s)
  next_batch (suc fuel) wait s = elim (stopped s) [
    | true ↦ (ok none, s)
    | false ↦ polled wait (next_batch fuel (next_wait wait)) (poll s)
  ]

module _ {S J : Type 0} (stopped : S → Bool) (settle : J → S → Result (Unit {0}) × S)
    (hand_back : List J → S → Result (Unit {0}) × S) where
  unfoldable pub returning : Result (Unit {0}) × S → Result Bool × S
  returning (err e, s) = (err e, s)
  returning (ok u, s) = (ok true, s)

  -- Behind the settlement of one of the batch.
  unfoldable pub settled : List J → (S → Result Bool × S) → Result (Unit {0}) × S → Result Bool × S
  unfolding returning
  settled rest go_on (err e, s) = (err e, s)
  settled rest go_on (ok u, s) = elim (stopped s) [
    | true ↦ returning (hand_back rest s)
    | false ↦ go_on s
  ]

  -- The `for` of a run loop: whether it returned from the loop.
  unfoldable pub each : List J → S → Result Bool × S
  unfolding settled
  each [] s = (ok false, s)
  each (j ∷ js) s = settled js (each js) (settle j s)

module _ {S J : Type 0} (stopped : S → Bool) (pause : ℕ → S → S) (poll : S → Result (List J) × S)
    (settle : J → S → Result (Unit {0}) × S) (hand_back : List J → S → Result (Unit {0}) × S) where
  unfoldable pub went_on : (S → Result (Unit {0}) × S) → Result Bool × S → Result (Unit {0}) × S
  went_on again (err e, s) = (err e, s)
  went_on again (ok true, s) = (ok tt, s)
  went_on again (ok false, s) = again s

  unfoldable pub with_batch :
      (S → Result (Unit {0}) × S) → Result (Option (List J)) × S → Result (Unit {0}) × S
  unfolding went_on
  with_batch again (err e, s) = (err e, s)
  with_batch again (ok none, s) = (ok tt, s)
  with_batch again (ok (some js), s) = went_on again (each stopped settle hand_back js s)

  -- The `while` of a run loop.
  unfoldable pub run : ℕ → S → Result (Unit {0}) × S
  unfolding with_batch
  run zero s = (err out_of_fuel, s)
  run (suc fuel) s = with_batch (run fuel) (next_batch stopped pause poll (suc fuel) first_wait s)
