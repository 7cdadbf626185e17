-- ===== src/Worker/Ending.antt =====
-- A worker that is stopped after some number of waits and settlements returns from its run loop.
use tessaridb_sdk_python.Prelude.{
  ℕ, zero, suc, ◌-◌, ◌≤◌, ◌<◌, ◌≡◌, ◌≢◌, refl, Bool, true, false, Bool-cases, inl, inr, Option,
  none, some, List, [], ◌∷◌, arith,
}
use tessaridb_sdk_python.Result.{Result, Error, ok, err, out_of_fuel}
use tessaridb_sdk_python.Worker.Polling.{
  first_wait, next_wait, polled, next_batch, returning, settled, each, went_on, with_batch, run,
}

-- A result that is not for want of fuel.
abbrev pub Finished {ℓ} : {A : Type ℓ} → Result A → Type ℓ
Finished r = r ≢ err out_of_fuel

module _ {S J : Type 0} (stopped : S → Bool) (pause : ℕ → S → S) (poll : S → Result (List J) × S)
    (settle : J → S → Result (Unit {0}) × S) (hand_back : List J → S → Result (Unit {0}) × S)
    -- How many waits and settlements are left until another thread calls `stop`.
    (left : S → ℕ) (stops : (s : S) → left s ≡ 0 → stopped s ≡ true)
    (pause_left : (wait : ℕ) (s : S) → left (pause wait s) ≤ left s - 1)
    (poll_left : (s : S) → left (poll s).1 ≤ left s)
    (settle_left : (j : J) (s : S) → left (settle j s).1 ≤ left s - 1)
    (hand_back_left : (js : List J) (s : S) → left (hand_back js s).1 ≤ left s)
    (poll_ends : (s : S) → Finished (poll s).0)
    (settle_ends : (j : J) (s : S) → Finished (settle j s).0)
    (hand_back_ends : (js : List J) (s : S) → Finished (hand_back js s).0) where
  -- A batch that was handed out is not empty.
  abbrev NotEmpty : Result (Option (List J)) → Type 0
  NotEmpty (ok (some [])) = ⊥
  NotEmpty _ = Unit

  abbrev Polled : ℕ → Result (Option (List J)) × S → Type 0
  Polled most (r, s) = Finished r × (left s ≤ most) × NotEmpty r

  Polled-le : (m n : ℕ) (r : Result (Option (List J)) × S) → m ≤ n → Polled m r → Polled n r
  Polled-le m n (r, s) h (ends, fewer, batch) = (ends, omega arith, batch)

  Finished-err {ℓ κ} :
      {A : Type ℓ} {B : Type κ} (e : Error) → Finished {A = A} (err e) → Finished {A = B} (err e)
  Finished-err e h same = h (cc)

  polled-Polled :
      (wait most : ℕ) (again : S → Result (Option (List J)) × S) (p : Result (List J) × S)
      → ((s : S) → left s < most → Polled (left s) (again s))
      → Finished p.0
      → left p.1 ≤ most
      → most ≢ 0
      → Polled most (polled stopped pause poll wait again p)
  unfolding polled
  polled-Polled wait most again (err e, s) ih ends fewer some_left =
      (Finished-err e ends, fewer, tt)
  polled-Polled wait most again (ok [], s) ih ends fewer some_left =
      let later : left (pause wait s) < most = omega (arith, pause_left wait s) in
      Polled-le (left (pause wait s)) most (again (pause wait s)) (omega arith)
        (ih (pause wait s) later)
  polled-Polled wait most again (ok (j ∷ js), s) ih ends fewer some_left = ((λ e. cc), fewer, tt)

  running_left : (s : S) → stopped s ≡ false → left s ≢ 0
  running_left s running none_left = let t = stops s none_left in cc

  next_batch-Polled :
      (fuel wait : ℕ) (s : S)
      → left s < fuel
      → Polled (left s) (next_batch stopped pause poll fuel wait s)
  unfolding next_batch
  next_batch-Polled zero wait s h = absurd (omega arith)
  next_batch-Polled (suc fuel) wait s h = elim (Bool-cases (stopped s)) [
    | inl over ↦ rw (over, next_batch) ((λ e. cc), omega arith, tt)
    | inr running ↦
        rw (running, next_batch)
          (polled-Polled wait (left s) (next_batch stopped pause poll fuel (next_wait wait))
            (poll s) (λ s' fewer. next_batch-Polled fuel (next_wait wait) s' (omega arith))
            (poll_ends s) (poll_left s) (running_left s running))
  ]

  -- A loop over a batch that returned an exception, stopped, or left less to come.
  abbrev Worked : ℕ → Result Bool × S → Type 0
  Worked most (err e, s) = Finished {A = Bool} (err e)
  Worked most (ok true, s) = Unit
  Worked most (ok false, s) = left s ≤ most

  Worked-le : (m n : ℕ) (r : Result Bool × S) → m ≤ n → Worked m r → Worked n r
  Worked-le m n (err e, s) h w = w
  Worked-le m n (ok true, s) h w = tt
  Worked-le m n (ok false, s) h w = omega arith

  returning-Worked :
      (most : ℕ) (r : Result (Unit {0}) × S)
      → Finished r.0
      → Worked most (returning stopped settle hand_back r)
  unfolding returning
  returning-Worked most (err e, s) h = Finished-err e h
  returning-Worked most (ok u, s) h = tt

  settled-Worked :
      (most : ℕ) (js : List J) (go_on : S → Result Bool × S) (r : Result (Unit {0}) × S)
      → Finished r.0
      → left r.1 ≤ most
      → ((s : S) → Worked (left s) (go_on s))
      → Worked most (settled stopped settle hand_back js go_on r)
  unfolding settled
  settled-Worked most js go_on (err e, s) ends fewer ih = Finished-err e ends
  settled-Worked most js go_on (ok u, s) ends fewer ih = elim (Bool-cases (stopped s)) [
    | inl over ↦ rw (over, settled) (returning-Worked most (hand_back js s) (hand_back_ends js s))
    | inr running ↦ rw (running, settled) (Worked-le (left s) most (go_on s) fewer (ih s))
  ]

  each-Worked : (js : List J) (s : S) → Worked (left s) (each stopped settle hand_back js s)
  unfolding each
  each-Worked [] s = omega arith
  each-Worked (j ∷ js) s =
      settled-Worked (left s) js (each stopped settle hand_back js) (settle j s) (settle_ends j s)
        (omega (arith, settle_left j s)) (each-Worked js)

  each-Worked-cons :
      (j : J) (js : List J) (s : S) → Worked (left s - 1) (each stopped settle hand_back (j ∷ js) s)
  unfolding each
  each-Worked-cons j js s =
      settled-Worked (left s - 1) js (each stopped settle hand_back js) (settle j s)
        (settle_ends j s) (settle_left j s) (each-Worked js)

  went_on-Finished :
      (most : ℕ) (again : S → Result (Unit {0}) × S) (r : Result Bool × S)
      → Worked most r
      → ((s : S) → left s ≤ most → Finished (again s).0)
      → Finished (went_on stopped pause poll settle hand_back again r).0
  unfolding went_on
  went_on-Finished most again (err e, s) w ih = Finished-err e w
  went_on-Finished most again (ok true, s) w ih = λ e. cc
  went_on-Finished most again (ok false, s) w ih = ih s w

  with_batch-Finished :
      (most : ℕ) (again : S → Result (Unit {0}) × S) (r : Result (Option (List J)) × S)
      → Polled most r
      → ((s : S) → left s ≤ most - 1 → Finished (again s).0)
      → Finished (with_batch stopped pause poll settle hand_back again r).0
  unfolding with_batch
  with_batch-Finished most again (err e, s) p ih = Finished-err e p.0
  with_batch-Finished most again (ok none, s) p ih = λ e. cc
  with_batch-Finished most again (ok (some []), s) p ih = absurd (p.2)
  with_batch-Finished most again (ok (some (j ∷ js)), s) p ih =
      went_on-Finished (most - 1) again (each stopped settle hand_back (j ∷ js) s)
        (Worked-le (left s - 1) (most - 1) (each stopped settle hand_back (j ∷ js) s)
          (omega (arith, p.1)) (each-Worked-cons j js s))
        ih

  -- A worker that is stopped in the end leaves its run loop. Where another thread calls `stop` after
  -- `left` further waits and settlements at most, and polls, settlements and the handing back return
  -- or raise an exception, `run` with more rounds than that returns or raises an exception.
  pub run-Finished :
      (fuel : ℕ) (s : S)
      → left s < fuel
      → Finished (run stopped pause poll settle hand_back fuel s).0
  unfolding run
  run-Finished zero s h = absurd (omega arith)
  run-Finished (suc fuel) s h = elim (Bool-cases (stopped s)) [
    | inl over ↦
        let none_taken : next_batch stopped pause poll (suc fuel) first_wait s ≡ (ok none, s) =
          unfold next_batch in rw (over, next_batch) refl in
        rw (none_taken, with_batch) (λ e. cc)
    | inr running ↦
        let some_left = running_left s running in
        with_batch-Finished (left s) (run stopped pause poll settle hand_back fuel)
          (next_batch stopped pause poll (suc fuel) first_wait s)
          (next_batch-Polled (suc fuel) first_wait s h)
          (λ s' fewer. run-Finished fuel s' (omega arith))
  ]
