-- ===== src/Queue/Settled.antt =====
-- Every job of a batch is settled or handed back, once and in order: the statements that a worker
-- sends, noted beside the world.
use tessaridb_sdk_python.Prelude.{
  suc, ◌≤◌, ◌≡◌, refl, ap, sym, ◌∙◌, Bool, true, false, Bool-cases, inl, inr, none, List, [], ◌∷◌,
  ◌++◌, append-nil, append_assoc, length, arith, if◌then◌else◌,
}
use tessaridb_sdk_python.Result.{Str, Result, ok, err, bind}
use tessaridb_sdk_python.Query.Filter.{Binder}
use tessaridb_sdk_python.Connection.Messages.{Reply}
use tessaridb_sdk_python.Worker.Polling.{each, settled, returning}
use tessaridb_sdk_python.Queue.Statements.{done_statement, release_statement}
use tessaridb_sdk_python.Queue.Jobs.{Job}
use tessaridb_sdk_python.Queue.Loop.{
  Queue, no_answer, done, release, handed_back, hand_back, settled_auto, settle_auto,
}

-- That a handler returned or raised an `Exception` for a job, and a script that was sent.
pub data Happening : Type 0 where
  saw : Job → Bool → Happening
  sent : Str → Happening

-- A world with what happened in it.
abbrev pub Logged : Type 0 → Type 0
Logged S = S × List Happening

unfoldable pub logging :
    {S : Type 0}
    → (Str → Binder → S → Result Reply × S)
    → Str
    → Binder
    → Logged S
    → Result Reply × Logged S
logging execute script parameters (s, log) =
    let (r, s') = execute script parameters s in (r, (s', log ++ sent script ∷ []))

unfoldable pub seen : {S : Type 0} → Job → Result Bool × S → List Happening → Result Bool × Logged S
seen j (ok fate, s) log = (ok fate, (s, log ++ saw j fate ∷ []))
seen j (err e, s) log = (err e, (s, log))

unfoldable pub seeing :
    {S : Type 0} → (Job → S → Result Bool × S) → Job → Logged S → Result Bool × Logged S
unfolding seen
seeing handler j (s, log) = seen j (handler j s) log

unfoldable pub fate_script : Queue → Bool → Job → Str
fate_script q finished j =
    if finished
    then done_statement q.statements j.identity
    else release_statement q.statements j.identity none

unfoldable pub back_events : Queue → Job → List Happening
unfolding fate_script
back_events q j = sent (fate_script q false j) ∷ []

unfoldable pub fate_events : Queue → Bool → Job → List Happening
fate_events q fate j = saw j fate ∷ sent (fate_script q fate j) ∷ []

-- For the jobs that the handler saw, its answer and the statement that this asks for; the others are
-- released.
unfoldable pub batch_events : Queue → List Bool → List Job → List Happening
batch_events q fates [] = []
batch_events q [] (j ∷ js) = back_events q j ++ batch_events q [] js
batch_events q (fate ∷ fates) (j ∷ js) = fate_events q fate j ++ batch_events q fates js

module _ {S : Type 0} (execute : Str → Binder → S → Result Reply × S) (stopped : S → Bool)
    (handler : Job → S → Result Bool × S) (q : Queue) where
  -- What a loop over a batch sent, when it went through all of it, when it was stopped, and when an
  -- exception ended it.
  abbrev pub Settles : List Job → List Happening → Result Bool × Logged S → Type 0
  Settles js log (ok false, (s, log')) =
      (fates : List Bool) × (length fates ≡ length js) × (log' ≡ log ++ batch_events q fates js)
  Settles js log (ok true, (s, log')) =
      (fates : List Bool) × (length fates ≤ length js) × (log' ≡ log ++ batch_events q fates js)
  Settles js log (err e, (s, log')) =
      (fates : List Bool) × (rest : List Happening) × (log' ++ rest
        ≡ log ++ batch_events q fates js)

  abbrev Returns : List Job → List Happening → Result (Unit {0}) × Logged S → Type 0
  Returns js log (ok u, (s, log')) = log' ≡ log ++ batch_events q [] js
  Returns js log (err e, (s, log')) =
      (rest : List Happening) × (log' ++ rest ≡ log ++ batch_events q [] js)

  Returns-cons :
      (j : Job) (js : List Job) (log : List Happening) (r : Result (Unit {0}) × Logged S)
      → Returns js (log ++ back_events q j) r
      → Returns (j ∷ js) log r
  unfolding batch_events
  Returns-cons j js log (ok u, (s, log')) h =
      h ∙ append_assoc log (back_events q j) (batch_events q [] js)
  Returns-cons j js log (err e, (s, log')) (rest, h) =
      (rest, h ∙ append_assoc log (back_events q j) (batch_events q [] js))

  handed_back-Returns :
      (j : Job) (js : List Job) (log : List Happening)
      (go_on : Logged S → Result (Unit {0}) × Logged S) (r : Result (Unit {0})) (s : S)
      → ((s : S) (log : List Happening) → Returns js log (go_on (s, log)))
      → Returns (j ∷ js) log (handed_back (logging execute) go_on (r, (s, log ++ back_events q j)))
  unfolding handed_back batch_events
  handed_back-Returns j js log go_on (err e) s ih =
      (batch_events q [] js, append_assoc log (back_events q j) (batch_events q [] js))
  handed_back-Returns j js log go_on (ok u) s ih =
      let sent = log ++ back_events q j in Returns-cons j js log (go_on (s, sent)) (ih s sent)

  hand_back-Returns :
      (js : List Job) (s : S) (log : List Happening)
      → Returns js log (hand_back (logging execute) q js (s, log))
  unfolding hand_back batch_events release no_answer logging fate_script back_events
  hand_back-Returns [] s log = sym (append-nil log)
  hand_back-Returns (j ∷ js) s log =
      let (reply, s') = execute (release_statement q.statements j.identity none) [] s in
      handed_back-Returns j js log (hand_back (logging execute) q js) (bind reply (λ r. ok tt)) s'
        (hand_back-Returns js)

  Settles-cons :
      (fate : Bool) (j : Job) (js : List Job) (log : List Happening) (r : Result Bool × Logged S)
      → Settles js (log ++ fate_events q fate j) r
      → Settles (j ∷ js) log r
  unfolding batch_events
  Settles-cons fate j js log (ok false, (s, log')) (fates, all, h) = (
    fate ∷ fates,
    ap suc all,
    h ∙ append_assoc log (fate_events q fate j) (batch_events q fates js),
  )
  Settles-cons fate j js log (ok true, (s, log')) (fates, some_seen, h) = (
    fate ∷ fates,
    omega arith,
    h ∙ append_assoc log (fate_events q fate j) (batch_events q fates js),
  )
  Settles-cons fate j js log (err e, (s, log')) (fates, rest, h) =
      (fate ∷ fates, rest, h ∙ append_assoc log (fate_events q fate j) (batch_events q fates js))

  returning-Settles :
      (js : List Job) (log : List Happening) (r : Result (Unit {0}) × Logged S)
      → Returns js log r
      → Settles js log (
          returning
            (λ s. stopped s.0)
            (settle_auto (logging execute) q (seeing handler))
            (hand_back (logging execute) q)
            r)
  unfolding returning
  returning-Settles js log (ok u, (s, log')) h = ([], omega arith, h)
  returning-Settles js log (err e, (s, log')) (rest, h) = ([], rest, h)

  unfoldable pub stopped_here : Logged S → Bool
  stopped_here s = stopped s.0

  unfoldable pub worked : List Job → Logged S → Result Bool × Logged S
  worked =
      each stopped_here (settle_auto (logging execute) q (seeing handler))
        (hand_back (logging execute) q)

  settled-Settles :
      (fate : Bool) (j : Job) (js : List Job) (log : List Happening) (r : Result (Unit {0})) (s : S)
      → ((s : S) (log : List Happening) → Settles js log (worked js (s, log)))
      → Settles (j ∷ js) log (
          settled stopped_here
            (settle_auto (logging execute) q (seeing handler))
            (hand_back (logging execute) q)
            js
            (worked js)
            (r, (s, log ++ fate_events q fate j)))
  unfolding settled batch_events stopped_here
  settled-Settles fate j js log (err e) s ih = (
    fate ∷ [],
    batch_events q [] js,
    append_assoc log (fate_events q fate j) (batch_events q [] js),
  )
  settled-Settles fate j js log (ok u) s ih =
      let sent = log ++ fate_events q fate j in
      Settles-cons fate j js log _ (elim (Bool-cases (stopped s)) [
        | inl over ↦
            rw (over, settled)
              (returning-Settles js sent (hand_back (logging execute) q js (s, sent))
                (hand_back-Returns js s sent))
        | inr running ↦ rw (running, settled) (ih s sent)
      ])

  -- What settles a job after its handler: the answer and the world, whatever was sent.
  executed : Bool → Job → S → Result Reply × S
  executed fate j s = execute (fate_script q fate j) [] s

  settled_by :
      (j : Job) (s : S) (log : List Happening) (fate : Bool)
      → (if fate
          then done (logging execute) q j (s, log ++ saw j fate ∷ [])
          else release (logging execute) q none j (s, log ++ saw j fate ∷ []))
        ≡ (
          bind (executed fate j s).0 (λ r. ok tt),
          ((executed fate j s).1, log ++ fate_events q fate j),
        )
  unfolding done release no_answer logging fate_script fate_events executed
  settled_by j s log true =
      rw (append_assoc log (saw j true ∷ []) (sent (fate_script q true j) ∷ [])) refl
  settled_by j s log false =
      rw (append_assoc log (saw j false ∷ []) (sent (fate_script q false j) ∷ [])) refl

  step-Settles :
      (j : Job) (js : List Job) (log : List Happening) (p : Result Bool × S)
      → ((s : S) (log : List Happening) → Settles js log (worked js (s, log)))
      → Settles (j ∷ js) log (
          settled stopped_here
            (settle_auto (logging execute) q (seeing handler))
            (hand_back (logging execute) q)
            js
            (worked js)
            (settled_auto (logging execute) q j (seen j p log)))
  unfolding settled settled_auto seen batch_events
  step-Settles j js log (err e, s) ih = ([], batch_events q [] (j ∷ js), refl)
  step-Settles j js log (ok fate, s) ih =
      let (reply, s') = executed fate j s in
      rw (settled_by j s log fate) (settled-Settles fate j js log (bind reply (λ r. ok tt)) s' ih)

  -- The loop of `run_auto` over a batch sends one statement for each job, in the order of the batch,
  -- and none besides: where the handler returned it deletes the record, where the handler raised an
  -- `Exception` it releases it, each before the handler sees the next, and what the handler did not
  -- see it releases. Where the loop goes on, the handler saw all of them. Where an exception ends the
  -- loop, be it one of the handler that is no `Exception`, what happened is the beginning of this.
  pub each-Settles :
      (js : List Job) (s : S) (log : List Happening) → Settles js log (worked js (s, log))
  unfolding worked each batch_events settle_auto seeing
  each-Settles [] s log = ([], refl, sym (append-nil log))
  each-Settles (j ∷ js) s log = step-Settles j js log (handler j s) (each-Settles js)
