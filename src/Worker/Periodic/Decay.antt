-- ===== src/Worker/Periodic/Decay.antt =====
-- How often the decay job is enqueued (apps/worker/periodic.py).
use synthetos.Prelude.{
  ℕ, ◌+◌, ◌*◌, ◌≤◌, ltb, ltb-false→le, ◌≡◌, ◌∙◌, refl, Bool, true, false, Option, some, List, [],
  ◌∷◌, arith, Bool-cases, ◌⊎◌, inl, inr, if◌then◌else◌, All,
}
use synthetos.Worker.{WorkerDb}
use synthetos.Worker.Periodic.{Settings, decay_interval, maybe_enqueue_decay}

-- A call of the periodic task, and what else happens to the tables before it.
pub record Call : Type 0 where
  pub id : ℕ
  pub now : ℕ
  pub meanwhile : WorkerDb → WorkerDb

abbrev pub one_if : Bool → ℕ
one_if b = if b then 1 else 0

-- The number of jobs that a sequence of calls enqueues, and the tables after it.
unfoldable pub decays : Settings → List Call → WorkerDb → ℕ × WorkerDb
unfolding maybe_enqueue_decay
decays settings [] db = (0, db)
decays settings (c ∷ cs) db =
    let (enqueued, db') = maybe_enqueue_decay settings c.id c.now (c.meanwhile db) in
    let (n, db'') = decays settings cs db' in (one_if enqueued + n, db'')

-- The last time that the row names.
abbrev pub LastAt : WorkerDb → ℕ → Type 0
LastAt db s =
    (job : Option ℕ) × (db.decay_state
      ≡ some (record { last_enqueued_at = some s; last_job_id = job }))

abbrev pub KeepsState : Call → Type 0
KeepsState c = (db : WorkerDb) → (c.meanwhile db).decay_state ≡ db.decay_state

none_more : (n interval s stop : ℕ) → n * interval + s ≤ stop → (0 + n) * interval + s ≤ stop
none_more n interval s stop h = let e : 0 + n ≡ n = omega arith in rw e h

-- One more job at `now`, an interval after `s` at least.
one_more :
    (n interval s now stop : ℕ)
    → s + interval ≤ now
    → n * interval + now ≤ stop
    → (1 + n) * interval + s ≤ stop
one_more n interval s now stop h k =
    let e : (1 + n) * interval ≡ interval + n * interval = grind arith in omega arith

module _ (settings : Settings) where
  -- A call enqueues no sooner than an interval after the last time, or does nothing.
  one_call :
      (id now : ℕ) (db : WorkerDb) (s : ℕ)
      → LastAt db s
      → ((maybe_enqueue_decay settings id now db).0 ≡ true)
          × (s + decay_interval settings ≤ now)
          × LastAt (maybe_enqueue_decay settings id now db).1 now
        ⊎ ((maybe_enqueue_decay settings id now db).0 ≡ false)
          × LastAt (maybe_enqueue_decay settings id now db).1 s
  unfolding maybe_enqueue_decay
  one_call id now db s (job, here) = elim (Bool-cases (ltb now (s + decay_interval settings))) [
    | inl shut ↦ rw (here, shut) (inr (refl, (job, refl)))
    | inr due ↦ rw (here, due) (inl (refl, ltb-false→le now _ due, (some id, refl)))
  ]

  -- From a last time `s`, however the calls come and whatever else keeps the row, the jobs that the
  -- calls enqueue up to a time `stop` fit into the time between by the interval.
  pub decays_bounded :
      (calls : List Call) (db : WorkerDb) (s stop : ℕ)
      → All KeepsState calls
      → LastAt db s
      → s ≤ stop
      → All (λ c. c.now ≤ stop) calls
      → (decays settings calls db).0 * decay_interval settings + s ≤ stop
  unfolding decays
  decays_bounded [] db s stop keeps last le times = omega arith
  decays_bounded (c ∷ cs) db s stop keeps last le times =
      let after_call = (maybe_enqueue_decay settings c.id c.now (c.meanwhile db)).1 in
      elim (one_call c.id c.now (c.meanwhile db) s (last.0, keeps.0 db ∙ last.1)) [
        | inl (took, after, last') ↦ rw took (
            one_more _ (decay_interval settings) s c.now stop after
              (decays_bounded cs after_call c.now stop keeps.1 last' times.0 times.1))
        | inr (left, last') ↦ rw left (
            none_more _ (decay_interval settings) s stop
              (decays_bounded cs after_call s stop keeps.1 last' le times.1))
      ]
