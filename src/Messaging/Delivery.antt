-- ===== src/Messaging/Delivery.antt =====
-- A job of the outbox queue runs once: what a second delivery of it does.
use tpulse_backend.Prelude.{
  ℕ, ◌+◌, ◌*◌, ◌<◌, ◌≡◌, ◌⊎◌, true, false, none, some, List, [], ◌∷◌, arith, ◌==◌, is_some,
  update_where, All, All-elem, Bool-cases, Option-cases, inl, inr, Elem,
}
use mathlib.Core.Path.{subst}
use tpulse_backend.Redis.{Redis, IsRedis}
use tpulse_backend.Db.{Prisma, IsPrisma}
use tpulse_backend.Effects.{Failure, ok, err, internal}
use tpulse_backend.Board.{Board, Env, OutboxMessage}
use tpulse_backend.Messaging.Processor.{
  lock_seconds, processed_at, handle, change_message, run_handler, take_lock, run_message,
  process_found, process,
}
use tpulse_backend.Messaging.Frames.{handle-job_locks}

-- After `processed_at` every row of the message is a processed one.
processed_at-All :
    (id now : ℕ) (t : List OutboxMessage)
    → All
        (λ m. (m.id == id) ≡ true → is_some m.processed_at_utc ≡ true)
        (update_where (λ m. m.id == id) (processed_at now) t)
processed_at-All id now [] = tt
processed_at-All id now (m ∷ t) = (λ h. ground (arith, h), processed_at-All id now t)

module _ (redis : Redis) (redis_laws : IsRedis redis) (db : Prisma) (laws : IsPrisma db) where
  -- A message whose first row is processed is left alone.
  process_processed :
      (env : Env) (id : ℕ) (s : Board)
      → ((m : OutboxMessage)
          → db.find_first (λ r. r.id == id) s.outbox ≡ some m
          → is_some m.processed_at_utc ≡ true)
      → process redis db env id s ≡ (ok tt, s)
  unfolding process process_found run_message
  process_processed env id s h = elim (Option-cases (db.find_first (λ m. m.id == id) s.outbox)) [
    | inl nothing ↦ ground (arith, nothing)
    | inr (m, found) ↦ ground (arith, found, h m found)
  ]

  -- The handler's own writes keep the locks, and so do the two of `run_handler`.
  run_handler-job_locks :
      (env : Env) (m : OutboxMessage) (s : Board)
      → (run_handler redis db env m s).1.job_locks ≡ s.job_locks
  unfolding run_handler change_message
  run_handler-job_locks env m s = ground (arith, handle-job_locks db env redis m.event s)

  run_handler_done :
      (env : Env) (m : OutboxMessage) (s : Board)
      → (run_handler redis db env m s).0 ≡ ok tt
      → (run_handler redis db env m s).1.outbox
        ≡ update_where
            (λ r. r.id == m.id)
            (processed_at env.now)
            (handle redis db env m.event s).1.outbox
  unfolding run_handler change_message
  run_handler_done env m s h = ground (
    arith,
    h,
    laws.update_rows (λ r. r.id == m.id) (processed_at env.now)
        (handle redis db env m.event s).1.outbox,
  )

  -- The lock that `take_lock` took is held for its seconds.
  take_lock_held :
      (env later : Env) (m : OutboxMessage) (s : Board)
      → env.redis_up ≡ true
      → later.now < env.now + lock_seconds * 1000
      → redis.get m.id env.now s.job_locks ≡ none
      → (t : Board) → t.job_locks ≡ (take_lock redis db env m.id s).1.job_locks
      → is_some (redis.get m.id later.now t.job_locks) ≡ true
  unfolding take_lock
  take_lock_held env later m s up soon free t e = ground (
    arith,
    up,
    soon,
    free,
    e,
    redis_laws.set_nx_lem m.id tt lock_seconds env.now s.job_locks,
    redis_laws.get-set_ex_self m.id tt lock_seconds env.now later.now s.job_locks,
  )

  -- A job that finds the lock of every message with its id taken does nothing.
  process_locked :
      (env : Env) (id : ℕ) (s : Board)
      → env.redis_up ≡ true
      → is_some (redis.get id env.now s.job_locks) ≡ true
      → process redis db env id s ≡ (ok tt, s)
  unfolding process process_found run_message take_lock
  process_locked env id s up held = elim (Option-cases (db.find_first (λ m. m.id == id) s.outbox)) [
    | inl nothing ↦ ground (arith, nothing)
    | inr (m, found) ↦
        let same = laws.find_first_match (λ r. r.id == id) s.outbox m found in
        ground (
          arith,
          found,
          up,
          held,
          same,
          redis_laws.set_nx_lem m.id tt lock_seconds env.now s.job_locks,
        )
  ]

  -- What `process` does with a pending message whose lock is free: the handler runs on the store
  -- with the lock taken.
  process_pending :
      (env : Env) (id : ℕ) (s : Board) (m : OutboxMessage)
      → db.find_first (λ r. r.id == id) s.outbox ≡ some m
      → is_some m.processed_at_utc ≡ false
      → env.redis_up ≡ true
      → redis.get id env.now s.job_locks ≡ none
      → process redis db env id s ≡ run_handler redis db env m (take_lock redis db env m.id s).1
  unfolding process process_found run_message take_lock
  process_pending env id s m found pending up free =
      let same = laws.find_first_match (λ r. r.id == id) s.outbox m found in
      ground (
        arith,
        found,
        pending,
        up,
        free,
        same,
        redis_laws.set_nx_lem m.id tt lock_seconds env.now s.job_locks,
      )

  process_down :
      (env : Env) (id : ℕ) (s : Board) (m : OutboxMessage)
      → db.find_first (λ r. r.id == id) s.outbox ≡ some m
      → is_some m.processed_at_utc ≡ false
      → env.redis_up ≡ false
      → (process redis db env id s).0 ≡ err internal
  unfolding process process_found run_message take_lock
  process_down env id s m found pending down = ground (arith, found, pending, down)

  -- A call either leaves the store and ends without an error, or finds Redis down, or runs the
  -- handler under the lock.
  process-cases :
      (env : Env) (id : ℕ) (s : Board)
      → (process redis db env id s ≡ (ok tt, s)
          × ((redis.get id env.now s.job_locks ≡ none)
              → (m : OutboxMessage) → db.find_first (λ r. r.id == id) s.outbox ≡ some m
              → is_some m.processed_at_utc ≡ true))
        ⊎ (((env.redis_up ≡ false) × ((process redis db env id s).0 ≡ err internal))
            ⊎ ((m : OutboxMessage) × (m.id ≡ id)
                × (redis.get id env.now s.job_locks ≡ none)
                × (process redis db env id s
                    ≡ run_handler redis db env m (take_lock redis db env m.id s).1)))
  process-cases env id s = elim (Option-cases (db.find_first (λ m. m.id == id) s.outbox)) [
    | inl nothing ↦ inl (process_processed env id s (λ m e. cc), λ free m e. cc)
    | inr (m, found) ↦ elim (Bool-cases (is_some m.processed_at_utc)) [
      | inl old ↦ inl (
        process_processed env id s (λ n e. ground (arith, old, found, e)),
        λ free n e. ground (arith, old, found, e),
      )
      | inr pending ↦ elim (Bool-cases env.redis_up) [
        | inr down ↦ inr (inl (down, process_down env id s m found pending down))
        | inl up ↦ elim (Option-cases (redis.get id env.now s.job_locks)) [
          | inl free ↦ inr (
              inr (
                m,
                (ground (arith, laws.find_first_match (λ r. r.id == id) s.outbox m found)),
                free,
                process_pending env id s m found pending up free,
              ))
          | inr (v, held) ↦ inl (process_locked env id s up (ground (arith, held)), λ free n e. cc)
        ]
      ]
    ]
  ]

  -- A job that failed after it took its lock, and that is delivered again within ten minutes, Redis
  -- answering both times, ends
  -- without an error and changes nothing: its handler does not run a second time.
  pub process_retry :
      (env later : Env) (id : ℕ) (s : Board) (e : Failure)
      → env.redis_up ≡ true
      → later.redis_up ≡ true
      → later.now < env.now + lock_seconds * 1000
      → (process redis db env id s).0 ≡ err e
      → process redis db later id (process redis db env id s).1
        ≡ (ok tt, (process redis db env id s).1)
  process_retry env later id s e up again soon failed = elim (process-cases env id s) [
    | inl idle ↦ ground (arith, failed, idle)
    | inr (inl (down, _)) ↦ cc
    | inr (inr (m, same, free, run)) ↦
        let kept = run_handler-job_locks env m (take_lock redis db env m.id s).1 in
        let s' = (process redis db env id s).1 in
        let locks : s'.job_locks ≡ (take_lock redis db env m.id s).1.job_locks = rw (run, kept) in
        let held = take_lock_held env later m s up soon (rw (same, free)) s' locks in
        process_locked later id s' again
          (subst (λ k. is_some (redis.get k later.now s'.job_locks) ≡ true) same held)
  ]

  -- A job that ended without an error, its lock free before, changes nothing when it is delivered
  -- again, however much later.
  pub process_once :
      (env later : Env) (id : ℕ) (s : Board)
      → redis.get id env.now s.job_locks ≡ none
      → (process redis db env id s).0 ≡ ok tt
      → process redis db later id (process redis db env id s).1
        ≡ (ok tt, (process redis db env id s).1)
  process_once env later id s free done = elim (process-cases env id s) [
    | inl idle ↦ rw idle.0 (process_processed later id s (idle.1 free))
    | inr (inl (_, refused)) ↦ cc
    | inr (inr (m, same, _, run)) ↦
        let s1 = (take_lock redis db env m.id s).1 in
        let done' : (run_handler redis db env m s1).0 ≡ ok tt = rw (← run, done) in
        let rows = run_handler_done env m s1 done' in
        let all = processed_at-All m.id env.now (handle redis db env m.event s1).1.outbox in
        rw run (
          process_processed later id (run_handler redis db env m s1).1 (λ n found.
            All-elem _ n _ all
              (subst (λ t. Elem n t) rows (laws.find_first_elem (λ r. r.id == id) _ n found))
              (rw (same, laws.find_first_match (λ r. r.id == id) _ n found))))
  ]
