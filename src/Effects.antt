-- ===== src/Effects.antt =====
-- How the services run: a call takes the store and returns its result and the store as the call
-- left it. What was written before an exception stays written, except under a transaction.
use tpulse_backend.Prelude.{Bool, true, false, Option, none, some}

-- The NestJS exceptions by their class; `internal` is any other error, which the filter turns
-- into status 500.
pub data Failure : Type 0 where
  bad_request unauthorized forbidden not_found conflict unavailable internal : Failure

pub data Result (A : Type 0) : Type 0 where
  ok : A → Result A
  err : Failure → Result A

abbrev pub Action : Type 0 → Type 0 → Type 0
Action S A = S → Result A × S

module _ {S A : Type 0} where
  abbrev pub pure : A → Action S A
  pure a s = (ok a, s)

  abbrev pub throw : Failure → Action S A
  throw e s = (err e, s)

  abbrev pub gets : (S → A) → Action S A
  gets f s = (ok (f s), s)

  abbrev pub or_throw : Option A → Failure → Action S A
  or_throw none e s = (err e, s)
  or_throw (some a) e s = (ok a, s)

  -- `$transaction`: all that the call writes, or nothing.
  abbrev pub transaction : Action S A → Action S A
  transaction m s = let (r, s') = m s in elim r [ ok a ↦ (ok a, s') | err e ↦ (err e, s) ]

infixl 5 ◌>>=◌ ◌>>◌
abbrev pub ◌>>=◌ : {S A B : Type 0} → Action S A → (A → Action S B) → Action S B
◌>>=◌ m f s = let (r, s') = m s in elim r [ ok a ↦ f a s' | err e ↦ (err e, s') ]

abbrev pub ◌>>◌ : {S A B : Type 0} → Action S A → Action S B → Action S B
m >> k = m >>= λ _. k

module _ {S : Type 0} where
  abbrev pub modify : (S → S) → Action S (Unit {0})
  modify f s = (ok tt, f s)

  -- `if (b) throw`
  abbrev pub throw_if : Bool → Failure → Action S (Unit {0})
  throw_if true e s = (err e, s)
  throw_if false e s = (ok tt, s)

  -- A write that the database may refuse.
  abbrev pub write : (S → Option S) → Failure → Action S (Unit {0})
  write f e s = elim (f s) [ none ↦ (err e, s) | some s' ↦ (ok tt, s') ]

  -- `if (b) { … }`
  abbrev pub when : Bool → Action S (Unit {0}) → Action S (Unit {0})
  when true m s = m s
  when false m s = (ok tt, s)

  -- `try { … } catch { log }`
  abbrev pub attempt : Action S (Unit {0}) → Action S (Unit {0})
  attempt m s = (ok tt, (m s).1)

  -- A `create` whose unique violation (P2002) is caught: `false` then.
  abbrev pub try_write : (S → Option S) → Action S Bool
  try_write f s = elim (f s) [ none ↦ (ok false, s) | some s' ↦ (ok true, s') ]
