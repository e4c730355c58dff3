-- ===== src/Redis/Client.antt =====
-- The commands that the program runs, at a key and a time, and what Redis documents of them.
use tpulse_backend.Prelude.{
  ℕ, ◌+◌, ◌*◌, ◌≡◌, ◌≢◌, Bool, true, false, Option, none, some, List, if◌then◌else◌, ltb, is_some,
}

pub record Entry (V : Type 0) : Type 0 where
  pub key : ℕ
  pub value : V
  pub expires_at : ℕ

pub record Redis : Type 1 where
  pub get : {V : Type 0} → (key now : ℕ) → List (Entry V) → Option V
  -- `SET key v EX seconds`
  pub set_ex : {V : Type 0} → (key : ℕ) → V → (seconds now : ℕ) → List (Entry V) → List (Entry V)
  -- `SET key v EX seconds NX` writes only an absent key; `true` is the reply OK.
  pub set_nx :
      {V : Type 0} → (key : ℕ) → V → (seconds now : ℕ) → List (Entry V) → Bool × List (Entry V)
  pub del : {V : Type 0} → (key : ℕ) → List (Entry V) → List (Entry V)

pub record IsRedis (redis : Redis) : Type 1 where
  -- A key that was set is read until its life is over.
  pub get-set_ex_self :
      {V : Type 0} (key : ℕ) (v : V) (seconds set_at now : ℕ) (m : List (Entry V))
      → redis.get key now (redis.set_ex key v seconds set_at m)
        ≡ (if ltb now (set_at + seconds * 1000) then some v else none)
  pub get-set_ex_ne :
      {V : Type 0} (key other : ℕ) (v : V) (seconds set_at now : ℕ) (m : List (Entry V))
      → key ≢ other
      → redis.get other now (redis.set_ex key v seconds set_at m) ≡ redis.get other now m
  pub set_nx_lem :
      {V : Type 0} (key : ℕ) (v : V) (seconds now : ℕ) (m : List (Entry V))
      → redis.set_nx key v seconds now m ≡ (
          if is_some (redis.get key now m)
          then (false, m)
          else (true, redis.set_ex key v seconds now m))
  pub get-del_self :
      {V : Type 0} (key now : ℕ) (m : List (Entry V)) → redis.get key now (redis.del key m) ≡ none
  pub get-del_ne :
      {V : Type 0} (key other now : ℕ) (m : List (Entry V))
      → key ≢ other
      → redis.get other now (redis.del key m) ≡ redis.get other now m
