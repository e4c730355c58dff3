-- ===== src/Redis/Reference.antt =====
-- A keyspace as an association list with expiry times, which meets the laws.
use tpulse_backend.Prelude.{
  ℕ, ◌+◌, ◌*◌, ◌≡◌, ◌≢◌, ◌<◌, inl, inr, Elem, ◌++◌, refl, Bool, true, false, Option, none, some,
  List, [], ◌∷◌, if◌then◌else◌, ltb, is_some, ◌==◌, filter, not, arith,
}
use tpulse_backend.Redis.Client.{Entry, Redis, IsRedis}
use tpulse_backend.Redis.Sets.{RedisSets, IsRedisSets}

abbrev read : {V : Type 0} → ℕ → ℕ → List (Entry V) → Option V
read key now [] = none
read key now (e ∷ m) =
    let rest = read key now m in
    if e.key == key then (if ltb now e.expires_at then some e.value else none) else rest

abbrev erase : {V : Type 0} → ℕ → List (Entry V) → List (Entry V)
erase key = filter (λ e. not (e.key == key))

abbrev put : {V : Type 0} → ℕ → V → ℕ → ℕ → List (Entry V) → List (Entry V)
put key v seconds now m = record { key = key; value = v; expires_at = now + seconds * 1000 } ∷ m

abbrev pub list_redis : Redis
list_redis = record {
  get = λ key now m. read key now m;
  set_ex = λ key v seconds now m. put key v seconds now m;
  set_nx = λ key v seconds now m.
      if is_some (read key now m) then (false, m) else (true, put key v seconds now m);
  del = λ key m. erase key m;
}

read-erase_self :
    {V : Type 0} (key now : ℕ) (m : List (Entry V)) → read key now (erase key m) ≡ none
read-erase_self key now [] = refl
read-erase_self key now (e ∷ m) = ground (arith, read-erase_self key now m)

read-erase_ne :
    {V : Type 0} (key other now : ℕ) (m : List (Entry V))
    → key ≢ other
    → read other now (erase key m) ≡ read other now m
read-erase_ne key other now [] h = refl
read-erase_ne key other now (e ∷ m) h = ground (arith, read-erase_ne key other now m h)

pub list_redis-IsRedis : IsRedis list_redis
list_redis-IsRedis = record {
  get-set_ex_self = λ key v seconds set_at now m. ground arith;
  get-set_ex_ne = λ key other v seconds set_at now m h. ground arith;
  set_nx_lem = λ key v seconds now m. refl;
  get-del_self = λ key now m. read-erase_self key now m;
  get-del_ne = λ key other now m h. read-erase_ne key other now m h;
}

-- The members of one key, and when they expire; without a time they stay.
pub record SetEntry : Type 0 where
  pub key : ℕ
  pub members : List ℕ
  pub expires_at : Option ℕ

abbrev is_live : ℕ → Option ℕ → Bool
is_live now none = true
is_live now (some t) = ltb now t

abbrev members_of : ℕ → ℕ → List SetEntry → List ℕ
members_of key now [] = []
members_of key now (e ∷ m) =
    let rest = members_of key now m in
    if e.key == key then (if is_live now e.expires_at then e.members else []) else rest

abbrev with_expiry : ℕ → SetEntry → SetEntry
with_expiry t e = record e { expires_at = some t }

abbrev expire_entry : ℕ → ℕ → List SetEntry → List SetEntry
expire_entry key t [] = []
expire_entry key t (e ∷ m) =
    let rest = expire_entry key t m in if e.key == key then with_expiry t e ∷ m else e ∷ rest

abbrev new_entry : ℕ → List ℕ → SetEntry
new_entry key ids = record { key = key; members = ids; expires_at = none }

abbrev pub list_sets : RedisSets
list_sets = record {
  Keyspace = List SetEntry;
  sadd = λ key ids now m. new_entry key (ids ++ members_of key now m) ∷ m;
  expire = λ key seconds now m. expire_entry key (now + seconds * 1000) m;
  del_set = λ key m. filter (λ e. not (e.key == key)) m;
  smembers = λ key now m. members_of key now m;
}

members_of-del :
    (key now : ℕ) (m : List SetEntry) → members_of key now (filter (λ e. not (e.key == key)) m) ≡ []
members_of-del key now [] = refl
members_of-del key now (e ∷ m) = ground (arith, members_of-del key now m)

append_left-Elem : (x : ℕ) (xs ys : List ℕ) → Elem x xs → Elem x (xs ++ ys)
append_left-Elem x [] ys e = absurd e
append_left-Elem x (z ∷ xs) ys (inl e) = inl e
append_left-Elem x (z ∷ xs) ys (inr e) = inr (append_left-Elem x xs ys e)

append_right-Elem : (x : ℕ) (xs ys : List ℕ) → Elem x ys → Elem x (xs ++ ys)
append_right-Elem x [] ys e = e
append_right-Elem x (z ∷ xs) ys e = inr (append_right-Elem x xs ys e)

members-sadd_expire :
    (key t set_at now : ℕ) (ids : List ℕ) (m : List SetEntry)
    → now < t
    → members_of key now (expire_entry key t (new_entry key (ids ++ members_of key set_at m) ∷ m))
      ≡ ids ++ members_of key set_at m
members-sadd_expire key t set_at now ids m soon = ground (arith, soon)

pub list_sets-IsRedisSets : IsRedisSets list_sets
list_sets-IsRedisSets = record {
  added = λ key ids seconds set_at now m id soon e.
      rw (members-sadd_expire key (set_at + seconds * 1000) set_at now ids m soon)
        (append_left-Elem id ids (members_of key set_at m) e);
  kept = λ key ids seconds set_at now m id soon e.
      rw (members-sadd_expire key (set_at + seconds * 1000) set_at now ids m soon)
        (append_right-Elem id ids (members_of key set_at m) e);
  deleted = λ key now m. members_of-del key now m;
  other = λ key key' ids seconds set_at now m ne. ground (arith, ne);
}
