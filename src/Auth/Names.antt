-- ===== src/Auth/Names.antt =====
-- The search for a free user name ends.
use tpulse_backend.Prelude.{
  ℕ, zero, suc, ◌+◌, ◌≡◌, ◌≤◌, ◌<◌, refl, sym, ◌∙◌, ap, String, true, false, not, some, List, [],
  ◌∷◌, any, filter, All, Elem-any, any-none, length, is_some, str_eq, str_eq_iff, arith, Bool-cases,
  Option-cases, inl, inr,
}
use tpulse_backend.Db.{Prisma, IsPrisma}
use tpulse_backend.Effects.{ok}
use tpulse_backend.Auth.Types.{User, Store, Env}
use tpulse_backend.Auth.Google.{
  GoogleEnv, name_is, name_base, retry, search_name, unique_username_from_email,
}

-- The texts are pairwise different.
abbrev pub HasNoRepeats : List String → Type 0
HasNoRepeats [] = Unit
HasNoRepeats (x ∷ xs) = All (λ y. str_eq y x ≡ false) xs × HasNoRepeats xs

abbrev without : String → List User → List User
without name t = filter (λ u. not (name_is name u)) t

other_name :
    (u : User) (x y : String) → str_eq y x ≡ false → name_is y u ≡ true → name_is x u ≡ false
other_name u x y h e = rw ((str_eq_iff u.username y).0 e, h) refl

any-without :
    (x y : String) (t : List User)
    → str_eq y x ≡ false
    → any (name_is y) (without x t) ≡ any (name_is y) t
any-without x y [] h = refl
any-without x y (u ∷ t) h = elim (Bool-cases (name_is y u)) [
  | inl e ↦ ground (arith, e, other_name u x y h e)
  | inr e ↦ ground (arith, e, any-without x y t h)
]

length-without_le : (x : String) (t : List User) → length (without x t) ≤ length t
length-without_le x [] = omega arith
length-without_le x (u ∷ t) = ground (arith, length-without_le x t)

length-without :
    (x : String) (t : List User) → any (name_is x) t ≡ true → length (without x t) < length t
length-without x [] h = ground (arith, h)
length-without x (u ∷ t) h = elim (Bool-cases (name_is x u)) [
  | inl e ↦ ground (arith, e, length-without_le x t)
  | inr e ↦ ground (arith, e, h, length-without x t)
]

module _ (db : Prisma) (laws : IsPrisma db) (env : Env) (google : GoogleEnv) where
  -- The next candidates, of as many draws.
  abbrev pub later_names : ℕ → String → ℕ → List String
  later_names zero base n = []
  later_names (suc k) base n = retry db env google base n ∷ later_names k base (suc n)

  found-any :
      (name : String) (t : List User)
      → is_some (db.find_first (name_is name) t) ≡ any (name_is name) t
  found-any name t = elim (Option-cases (db.find_first (name_is name) t)) [
    | inl e ↦
        let free = any-none (name_is name) t (laws.find_first_none (name_is name) t e) in
        rw (e, free) refl
    | inr (u, e) ↦
        let there =
          Elem-any (name_is name) u t (laws.find_first_elem (name_is name) t u e)
            (laws.find_first_match (name_is name) t u e) in
        rw (e, there) refl
  ]

  -- A user whose name is no candidate does not matter.
  search-without :
      (fuel : ℕ) (base x name : String) (n : ℕ) (t : List User)
      → All (λ y. str_eq y x ≡ false) (name ∷ later_names fuel base n)
      → search_name db env google (suc fuel) base name n (without x t)
        ≡ search_name db env google (suc fuel) base name n t
  unfolding search_name
  search-without zero base x name n t h =
      rw (found-any name (without x t), found-any name t, any-without x name t h.0) refl
  search-without (suc k) base x name n t h =
      rw
        (
          found-any name (without x t),
          found-any name t,
          any-without x name t h.0,
          search-without k base x (retry db env google base n) (suc n) t h.1,
        )
        refl

  search-some :
      (fuel : ℕ) (base name : String) (n : ℕ) (t : List User)
      → HasNoRepeats (name ∷ later_names fuel base n)
      → length t ≤ fuel
      → is_some (search_name db env google (suc fuel) base name n t) ≡ true
  unfolding search_name
  search-some zero base name n [] h le = rw (found-any name []) refl
  search-some zero base name n (u ∷ t) h le = ground (arith, le)
  search-some (suc k) base name n t h le = elim (Bool-cases (any (name_is name) t)) [
    | inr free ↦ rw (found-any name t, free) refl
    | inl taken ↦
        let next = retry db env google base n in
        let fewer : length (without name t) ≤ k = omega (arith, le, length-without name t taken) in
        let rest = search-some k base next (suc n) (without name t) h.1 fewer in
        let same = search-without k base name next (suc n) t h.0 in
        rw (found-any name t, taken) (ap is_some (sym same) ∙ rest)
  ]

  pub search-free :
      (fuel : ℕ) (base name : String) (n : ℕ) (t : List User) (found : String × ℕ)
      → search_name db env google (suc fuel) base name n t ≡ some found
      → (any (name_is found.0) t ≡ false) × (found.1 ≤ n + fuel)
  unfolding search_name
  search-free zero base name n t found e = ground (arith, e, found-any name t)
  search-free (suc k) base name n t found e = elim (Bool-cases (any (name_is name) t)) [
    | inr free ↦ ground (arith, e, free, found-any name t)
    | inl taken ↦
        let next = retry db env google base n in
        let at : search_name db env google (suc k) base next (suc n) t ≡ some found =
          ground (arith, e, taken, found-any name t) in
        ground (arith, search-free k base next (suc n) t found at)
  ]

  -- If the name made of the address and the names of the next draws, one for each user, are pairwise
  -- different, the search for a user name ends: it gives a name that no user has, after at most as many
  -- draws as there are users, and changes nothing else.
  pub unique_username_from_email_found :
      (email : String) (s : Store)
      → HasNoRepeats (
          name_base db env google email
          ∷ later_names (length s.users) (name_base db env google email) s.draws)
      → (name : String) × (n : ℕ) × (unique_username_from_email db env google email s
          ≡ (ok name, record s { draws = n }))
        × (any (name_is name) s.users ≡ false)
        × (n ≤ s.draws + length s.users)
  unfolding unique_username_from_email
  unique_username_from_email_found email s h =
      let base = name_base db env google email in
      let k = length s.users in
      let done = search-some k base base s.draws s.users h (omega arith) in
      elim (Option-cases (search_name db env google (suc k) base base s.draws s.users)) [
        | inl e ↦ ground (arith, e, done)
        | inr (found, e) ↦
            let (free, near) = search-free k base base s.draws s.users found e in
            (found.0, found.1, rw e refl, free, near)
      ]
