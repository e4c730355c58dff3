-- ===== src/Transfers/Rights.antt =====
-- Who may withdraw a rumour.
use tpulse_backend.Prelude.{
  ℕ, ◌≡◌, ◌⊎◌, refl, Bool, true, false, ◌&&◌, not, none, List, [], ◌∷◌, ◌==◌, any, All, All-elem,
  Elem-any, arith, update_where, Bool-cases, Option-cases, inl, inr,
}
use tpulse_backend.Db.{Prisma, IsPrisma}
use tpulse_backend.Effects.{ok, err, not_found, forbidden}
use tpulse_backend.Board.{Env}
use tpulse_backend.Transfers.Types.{Transfer, AuthUser, Market}
use tpulse_backend.Transfers.Repository.{
  deleted, change_transfer, soft_delete, find_rumour, not_deleted,
}
use tpulse_backend.Transfers.Rumours.{is_stranger, assert_author_or_admin, remove_rumour}

-- A rumour that is not deleted has the id, and the user is its author or an admin.
abbrev pub is_allowed : AuthUser → ℕ → Transfer → Bool
is_allowed user id t = not_deleted (λ x. x.id == id && x.is_rumour) t && not (is_stranger user t)

withdrawn-none :
    (id : ℕ) (t : List Transfer)
    → All
        (λ r. not_deleted (λ x. x.id == id && x.is_rumour) r ≡ false)
        (update_where (λ x. x.id == id) deleted t)
withdrawn-none id [] = tt
withdrawn-none id (r ∷ t) = elim (Bool-cases (r.id == id)) [
  | inl e ↦ rw e (refl, withdrawn-none id t)
  | inr e ↦ rw e (ground (arith, e), withdrawn-none id t)
]

module _ (db : Prisma) (laws : IsPrisma db) (env : Env) where
  no_match-none :
      (p : Transfer → Bool) (t : List Transfer)
      → All (λ r. p r ≡ false) t
      → db.find_first p t ≡ none
  no_match-none p t h = elim (Option-cases (db.find_first p t)) [
    | inl e ↦ e
    | inr (r, e) ↦
        let hit = laws.find_first_match p t r e in
        let miss = All-elem (λ x. p x ≡ false) r t h (laws.find_first_elem p t r e) in
        ground (arith, hit, miss)
  ]

  assert-IsAllowed :
      (id : ℕ) (user : AuthUser) (m : Market)
      → (assert_author_or_admin db env id user m ≡ (err not_found, m))
        ⊎ ((assert_author_or_admin db env id user m ≡ (err forbidden, m))
            ⊎ ((assert_author_or_admin db env id user m ≡ (ok tt, m))
                × (any (is_allowed user id) m.transfers ≡ true)))
  unfolding assert_author_or_admin find_rumour
  assert-IsAllowed id user m =
      let p = not_deleted (λ x. x.id == id && x.is_rumour) in
      elim (Option-cases (db.find_first p m.transfers)) [
        | inl e ↦ inl (rw e refl)
        | inr (r, e) ↦ elim (Bool-cases (is_stranger user r)) [
          | inl s ↦ inr (inl (rw (e, s) refl))
          | inr s ↦
              let hit = laws.find_first_match p m.transfers r e in
              let there = laws.find_first_elem p m.transfers r e in
              inr (
                inr (
                  rw (e, s) refl,
                  Elem-any (is_allowed user id) r m.transfers there (ground (arith, hit, s)),
                ))
        ]
      ]

  soft_delete-any :
      (id : ℕ) (m : Market)
      → any (λ t. t.id == id) m.transfers ≡ true
      → ((soft_delete db env id m).0 ≡ ok true)
        × ((soft_delete db env id m).1.transfers
            ≡ update_where (λ t. t.id == id) deleted m.transfers)
  unfolding soft_delete change_transfer
  soft_delete-any id m there =
      ground (arith, there, laws.update_rows (λ t. t.id == id) deleted m.transfers)

  allowed-any :
      (id : ℕ) (user : AuthUser) (t : List Transfer)
      → any (is_allowed user id) t ≡ true
      → any (λ x. x.id == id) t ≡ true
  allowed-any id user [] h = ground (arith, h)
  allowed-any id user (r ∷ t) h = ground (arith, h, allowed-any id user t)

  -- A request to remove a rumour either answers that there is none or that it is forbidden, and the
  -- store is as it was, or a rumour of the table that is not deleted has the id and the user is its
  -- author or an admin, the request succeeds, and no rumour is found under the id afterwards.
  pub remove_rumour-cases :
      (id : ℕ) (user : AuthUser) (m : Market)
      → (remove_rumour db env id user m ≡ (err not_found, m))
        ⊎ ((remove_rumour db env id user m ≡ (err forbidden, m))
            ⊎ ((any (is_allowed user id) m.transfers ≡ true)
                × ((remove_rumour db env id user m).0 ≡ ok tt)
                × (find_rumour db env id (remove_rumour db env id user m).1 ≡ none)))
  unfolding remove_rumour find_rumour
  remove_rumour-cases id user m = elim (assert-IsAllowed id user m) [
    | inl e ↦ inl (ground (arith, e))
    | inr (inl e) ↦ inr (inl (ground (arith, e)))
    | inr (inr (e, allowed)) ↦
        let done = soft_delete-any id m (allowed-any id user m.transfers allowed) in
        let gone = withdrawn-none id m.transfers in
        let p = not_deleted (λ x. x.id == id && x.is_rumour) in
        inr (
          inr (
            allowed,
            ground (arith, e, done),
            ground (
              arith,
              e,
              done,
              no_match-none p (update_where (λ t. t.id == id) deleted m.transfers) gone,
            ),
          ))
  ]
