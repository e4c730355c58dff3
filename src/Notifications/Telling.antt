-- ===== src/Notifications/Telling.antt =====
-- That everyone who should be told of a transfer is told.
use tpulse_backend.Prelude.{
  ℕ, ◌≤◌, ◌≡◌, ◌⊎◌, ap, refl, inl, inr, Bool, true, false, ◌&&◌, ◌||◌, not, some, List, [], ◌∷◌,
  map, ◌==◌, arith, any, filter, All, Elem, All-map, Elem-map, any-Elem, Elem-filter, Bool-cases,
}
use mathlib.Core.Path.{subst}
use tpulse_backend.Db.{Prisma, IsPrisma}
use tpulse_backend.Board.{
  Board, Env, Notification, NotificationPreference, UserFavourite, TransferForNotif, opt_eq,
}
use tpulse_backend.Notifications.Service.{
  contains, event_of, distinct_from, follows_transfer, same_notice, new_notice, body_of, tell,
  notify_all, audience, opted_out_of, generate_of, generate_for_transfer,
}
use tpulse_backend.Notifications.Notices.{tell-IsRound, notify_all-step}

-- The rows that tell a user of `t`.
abbrev pub tells : TransferForNotif → ℕ → Notification → Bool
tells t u n = n.user_id == u && opt_eq n.transfer_id (some t.id) && n.event_type == event_of t

-- No row has an id that is still to be drawn.
abbrev pub HasFreshIds : Env → Board → Type 0
HasFreshIds env s =
    (k : ℕ) → s.draws ≤ k → any (λ (n : Notification). n.id == env.uuid k) s.notifications ≡ false

any-or :
    (p q r : Notification → Bool) (ns : List Notification)
    → ((n : Notification) → r n ≡ (p n || q n))
    → any r ns ≡ (any p ns || any q ns)
any-or p q r [] h = refl
any-or p q r (n ∷ ns) h = ground (arith, h n, any-or p q r ns h)

not_both : {a b : Bool} → a ≡ b → a ≡ false → b ≡ true → ⊥
not_both e f g = cc

pub distinct-Elem :
    (u : ℕ) (seen us : List ℕ)
    → Elem u us
    → contains u seen ≡ false
    → Elem u (distinct_from seen us)
distinct-Elem u seen [] e h = absurd e
distinct-Elem u seen (v ∷ us) e h = elim (Bool-cases (contains v seen)) [
  | inl old ↦ rw old (elim e [
    | inl same ↦ absurd (not_both (ap (λ w. contains w seen) same) h old)
    | inr later ↦ distinct-Elem u seen us later h
  ])
  | inr new ↦ rw new (elim (Bool-cases (v == u)) [
    | inl same ↦ inl (ground (arith, same))
    | inr other ↦ elim e [
      | inl same ↦ inl same
      | inr later ↦ inr (distinct-Elem u (v ∷ seen) us later (ground (arith, other, h)))
    ]
  ])
]

nobody :
    (p : NotificationPreference → Bool) (u : ℕ) (ps : List NotificationPreference)
    → All (λ q. p q ≡ true → (q.user_id == u) ≡ false) ps
    → contains u (map (λ (q : NotificationPreference). q.user_id) (filter p ps)) ≡ false
nobody p u [] h = refl
nobody p u (q ∷ ps) h = elim (Bool-cases (p q)) [
  | inl e ↦ rw e (ground (arith, h.0 e, nobody p u ps h.1))
  | inr e ↦ rw e (nobody p u ps h.1)
]

module _ (db : Prisma) (laws : IsPrisma db) (env : Env)
    (distinct : (j k : ℕ) → env.uuid j ≡ env.uuid k → j ≡ k) where
  told-tell :
      (t : TransferForNotif) (out : List ℕ) (u v : ℕ) (s : Board)
      → any (tells t v) s.notifications ≡ true
      → any (tells t v) (tell db env t out u s).1.notifications ≡ true
  told-tell t out u v s h =
      let (b, s', eq, round) = tell-IsRound db laws env t out u s in
      rw eq (elim round [
        | inl (same, _, _) ↦ rw same h
        | inr (wants, _, rows, _) ↦ rw rows (ground (arith, h))
      ])

  fresh-tell :
      (t : TransferForNotif) (out : List ℕ) (u : ℕ) (s : Board)
      → HasFreshIds env s
      → HasFreshIds env (tell db env t out u s).1
  fresh-tell t out u s h k later =
      let (b, s', eq, round) = tell-IsRound db laws env t out u s in
      let bound : s'.draws ≤ k = subst (λ r. r.1.draws ≤ k) eq later in
      rw eq (elim round [
        | inl (same, more, _) ↦ rw same (h k (omega (arith, more, bound)))
        | inr (wants, _, rows, one) ↦
            let old = h k (omega (arith, one, bound)) in
            elim (Bool-cases (env.uuid s.draws == env.uuid k)) [
              | inl clash ↦
                  absurd (omega (arith, one, bound, distinct s.draws k (ground (arith, clash))))
              | inr apart ↦ rw rows (ground (arith, apart, old))
            ]
      ])

  tell-tells :
      (t : TransferForNotif) (out : List ℕ) (u : ℕ) (s : Board)
      → HasFreshIds env s
      → contains u out ≡ false
      → any (tells t u) (tell db env t out u s).1.notifications ≡ true
  tell-tells t out u s h wants =
      let (b, s', eq, round) = tell-IsRound db laws env t out u s in
      let new = new_notice (env.uuid s.draws) env.now u (body_of t) t in
      rw eq (elim round [
        | inl (same, _, why) ↦ elim why [
          | inl skip ↦ cc
          | inr clash ↦
              let ids = h s.draws (omega arith) in
              let split =
                any-or (λ n. n.id == env.uuid s.draws) (tells t u) (same_notice new) s.notifications
                  (λ n. refl) in
              rw same (ground (arith, ids, split, clash))
        ]
        | inr (_, _, rows, _) ↦ rw rows (ground arith)
      ])

  -- After the loop everyone on the list who has not opted out has been told.
  notify_all-tells :
      (t : TransferForNotif) (out us : List ℕ) (n : ℕ) (s : Board) (u : ℕ)
      → HasFreshIds env s
      → contains u out ≡ false
      → Elem u us ⊎ (any (tells t u) s.notifications ≡ true)
      → any (tells t u) (notify_all db env t out us n s).1.notifications ≡ true
  unfolding notify_all
  notify_all-tells t out [] n s u h wants (inl e) = absurd e
  notify_all-tells t out [] n s u h wants (inr e) = e
  notify_all-tells t out (v ∷ us) n s u h wants e =
      let (b, s', eq, round) = tell-IsRound db laws env t out v s in
      let at = λ (P : Board → Type 0) (x : P (tell db env t out v s).1). subst (λ r. P r.1) eq x in
      rw (notify_all-step db laws env t out v us n s s' b eq) (
        notify_all-tells t out us _ s' u (at (HasFreshIds env) (fresh-tell t out v s h)) wants
          (elim e [
            | inl (inl same) ↦ inr (
                at (λ r. any (tells t u) r.notifications ≡ true)
                  (subst (λ w. any (tells t u) (tell db env t out w s).1.notifications ≡ true) same
                    (tell-tells t out u s h wants)))
            | inl (inr later) ↦ inl later
            | inr old ↦
                inr (at (λ r. any (tells t u) r.notifications ≡ true) (told-tell t out v u s old))
          ]))

  Elem-audience :
      (t : TransferForNotif) (u : ℕ) (s : Board)
      → any (λ (f : UserFavourite). follows_transfer t f && f.user_id == u) s.favourites ≡ true
      → opt_eq (some u) t.created_by_user_id ≡ false
      → Elem u (audience db env t s)
  Elem-audience t u s follows other =
      let rows = db.find_many (follows_transfer t) s.favourites in
      let (f, there, match) = any-Elem _ s.favourites follows in
      let found : Elem f rows =
        rw (laws.find_many_rows (follows_transfer t) s.favourites)
          (Elem-filter (follows_transfer t) f s.favourites there (ground (arith, match))) in
      let same : f.user_id ≡ u = ground (arith, match) in
      let named : Elem u (map (λ (g : UserFavourite). g.user_id) rows) =
        subst (λ w. Elem w (map (λ (g : UserFavourite). g.user_id) rows)) same
          (Elem-map (λ (g : UserFavourite). g.user_id) f rows found) in
      Elem-filter (λ w. not (opt_eq (some w) t.created_by_user_id)) u _
        (distinct-Elem u [] _ named refl) (ground (arith, other))

  not_opted_out :
      (t : TransferForNotif) (u : ℕ) (s : Board)
      → All
          (λ (p : NotificationPreference).
            (p.user_id == u && p.event_type == event_of t) ≡ true → p.enabled ≡ true)
          s.preferences
      → contains u (opted_out_of db env t s) ≡ false
  not_opted_out t u s on =
      let off = λ (p : NotificationPreference).
        contains p.user_id (audience db env t s) && p.event_type == event_of t && not p.enabled in
      rw (laws.find_many_rows off s.preferences) (
        nobody off u s.preferences (
          All-map _ _ _
            (λ p h e. elim (Bool-cases (p.user_id == u)) [
              | inl same ↦ (let on' = h (ground (arith, same, e)) in ground (arith, on', e))
              | inr other ↦ other
            ])
            on))

  generate_of-tells :
      (t : TransferForNotif) (u : ℕ) (s : Board)
      → HasFreshIds env s
      → any (λ (f : UserFavourite). follows_transfer t f && f.user_id == u) s.favourites ≡ true
      → opt_eq (some u) t.created_by_user_id ≡ false
      → All
          (λ (p : NotificationPreference).
            (p.user_id == u && p.event_type == event_of t) ≡ true → p.enabled ≡ true)
          s.preferences
      → any (tells t u) (generate_of db env (some t) s).1.notifications ≡ true
  unfolding generate_of
  generate_of-tells t u s h follows other on =
      notify_all-tells t _ _ 0 s u h (not_opted_out t u s on)
        (inl (Elem-audience t u s follows other))

  -- If the ids that are drawn are new and distinct, then telling users of a transfer that is there leaves a
  -- notification of it to every user with a favourite that matches it, who is not its author and has
  -- not switched its event off.
  pub generate-tells :
      (transfer_id : ℕ) (t : TransferForNotif) (u : ℕ) (s : Board)
      → db.find_first (λ r. r.id == transfer_id) s.transfers ≡ some t
      → HasFreshIds env s
      → any (λ (f : UserFavourite). follows_transfer t f && f.user_id == u) s.favourites ≡ true
      → opt_eq (some u) t.created_by_user_id ≡ false
      → All
          (λ (p : NotificationPreference).
            (p.user_id == u && p.event_type == event_of t) ≡ true → p.enabled ≡ true)
          s.preferences
      → any (tells t u) (generate_for_transfer db env transfer_id s).1.notifications ≡ true
  unfolding generate_for_transfer
  generate-tells transfer_id t u s found h follows other on =
      rw found (generate_of-tells t u s h follows other on)
