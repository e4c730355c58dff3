-- ===== src/Notifications/Notices.antt =====
-- Whom a new transfer is told to.
use tpulse_backend.Prelude.{
  ℕ, ◌+◌, ◌≤◌, ◌≡◌, ◌⊎◌, refl, inl, inr, Bool, true, false, ◌&&◌, not, Option, none, some, List, [],
  ◌∷◌, map, if◌then◌else◌, ◌==◌, arith, any, filter, All, Elem, All-elem, All-map, All-from,
  Elem-map, All-filter, filter_sound, Elem-any, Elem-filter, Bool-cases, ==-refl,
}
use tpulse_backend.Db.{Prisma, IsPrisma}
use tpulse_backend.Effects.{ok}
use tpulse_backend.Board.{
  Board, Env, Notification, NotificationPreference, UserFavourite, TransferForNotif, opt_eq,
}
use tpulse_backend.Notifications.{
  body_of, contains, event_of, distinct_from, follows_transfer, same_notice, new_notice,
  create_notification, tell, notify_all, audience, opted_out_of, generate_of, generate_for_transfer,
}

-- A row that `t` may bring: for a follower who is not its author and has not switched it off.
abbrev pub IsNoticeOf : TransferForNotif → Board → Notification → Type 0
IsNoticeOf t s n =
    (n.transfer_id ≡ some t.id)
    × (n.event_type ≡ event_of t)
    × (any (λ (f : UserFavourite). follows_transfer t f && f.user_id == n.user_id) s.favourites
        ≡ true)
    × (opt_eq (some n.user_id) t.created_by_user_id ≡ false)
    × All
        (λ (p : NotificationPreference).
          (p.user_id == n.user_id && p.event_type == event_of t) ≡ true → p.enabled ≡ true)
        s.preferences

distinct-All {κ} : (P : ℕ → Type κ) (seen us : List ℕ) → All P us → All P (distinct_from seen us)
distinct-All P seen [] h = tt
distinct-All P seen (u ∷ us) h = elim (Bool-cases (contains u seen)) [
  | inl e ↦ rw e (distinct-All P seen us h.1)
  | inr e ↦ rw e ((h.0, distinct-All P (u ∷ seen) us h.1))
]

followers-All :
    (t : TransferForNotif) (fs : List UserFavourite)
    → All
        (λ u. any (λ (f : UserFavourite). follows_transfer t f && f.user_id == u) fs ≡ true)
        (map (λ (f : UserFavourite). f.user_id) (filter (follows_transfer t) fs))
followers-All t [] = tt
followers-All t (f ∷ fs) = elim (Bool-cases (follows_transfer t f)) [
  | inl e ↦ rw e ((ground arith, All-map _ _ _ (λ u h. ground (arith, h)) (followers-All t fs)))
  | inr e ↦ rw e (followers-All t fs)
]

module _ (db : Prisma) (laws : IsPrisma db) (env : Env) where
  -- The row that the next round would create.
  abbrev next : TransferForNotif → ℕ → Board → Notification
  next t u s = new_notice (env.uuid s.draws) env.now u (body_of t) t

  -- What one round leaves, `s'`, whether it told the user or not.
  abbrev IsRound : TransferForNotif → List ℕ → ℕ → Board → Board → Type 0
  IsRound t out u s s' =
      ((s'.notifications ≡ s.notifications)
        × (s.draws ≤ s'.draws)
        × ((contains u out ≡ true) ⊎ (any (same_notice (next t u s)) s.notifications ≡ true)))
      ⊎ ((contains u out ≡ false)
          × (any (same_notice (next t u s)) s.notifications ≡ false)
          × (s'.notifications ≡ next t u s ∷ s.notifications)
          × (s'.draws ≡ s.draws + 1))

  pub tell-IsRound :
      (t : TransferForNotif) (out : List ℕ) (u : ℕ) (s : Board)
      → (b : Bool) × (s' : Board) × (tell db env t out u s ≡ (ok b, s')) × IsRound t out u s s'
  unfolding tell create_notification
  tell-IsRound t out u s = elim (Bool-cases (contains u out)) [
    | inl skip ↦ (false, s, ground (arith, skip), inl (refl, omega arith, inl skip))
    | inr wants ↦
        let rows = laws.create_rows (same_notice (next t u s)) (next t u s) s.notifications in
        elim (Bool-cases (any (same_notice (next t u s)) s.notifications)) [
          | inl old ↦ (
            false,
            record s { draws = s.draws + 1 },
            ground (arith, wants, rows, old),
            inl (refl, omega arith, inr old),
          )
          | inr new ↦ (
            true,
            record s { draws = s.draws + 1; notifications = next t u s ∷ s.notifications },
            ground (arith, wants, rows, new),
            inr (wants, new, refl, refl),
          )
        ]
  ]

  pub notify_all-step :
      (t : TransferForNotif) (out : List ℕ) (u : ℕ) (us : List ℕ) (n : ℕ) (s s' : Board) (b : Bool)
      → tell db env t out u s ≡ (ok b, s')
      → notify_all db env t out (u ∷ us) n s
        ≡ notify_all db env t out us (n + (if b then 1 else 0)) s'
  unfolding notify_all
  notify_all-step t out u us n s s' b e = ground (arith, e)

  notify_all-All {κ} :
      (P : Notification → Type κ) (t : TransferForNotif) (out us : List ℕ) (n : ℕ) (s : Board)
      → All P s.notifications
      → All (λ u. contains u out ≡ false → (id : ℕ) → P (new_notice id env.now u (body_of t) t)) us
      → All P (notify_all db env t out us n s).1.notifications
  unfolding notify_all
  notify_all-All P t out [] n s h k = h
  notify_all-All P t out (u ∷ us) n s h k =
      let (b, s', eq, round) = tell-IsRound t out u s in
      let h' : All P s'.notifications = elim round [
        | inl (same, _, _) ↦ rw (same) h
        | inr (wants, _, rows, _) ↦ rw (rows) ((k.0 wants (env.uuid s.draws), h))
      ] in
      rw (notify_all-step t out u us n s s' b eq) (notify_all-All P t out us _ s' h' k.1)

  opted_out-All :
      (t : TransferForNotif) (u : ℕ) (s : Board)
      → Elem u (audience db env t s)
      → contains u (opted_out_of db env t s) ≡ false
      → All
          (λ (p : NotificationPreference).
            (p.user_id == u && p.event_type == event_of t) ≡ true → p.enabled ≡ true)
          s.preferences
  opted_out-All t u s there wants = All-from _ s.preferences (λ p row match.
      elim (Bool-cases p.enabled) [
        | inl on ↦ on
        | inr off ↦
            let switched = λ (q : NotificationPreference).
              contains q.user_id (audience db env t s)
              && q.event_type == event_of t
              && not q.enabled in
            let same : p.user_id ≡ u = ground (arith, match) in
            let follower : contains p.user_id (audience db env t s) ≡ true =
              rw same (Elem-any (λ b. b == u) u (audience db env t s) there (==-refl u)) in
            let found : Elem p (db.find_many switched s.preferences) =
              rw (laws.find_many_rows switched s.preferences)
                (Elem-filter switched p s.preferences row (ground (arith, follower, match, off))) in
            let listed : contains p.user_id (opted_out_of db env t s) ≡ true =
              Elem-any (λ b. b == p.user_id) p.user_id (opted_out_of db env t s)
                (Elem-map (λ (q : NotificationPreference). q.user_id) p _ found)
                (==-refl p.user_id) in
            cc
      ])

  audience-All :
      (t : TransferForNotif) (s : Board)
      → All
          (λ u.
            contains u (opted_out_of db env t s) ≡ false
            → (id : ℕ) → IsNoticeOf t s (new_notice id env.now u (body_of t) t))
          (audience db env t s)
  audience-All t s =
      let author = λ (u : ℕ). not (opt_eq (some u) t.created_by_user_id) in
      let rows = db.find_many (follows_transfer t) s.favourites in
      let follow : All
          (λ u.
            any (λ (f : UserFavourite). follows_transfer t f && f.user_id == u) s.favourites ≡ true)
          (map (λ (f : UserFavourite). f.user_id) rows) =
        rw (laws.find_many_rows (follows_transfer t) s.favourites) (followers-All t s.favourites) in
      All-from _ (audience db env t s) (λ u there wants id. (
        refl,
        refl,
        All-elem _ u _ (All-filter _ author _ (distinct-All _ [] _ follow)) there,
        (let other = All-elem _ u _ (filter_sound author _) there in ground (arith, other)),
        opted_out-All t u s there wants,
      ))

  generate_of-All :
      (o : Option TransferForNotif) (s : Board)
      → All
          (λ n. Elem n s.notifications ⊎ ((t : TransferForNotif) × (o ≡ some t) × IsNoticeOf t s n))
          (generate_of db env o s).1.notifications
  unfolding generate_of
  generate_of-All none s = All-from _ s.notifications (λ n e. inl e)
  generate_of-All (some t) s =
      notify_all-All _ t _ _ 0 s (All-from _ s.notifications (λ n e. inl e))
        (All-map _ _ _ (λ u h wants id. inr (t, refl, h wants id)) (audience-All t s))

  -- After telling users of a transfer every notification is an earlier one, or is about that
  -- transfer and for a user with a favourite that matches it, who is not its author and has not
  -- switched the event off.
  pub generate-IsNoticeOf :
      (transfer_id : ℕ) (s : Board)
      → All
          (λ n.
            Elem n s.notifications
            ⊎ ((t : TransferForNotif) × (db.find_first (λ r. r.id == transfer_id) s.transfers
                  ≡ some t)
                × IsNoticeOf t s n))
          (generate_for_transfer db env transfer_id s).1.notifications
  unfolding generate_for_transfer
  generate-IsNoticeOf transfer_id s = generate_of-All _ s
