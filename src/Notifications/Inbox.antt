-- ===== src/Notifications/Inbox.antt =====
-- Reading a user's notifications.
use tpulse_backend.Prelude.{
  ℕ, ◌≡◌, ◌≢◌, ◌⊎◌, inl, inr, Bool-cases, refl, Bool, true, false, ◌&&◌, not, List, [], ◌∷◌, ltb,
  ◌==◌, arith, count, filter, update_where, any,
}
use tpulse_backend.Db.{Prisma, IsPrisma}
use tpulse_backend.Effects.{ok, err, not_found}
use tpulse_backend.Board.{Board, Notification}
use tpulse_backend.Notifications.{mark, unread_count, mark_read, mark_all_read}

abbrev pub of_user : ℕ → Notification → Bool
of_user u n = n.user_id == u

abbrev pub unread_of : ℕ → Notification → Bool
unread_of u n = n.user_id == u && not n.is_read

abbrev pub mine : ℕ → ℕ → Notification → Bool
mine u id n = n.id == id && n.user_id == u

-- Marking one user's rows leaves the rows of the others.
mark-others :
    (p : Notification → Bool) (v : ℕ) (t : List Notification)
    → ((n : Notification) → n.user_id ≡ v → p n ≡ false)
    → filter (of_user v) (update_where p mark t) ≡ filter (of_user v) t
mark-others p v [] h = refl
mark-others p v (n ∷ t) h = ground (arith, h n, mark-others p v t h)

mark-none_unread :
    (u : ℕ) (t : List Notification) → count (unread_of u) (update_where (unread_of u) mark t) ≡ 0
mark-none_unread u [] = refl
mark-none_unread u (n ∷ t) = ground (arith, mark-none_unread u t)

-- The rows that a read marks, all marked.
mark-mine :
    (u id : ℕ) (t : List Notification)
    → any (λ n. mine u id n && not n.is_read) (update_where (mine u id) mark t) ≡ false
mark-mine u id [] = refl
mark-mine u id (n ∷ t) = ground (arith, mark-mine u id t)

count-any : (p : Notification → Bool) (t : List Notification) → ltb 0 (count p t) ≡ any p t
count-any p [] = refl
count-any p (n ∷ t) = ground (arith, count-any p t)

module _ (db : Prisma) (laws : IsPrisma db) where
  -- Reading one notification succeeds exactly when the user has a notification of that id, and then
  -- it is not unread; otherwise the error is 404 and nothing changes. Other users' notifications are
  -- as they were in either case.
  pub mark_read_lem :
      (u id : ℕ) (s : Board)
      → ((any (mine u id) s.notifications ≡ true)
            × ((mark_read db u id s).0 ≡ ok tt)
            × (any (λ n. mine u id n && not n.is_read) (mark_read db u id s).1.notifications
                ≡ false)
          ⊎ (any (mine u id) s.notifications ≡ false) × (mark_read db u id s ≡ (err not_found, s)))
        × ((v : ℕ)
            → v ≢ u
            → filter (of_user v) (mark_read db u id s).1.notifications
              ≡ filter (of_user v) s.notifications)
  unfolding mark_read
  mark_read_lem u id s =
      let n = laws.count_rows_count (mine u id) s.notifications in
      let c = count-any (mine u id) s.notifications in
      let rows = laws.update_many_rows (mine u id) mark s.notifications in
      (
        elim (Bool-cases (any (mine u id) s.notifications)) [
          | inl there ↦ inl (
            there,
            ground (arith, n, c, there),
            ground (arith, n, c, there, rows, mark-mine u id s.notifications),
          )
          | inr gone ↦ inr (gone, ground (arith, n, c, gone))
        ],
        λ v other. ground (
          arith,
          rows,
          mark-others (mine u id) v s.notifications (λ m e. ground (arith, e, other)),
        ),
      )

  -- Reading all of a user's notifications answers with the number of those unread, leaves none
  -- unread, and touches no other user's.
  pub mark_all_read_lem :
      (u : ℕ) (s : Board)
      → ((mark_all_read db u s).0 ≡ ok (unread_count db u s))
        × (unread_count db u (mark_all_read db u s).1 ≡ 0)
        × ((v : ℕ)
            → v ≢ u
            → filter (of_user v) (mark_all_read db u s).1.notifications
              ≡ filter (of_user v) s.notifications)
  unfolding mark_all_read unread_count
  mark_all_read_lem u s =
      let rows = laws.update_many_rows (unread_of u) mark s.notifications in
      (
        refl,
        rw (
          laws.update_many_rows (unread_of u) mark s.notifications,
          laws.count_rows_count (unread_of u) (update_where (unread_of u) mark s.notifications),
          mark-none_unread u s.notifications,
        ),
        λ v other. ground (
          arith,
          rows,
          mark-others (unread_of u) v s.notifications (λ m e. ground (arith, e, other)),
        ),
      )
