-- ===== src/Notifications/Service.antt =====
-- notifications.service.ts over prisma-notification.repository.ts.
use tpulse_backend.Prelude.{
  ℕ, ◌+◌, String, Bool, true, false, ◌&&◌, ◌||◌, not, Option, none, some, List, [], ◌∷◌, map,
  if◌then◌else◌, ◌==◌, ltb, any, filter, str_append,
}
use tpulse_backend.Db.{Prisma}
use tpulse_backend.Effects.{Action, ok, err, pure, gets, try_write, ◌>>=◌, not_found}
use tpulse_backend.Board.{
  Board, Env, Notification, NotificationPreference, UserFavourite, TransferForNotif, fresh, opt_eq,
}

abbrev pub rumour_event : ℕ
rumour_event = 1

abbrev pub transfer_event : ℕ
transfer_event = 2

-- The unique constraint of `notification`.
abbrev pub same_notice : Notification → Notification → Bool
same_notice new n =
    n.id == new.id
    || (n.user_id == new.user_id
        && opt_eq n.transfer_id new.transfer_id
        && n.event_type == new.event_type)

abbrev pub set_notifications : Board → Option (List Notification) → Option Board
set_notifications s none = none
set_notifications s (some t) = some (record s { notifications = t })

abbrev pub contains : ℕ → List ℕ → Bool
contains a = any (λ b. b == a)

-- `distinct`: the first row of each user.
abbrev pub distinct_from : List ℕ → List ℕ → List ℕ
distinct_from seen [] = []
distinct_from seen (u ∷ us) =
    let rest = distinct_from (u ∷ seen) us in
    let skipped = distinct_from seen us in if contains u seen then skipped else u ∷ rest

abbrev pub event_of : TransferForNotif → ℕ
event_of t = if t.is_rumour then rumour_event else transfer_event

abbrev pub title_of : TransferForNotif → String
title_of t = if t.is_rumour then "Yeni söylenti" else "Yeni transfer"

-- The backtick template of `body`.
abbrev pub body_of : TransferForNotif → String
body_of t =
    str_append t.player_name
      (str_append ": " (str_append t.from_team_name (str_append " → " t.to_team_name)))

-- The `OR` of `findFavouriteUserIds`.
abbrev pub follows_transfer : TransferForNotif → UserFavourite → Bool
follows_transfer t f =
    (f.kind == 3 && f.target_id == t.player_id)
    || (f.kind == 2 && (f.target_id == t.from_team_id || f.target_id == t.to_team_id))
    || (f.kind == 1 && (f.target_id == t.from_league_id || f.target_id == t.to_league_id))
    || (f.kind == 4 && opt_eq (some f.target_id) t.created_by_user_id)

abbrev pub new_notice : ℕ → ℕ → ℕ → String → TransferForNotif → Notification
new_notice id now user_id body t = record {
  id = id;
  user_id = user_id;
  event_type = event_of t;
  title = title_of t;
  body = body;
  transfer_id = some t.id;
  is_read = false;
  created_at = now;
}

module _ (db : Prisma) (env : Env) where
  -- `true` when the row was new.
  unfoldable pub create_notification : TransferForNotif → ℕ → Action Board Bool
  create_notification t user_id = do
    id ← fresh env
    let n = new_notice id env.now user_id (body_of t) t
    try_write (λ s. set_notifications s (db.create (same_notice n) n s.notifications))

  -- One round of the loop of `generateForTransfer`: `true` when a row was created.
  unfoldable pub tell : TransferForNotif → List ℕ → ℕ → Action Board Bool
  unfolding create_notification
  tell t opted_out u = if contains u opted_out then pure false else create_notification t u

  -- The loop, with the number of rows created so far.
  unfoldable pub notify_all : TransferForNotif → List ℕ → List ℕ → ℕ → Action Board ℕ
  notify_all t opted_out [] created = pure created
  notify_all t opted_out (u ∷ us) created = do
    told ← tell t opted_out u
    notify_all t opted_out us (created + (if told then 1 else 0))

  -- The users to tell: those of a matching favourite, once each, without the transfer's author.
  abbrev pub audience : TransferForNotif → Board → List ℕ
  audience t s =
      filter (λ u. not (opt_eq (some u) t.created_by_user_id))
        (distinct_from []
          (map (λ (f : UserFavourite). f.user_id) (db.find_many (follows_transfer t) s.favourites)))

  abbrev pub opted_out_of : TransferForNotif → Board → List ℕ
  opted_out_of t s =
      map (λ (p : NotificationPreference). p.user_id)
        (db.find_many
          (λ p. contains p.user_id (audience t s) && p.event_type == event_of t && not p.enabled)
          s.preferences)

  unfoldable pub generate_of : Option TransferForNotif → Action Board ℕ
  unfolding notify_all
  generate_of none s = (ok 0, s)
  generate_of (some t) s = notify_all t (opted_out_of t s) (audience t s) 0 s

  unfoldable pub generate_for_transfer : ℕ → Action Board ℕ
  unfolding generate_of
  generate_for_transfer transfer_id = do
    t ← gets (λ s. db.find_first (λ t. t.id == transfer_id) s.transfers)
    generate_of t

abbrev pub mark : Notification → Notification
mark n = record n { is_read = true }

module _ (db : Prisma) where
  unfoldable pub unread_count : ℕ → Board → ℕ
  unread_count user_id s =
      db.count_rows (λ n. n.user_id == user_id && not n.is_read) s.notifications

  unfoldable pub mark_read : ℕ → ℕ → Action Board (Unit {0})
  mark_read user_id id s =
      let mine = λ (n : Notification). n.id == id && n.user_id == user_id in
      if ltb 0 (db.count_rows mine s.notifications)
      then (ok tt, record s { notifications = db.update_many mine mark s.notifications })
      else (err not_found, s)

  unfoldable pub mark_all_read : ℕ → Action Board ℕ
  mark_all_read user_id s =
      let unread = λ (n : Notification). n.user_id == user_id && not n.is_read in
      (
        ok (db.count_rows unread s.notifications),
        record s { notifications = db.update_many unread mark s.notifications },
      )
