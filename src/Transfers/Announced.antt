-- ===== src/Transfers/Announced.antt =====
-- Every transfer has its message in the outbox, in every run.
use tpulse_backend.Prelude.{
  ℕ, ◌≡◌, ◌+◌, refl, Bool, true, false, List, [], ◌∷◌, ◌==◌, ==-refl, any, All, All-map, arith,
  update_where, Bool-cases, inl, inr,
}
use tpulse_backend.Db.{Prisma, IsPrisma}
use tpulse_backend.Effects.{transaction, pure, ◌>>=◌, ◌>>◌}
use tpulse_backend.Board.{Env, Event, OutboxMessage}
use tpulse_backend.Messaging.{enqueue, new_message}
use tpulse_backend.Transfers.Types.{
  Transfer, CreateTransferDto, PatchTransferDto, CreateRumourDto, ConfirmRumourDto, AuthUser,
  Market,
}
use tpulse_backend.Transfers.Repository.{
  new_transfer, with_transfer, with_patch, new_rumour, with_rumour, confirmed, deleted,
  insert_transfer, change_transfer, rewrite_transfer, soft_delete, announce,
}
use tpulse_backend.Transfers.Admin.{
  create_transfer, update_transfer, patch_transfer, remove_transfer,
}
use tpulse_backend.Transfers.Rumours.{
  create_rumour, assert_author_or_admin, update_rumour, remove_rumour, confirm_rumour,
}

abbrev pub announces : ℕ → Event → Bool
announces i (Event.notification_generate j) = j == i
announces i _ = false

-- The outbox has a message that the transfer is to be told of.
abbrev pub HasMessage : List OutboxMessage → Transfer → Type 0
HasMessage outbox t = any (λ m. announces t.id m.event) outbox ≡ true

abbrev pub IsAnnounced : Market → Type 0
IsAnnounced m = All (HasMessage m.board.outbox) m.transfers

later-All :
    (x : OutboxMessage) (outbox : List OutboxMessage) (t : List Transfer)
    → All (HasMessage outbox) t
    → All (HasMessage (x ∷ outbox)) t
later-All x outbox t h = All-map _ _ t (λ r there. ground (arith, there)) h

change-All :
    (p : Transfer → Bool) (f : Transfer → Transfer) (outbox : List OutboxMessage)
    (t : List Transfer)
    → ((r : Transfer) → (f r).id ≡ r.id)
    → All (HasMessage outbox) t
    → All (HasMessage outbox) (update_where p f t)
change-All p f outbox [] same h = tt
change-All p f outbox (r ∷ t) same h =
    let later = change-All p f outbox t same h.1 in
    elim (Bool-cases (p r)) [ inl e ↦ rw (e, same r) (h.0, later) | inr e ↦ rw e (h.0, later) ]

module _ (db : Prisma) (laws : IsPrisma db) (env : Env) where
  change-IsAnnounced :
      (id : ℕ) (f : Transfer → Transfer) (m : Market)
      → ((r : Transfer) → (f r).id ≡ r.id)
      → IsAnnounced m
      → IsAnnounced (change_transfer db env id f m).1
  unfolding change_transfer
  change-IsAnnounced id f m same h = ground (
    arith,
    h,
    change-All (λ t. t.id == id) f m.board.outbox m.transfers same h,
    laws.update_rows (λ t. t.id == id) f m.transfers,
  )

  rewrite-IsAnnounced :
      (id player from to : ℕ) (f : Transfer → Transfer) (m : Market)
      → ((r : Transfer) → (f r).id ≡ r.id)
      → IsAnnounced m
      → IsAnnounced (rewrite_transfer db env id player from to f m).1
  unfolding rewrite_transfer
  rewrite-IsAnnounced id player from to f m same h =
      ground (arith, h, change-IsAnnounced id f m same h)

  -- The row and its message, or neither.
  insertion-IsAnnounced :
      (row : ℕ → Transfer) (m : Market)
      → ((i : ℕ) → (row i).id ≡ i)
      → IsAnnounced m
      → IsAnnounced
          (transaction
            (do created ← insert_transfer db env row; announce db env created; pure created)
            m).1
  unfolding insert_transfer announce enqueue
  insertion-IsAnnounced row m same h =
      let id = env.uuid m.board.draws in
      let message =
        new_message (env.uuid (m.board.draws + 1)) env.now (Event.notification_generate id) in
      let later = later-All message m.board.outbox m.transfers h in
      let told : HasMessage (message ∷ m.board.outbox) (row id) = rw (same id, ==-refl id) refl in
      ground (
        arith,
        h,
        later,
        told,
        laws.create_rows (λ t. t.id == id) (row id) m.transfers,
        laws.create_rows (λ x. x.id == env.uuid (m.board.draws + 1)) message m.board.outbox,
      )

  create_transfer-IsAnnounced :
      (dto : CreateTransferDto) (user : ℕ) (m : Market)
      → IsAnnounced m
      → IsAnnounced (create_transfer db env dto user m).1
  unfolding create_transfer
  create_transfer-IsAnnounced dto user m h =
      let there = insertion-IsAnnounced (λ id. new_transfer id env.now dto user) m (λ i. refl) h in
      ground (arith, h, there)

  update_transfer-IsAnnounced :
      (id : ℕ) (dto : CreateTransferDto) (m : Market)
      → IsAnnounced m
      → IsAnnounced (update_transfer db env id dto m).1
  unfolding update_transfer
  update_transfer-IsAnnounced id dto m h = ground (
    arith,
    h,
    rewrite-IsAnnounced id dto.player_id dto.from_team_id dto.to_team_id (with_transfer dto) m
        (λ r. refl) h,
  )

  patch_transfer-IsAnnounced :
      (id : ℕ) (dto : PatchTransferDto) (m : Market)
      → IsAnnounced m
      → IsAnnounced (patch_transfer db env id dto m).1
  unfolding patch_transfer
  patch_transfer-IsAnnounced id dto m h =
      ground (arith, h, change-IsAnnounced id (with_patch dto) m (λ r. refl) h)

  remove_transfer-IsAnnounced :
      (id : ℕ) (m : Market) → IsAnnounced m → IsAnnounced (remove_transfer db env id m).1
  unfolding remove_transfer soft_delete
  remove_transfer-IsAnnounced id m h =
      ground (arith, h, change-IsAnnounced id deleted m (λ r. refl) h)

  create_rumour-IsAnnounced :
      (dto : CreateRumourDto) (user : ℕ) (m : Market)
      → IsAnnounced m
      → IsAnnounced (create_rumour db env dto user m).1
  unfolding create_rumour
  create_rumour-IsAnnounced dto user m h =
      ground
        (arith, h, insertion-IsAnnounced (λ id. new_rumour id env.now dto user) m (λ i. refl) h)

  assert-unchanged :
      (id : ℕ) (user : AuthUser) (m : Market) → (assert_author_or_admin db env id user m).1 ≡ m
  unfolding assert_author_or_admin
  assert-unchanged id user m = ground arith

  update_rumour-IsAnnounced :
      (id : ℕ) (user : AuthUser) (dto : CreateRumourDto) (m : Market)
      → IsAnnounced m
      → IsAnnounced (update_rumour db env id user dto m).1
  unfolding update_rumour
  update_rumour-IsAnnounced id user dto m h = ground (
    arith,
    h,
    assert-unchanged id user m,
    rewrite-IsAnnounced id dto.player_id dto.from_team_id dto.to_team_id (with_rumour dto) m
        (λ r. refl) h,
  )

  remove_rumour-IsAnnounced :
      (id : ℕ) (user : AuthUser) (m : Market)
      → IsAnnounced m
      → IsAnnounced (remove_rumour db env id user m).1
  unfolding remove_rumour soft_delete
  remove_rumour-IsAnnounced id user m h =
      ground (arith, h, assert-unchanged id user m, change-IsAnnounced id deleted m (λ r. refl) h)

  confirm_rumour-IsAnnounced :
      (id : ℕ) (dto : ConfirmRumourDto) (m : Market)
      → IsAnnounced m
      → IsAnnounced (confirm_rumour db env id dto m).1
  unfolding confirm_rumour announce enqueue
  confirm_rumour-IsAnnounced id dto m h =
      let changed = change_transfer db env id (confirmed env.now dto) m in
      let there = change-IsAnnounced id (confirmed env.now dto) m (λ r. refl) h in
      let message =
        new_message (env.uuid changed.1.board.draws) env.now (Event.notification_generate id) in
      ground (
        arith,
        h,
        there,
        later-All message changed.1.board.outbox changed.1.transfers there,
        laws.create_rows (λ x. x.id == env.uuid changed.1.board.draws) message
            changed.1.board.outbox,
      )

-- One request, with any arguments, clock and ids.
pub data Step (db : Prisma) : Market → Market → Type 0 where
  create :
      (env : Env) (dto : CreateTransferDto) (user : ℕ) (m : Market)
      → Step db m (create_transfer db env dto user m).1
  rewrite :
      (env : Env) (id : ℕ) (dto : CreateTransferDto) (m : Market)
      → Step db m (update_transfer db env id dto m).1
  patch :
      (env : Env) (id : ℕ) (dto : PatchTransferDto) (m : Market)
      → Step db m (patch_transfer db env id dto m).1
  remove : (env : Env) (id : ℕ) (m : Market) → Step db m (remove_transfer db env id m).1
  spread :
      (env : Env) (dto : CreateRumourDto) (user : ℕ) (m : Market)
      → Step db m (create_rumour db env dto user m).1
  reword :
      (env : Env) (id : ℕ) (user : AuthUser) (dto : CreateRumourDto) (m : Market)
      → Step db m (update_rumour db env id user dto m).1
  withdraw :
      (env : Env) (id : ℕ) (user : AuthUser) (m : Market)
      → Step db m (remove_rumour db env id user m).1
  confirm :
      (env : Env) (id : ℕ) (dto : ConfirmRumourDto) (m : Market)
      → Step db m (confirm_rumour db env id dto m).1

pub data Reach (db : Prisma) (m : Market) : Market → Type 0 where
  here : Reach db m m
  next : {n k : Market} → Reach db m n → Step db n k → Reach db m k

module _ (db : Prisma) (laws : IsPrisma db) where
  step-IsAnnounced : {m n : Market} → Step db m n → IsAnnounced m → IsAnnounced n
  step-IsAnnounced (create env dto user m) h = create_transfer-IsAnnounced db laws env dto user m h
  step-IsAnnounced (rewrite env id dto m) h = update_transfer-IsAnnounced db laws env id dto m h
  step-IsAnnounced (patch env id dto m) h = patch_transfer-IsAnnounced db laws env id dto m h
  step-IsAnnounced (remove env id m) h = remove_transfer-IsAnnounced db laws env id m h
  step-IsAnnounced (spread env dto user m) h = create_rumour-IsAnnounced db laws env dto user m h
  step-IsAnnounced (reword env id user dto m) h =
      update_rumour-IsAnnounced db laws env id user dto m h
  step-IsAnnounced (withdraw env id user m) h = remove_rumour-IsAnnounced db laws env id user m h
  step-IsAnnounced (confirm env id dto m) h = confirm_rumour-IsAnnounced db laws env id dto m h

  -- However admins and authors create, change, confirm and remove transfers and rumours, whether their
  -- requests succeed or fail, each transfer of the table has a message in the outbox that asks to
  -- notify about it, if that held at first.
  pub Reach-IsAnnounced : {m n : Market} → Reach db m n → IsAnnounced m → IsAnnounced n
  Reach-IsAnnounced here h = h
  Reach-IsAnnounced (next run step) h = step-IsAnnounced step (Reach-IsAnnounced run h)
