-- ===== src/Messaging/Dispatch.antt =====
-- What one tick of the dispatcher adds to the queue.
use tpulse_backend.Prelude.{
  ◌≤◌, ◌≡◌, ◌⊎◌, true, List, arith, length, filter_sound, length-take, All, All-take, Elem,
  Elem-filter,
}
use tpulse_backend.Prelude.Sorting.{
  sort_by, sort-All, sort-Elem, sort-Pairwise, sort-Sorted, take-Pairwise, take-Sorted, Sorted,
}
use tpulse_backend.Db.{Prisma, IsPrisma}
use tpulse_backend.Board.{Board, OutboxMessage}
use tpulse_backend.Messaging.Outbox.{batch, no_younger, is_pending, dispatch}

older_first : (rows : List OutboxMessage) → Sorted no_younger (sort_by no_younger rows)
older_first rows = sort-Sorted no_younger (λ x y h. ground (arith, h)) rows

module _ (db : Prisma) (laws : IsPrisma db) where
  -- A tick takes pending messages only, at most 250 of them, in the order of their creation; and a
  -- pending message is left out only when the batch is full of messages that are no younger.
  pub dispatch_lem :
      (s : Board)
      → (length (dispatch db s) ≤ batch)
        × All (λ m. is_pending m ≡ true) (dispatch db s)
        × Sorted no_younger (dispatch db s)
        × ((m : OutboxMessage)
            → Elem m s.outbox
            → is_pending m ≡ true
            → Elem m (dispatch db s)
              ⊎ ((length (dispatch db s) ≡ batch)
                  × All (λ n. no_younger n m ≡ true) (dispatch db s)))
  unfolding dispatch
  dispatch_lem s =
      let rows = db.find_many is_pending s.outbox in
      let pending : All (λ m. is_pending m ≡ true) rows =
        rw (laws.find_many_rows is_pending s.outbox) (filter_sound is_pending s.outbox) in
      let sorted = sort_by no_younger rows in
      (
        omega (arith, length-take batch sorted),
        All-take _ batch sorted (sort-All no_younger _ rows pending),
        take-Sorted no_younger batch sorted (older_first rows),
        λ m there waits.
            take-Pairwise no_younger batch m sorted
              (sort-Pairwise no_younger (λ x y h. ground (arith, h))
                (λ x y z h k. ground (arith, h, k)) rows)
              (sort-Elem no_younger m rows (
                rw (laws.find_many_rows is_pending s.outbox)
                  (Elem-filter is_pending m s.outbox there waits))),
      )
