-- ===== src/Messaging/Outbox.antt =====
-- outbox.service.ts and outbox.dispatcher.ts.
use tpulse_backend.Prelude.{
  ℕ, Bool, ◌&&◌, not, Option, none, some, List, ltb, leb, ◌==◌, is_some, take,
}
use tpulse_backend.Prelude.Sorting.{sort_by}
use tpulse_backend.Db.{Prisma}
use tpulse_backend.Effects.{Action, conflict, write, ◌>>=◌}
use tpulse_backend.Board.{Board, Env, Event, OutboxMessage, fresh}

abbrev pub batch : ℕ
batch = 250

abbrev pub max_retry : ℕ
max_retry = 10

abbrev pub set_outbox : Board → Option (List OutboxMessage) → Option Board
set_outbox s none = none
set_outbox s (some t) = some (record s { outbox = t })

abbrev pub new_message : ℕ → ℕ → Event → OutboxMessage
new_message id now event = record {
  id = id;
  event = event;
  retry_count = 0;
  created_at_utc = now;
  processed_at_utc = none;
}

-- The event and its payload as one row.
unfoldable pub enqueue : Prisma → Env → Event → Action Board (Unit {0})
enqueue db env event = do
  id ← fresh env
  let message = new_message id env.now event
  write (λ s. set_outbox s (db.create (λ m. m.id == id) message s.outbox)) conflict

-- `orderBy: { createdAtUtc: 'asc' }`
abbrev pub no_younger : OutboxMessage → OutboxMessage → Bool
no_younger m n = leb m.created_at_utc n.created_at_utc

abbrev pub is_pending : OutboxMessage → Bool
is_pending m = not (is_some m.processed_at_utc) && ltb m.retry_count max_retry

abbrev pub is_dead : OutboxMessage → Bool
is_dead m = not (is_some m.processed_at_utc) && leb max_retry m.retry_count

-- The jobs that one tick adds to the queue, by message id.
unfoldable pub dispatch : Prisma → Board → List OutboxMessage
dispatch db s = take batch (sort_by no_younger (db.find_many is_pending s.outbox))

-- How many messages the tick reports as dead.
unfoldable pub dead_count : Prisma → Board → ℕ
dead_count db s = db.count_rows is_dead s.outbox
