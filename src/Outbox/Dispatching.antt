-- ===== src/Outbox/Dispatching.antt =====
-- internal/platform/outbox/dispatcher.go, with outbox_pending(), outbox_dispatched() and
-- outbox_failed() of migrations/00006_outbox_and_jobs.sql and 00010: the events that wait are offered
-- to the queue, and parked after the last attempt. Dispatch has no transaction, so each of its statements
-- and each call of the queue is a step of its own, between which anyone may write the table. The queue
-- is a parameter, which does not write the table; a statement on the database succeeds, so the branches
-- that log that one did not are left out.
use marketplace.Base.{
  ℕ, zero, suc, ◌+◌, Bool, true, false, Option, none, some, List, [], ◌∷◌, leb, if◌then◌else◌,
  Bytes, same_bytes, select, update,
}
use marketplace.Outbox.{Event}

-- attemptsAllowed
abbrev pub attempts_allowed : ℕ
attempts_allowed = 5

-- the batch of NewDispatcher
abbrev pub batch : ℕ
batch = 100

pub data EventState : Type 0 where
  pending dispatched parked : EventState

-- A row of outbox_event.
pub record EventRow : Type 0 where
  pub event : Event
  pub state : EventState
  pub attempts : ℕ
  pub created_at : ℕ

abbrev pub is_pending : EventRow → Bool
is_pending r = elim r.state [ pending ↦ true | dispatched ↦ false | parked ↦ false ]

abbrev pub is_event : Bytes → EventRow → Bool
is_event id r = same_bytes r.event.id id

-- ORDER BY created_at
unfoldable pub insert_by_age : EventRow → List EventRow → List EventRow
insert_by_age r [] = r ∷ []
insert_by_age r (s ∷ rest) =
    let further = insert_by_age r rest in
    if leb r.created_at s.created_at then r ∷ s ∷ rest else s ∷ further

unfoldable pub by_age : List EventRow → List EventRow
by_age [] = []
by_age (r ∷ rs) = insert_by_age r (by_age rs)

-- LIMIT
unfoldable pub first_of : ℕ → List EventRow → List EventRow
first_of zero rs = []
first_of (suc n) [] = []
first_of (suc n) (r ∷ rs) = r ∷ first_of n rs

-- outbox_pending
unfoldable pub outbox_pending : ℕ → List EventRow → List EventRow
outbox_pending n rows = first_of n (by_age (select is_pending rows))

-- Write: the new row.
abbrev pub written_row : Event → ℕ → EventRow
written_row event now = record { event = event; state = pending; attempts = 0; created_at = now }

-- "email.send"
abbrev pub mail_kind : Bytes
mail_kind = b'e' ∷ b'm' ∷ b'a' ∷ b'i' ∷ b'l' ∷ b'.' ∷ b's' ∷ b'e' ∷ b'n' ∷ b'd' ∷ []

-- A run of Dispatch: the events that it has read and not offered, and the one that it offered last
-- with the queue's answer, until that is marked.
pub record Run : Type 0 where
  pub waiting : List EventRow
  pub offered : Option (EventRow × Bool)

-- The query of Dispatch.
unfoldable pub read_events : List EventRow → Run
read_events rows = record { waiting = outbox_pending batch rows; offered = none }

-- What the dispatcher calls: the queue, which accepts an event or not, and PostgreSQL's
-- payload - 'Variables'.
pub record Queue (World : Type 0) : Type 0 where
  pub enqueue : Event → World → Bool × World
  pub redact : Bytes → Bytes

module _ {World : Type 0} (q : Queue World) where
  -- The payload of a row that nobody reads again.
  abbrev pub redacted : Event → Event
  redacted e = record e {
    payload = if same_bytes e.kind mail_kind then q.redact e.payload else e.payload;
  }

  -- SET of outbox_dispatched
  abbrev pub set_dispatched : EventRow → EventRow
  set_dispatched r = record r {
    event = redacted r.event;
    state = dispatched;
    attempts = r.attempts + 1;
  }

  -- SET of outbox_failed
  abbrev pub set_failed : EventRow → EventRow
  set_failed r =
      if leb attempts_allowed (r.attempts + 1)
      then record r { event = redacted r.event; state = parked; attempts = r.attempts + 1 }
      else record r { state = pending; attempts = r.attempts + 1 }

  -- What follows the queue's answer: outbox_dispatched, or outbox_failed.
  abbrev pub mark : Bool → EventRow → EventRow
  mark true r = set_dispatched r
  mark false r = set_failed r

  abbrev pub next_of : List EventRow → Option (EventRow × Bool) → World → Run × World
  next_of waiting (some answered) w = (record { waiting = waiting; offered = some answered }, w)
  next_of [] none w = (record { waiting = []; offered = none }, w)
  next_of (r ∷ rest) none w =
      let (accepted, w') = q.enqueue r.event w in
      (record { waiting = rest; offered = some (r, accepted) }, w')

  -- Enqueue, of the next event that was read.
  unfoldable pub offer_next : Run → World → Run × World
  offer_next run w = next_of run.waiting run.offered w

  abbrev pub mark_answer : Option (EventRow × Bool) → List EventRow → List EventRow
  mark_answer none rows = rows
  mark_answer (some (r, accepted)) rows = update (is_event r.event.id) (mark accepted) rows

  -- outbox_dispatched or outbox_failed, of the event that was offered: the loop that goes on, and the
  -- table.
  unfoldable pub mark_offered : Run → List EventRow → Run × List EventRow
  mark_offered run rows = (record run { offered = none }, mark_answer run.offered rows)
