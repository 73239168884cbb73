-- ===== src/Outbox.antt =====
-- internal/platform/outbox/consumer.go: an event is handed to its consumers, each of which claims it
-- first in the table outbox_delivery. A consumer is given no transaction: what it does stays, also
-- where its claim is rolled back. A statement on the database succeeds.
pub mod Once
pub mod Dispatching
pub mod Overlapping
use marketplace.Base.{
  Bool, true, false, ◌&&◌, List, [], ◌∷◌, ◌++◌, if◌then◌else◌, Bytes, same_bytes, Outcome, ok, err,
  count, insert, is_set, find,
}

-- Event; its other fields are for its consumers.
pub record Event : Type 0 where
  pub id : Bytes
  pub kind : Bytes
  pub payload : Bytes

pub data Failure : Type 0 where
  unknown_kind could_not_handle : Failure

-- A row of outbox_delivery.
pub record Delivery : Type 0 where
  pub event : Bytes
  pub consumer : Bytes

-- The world outside of the table is the consumers' own.
module _ (World : Type 0) where
  -- Consumer
  pub record Consumer : Type 0 where
    pub name : Bytes
    pub handle : Event → World → Outcome Failure (Unit {0}) × World

  -- Registry: the consumers of a kind, in the order in which they were registered.
  abbrev pub Registry : Type 0
  Registry = Bytes → List Consumer

  pub record State : Type 0 where
    pub deliveries : List Delivery
    pub world : World

  -- (*Registry).On
  unfoldable pub on : Registry → Bytes → Consumer → Registry
  on registry kind consumer k =
      if same_bytes k kind then registry k ++ consumer ∷ [] else registry k

abbrev pub is_claim : Bytes → Bytes → Delivery → Bool
is_claim event consumer d = same_bytes d.event event && same_bytes d.consumer consumer

abbrev pub is_claimed : Bytes → Bytes → List Delivery → Bool
is_claimed event consumer rows = is_set (find (is_claim event consumer) rows)

-- claim: INSERT … ON CONFLICT DO NOTHING, and whether a row was inserted.
unfoldable pub claim : Bytes → Bytes → List Delivery → Bool × List Delivery
claim event consumer rows =
    if is_claimed event consumer rows
    then (false, rows)
    else (true, insert (record { event = event; consumer = consumer }) rows)

module _ {World : Type 0} where
  -- What the transaction of one consumer leaves: its claim only if the consumer succeeded.
  abbrev pub settle :
      List Delivery
      → List Delivery
      → Outcome Failure (Unit {0}) × World
      → Outcome Failure (Unit {0}) × State World
  settle before claimed (ok _, world) = (ok tt, record { deliveries = claimed; world = world })
  settle before claimed (err _, world) =
      (err could_not_handle, record { deliveries = before; world = world })

  -- The transaction of one consumer in Deliver.
  unfoldable pub deliver_one :
      Event → Consumer World → State World → Outcome Failure (Unit {0}) × State World
  unfolding claim
  deliver_one event consumer s =
      let (claimed, rows) = claim event.id consumer.name s.deliveries in
      if claimed then settle s.deliveries rows (consumer.handle event s.world) else (ok tt, s)

  abbrev pub and_then :
      Outcome Failure (Unit {0}) × State World
      → (State World → Outcome Failure (Unit {0}) × State World)
      → Outcome Failure (Unit {0}) × State World
  and_then (ok _, s) k = k s
  and_then (err e, s) k = (err e, s)

  -- The loop over the consumers.
  unfoldable pub deliver_all :
      Event → List (Consumer World) → State World → Outcome Failure (Unit {0}) × State World
  deliver_all event [] s = (ok tt, s)
  deliver_all event (consumer ∷ rest) s =
      and_then (deliver_one event consumer s) (deliver_all event rest)

  abbrev pub known :
      Event → List (Consumer World) → State World → Outcome Failure (Unit {0}) × State World
  known event [] s = (err unknown_kind, s)
  known event (consumer ∷ rest) s = deliver_all event (consumer ∷ rest) s

  -- Deliver
  unfoldable pub deliver :
      Registry World → Event → State World → Outcome Failure (Unit {0}) × State World
  deliver registry event s = known event (registry event.kind) s
