-- ===== src/Outbox/Overlapping.antt =====
-- internal/platform/outbox/dispatcher.go: the table when any number of dispatchers overlap.
use marketplace.Base.{
  ℕ, zero, suc, ◌+◌, ◌≤◌, ◌<◌, ◌≡◌, refl, Bool, true, false, Option, none, some, List, [], ◌∷◌,
  arith, Bool-cases, inl, inr, leb, ◌==◌, if◌then◌else◌, select, insert, All, All-insert,
  All-update,
}
use marketplace.Outbox.{Event}
use marketplace.Outbox.Dispatching.{
  EventState, pending, dispatched, parked, EventRow, Run, is_pending, is_event, outbox_pending,
  insert_by_age, by_age, first_of, written_row, Queue, mark, read_events, next_of, offer_next,
  mark_answer, mark_offered, attempts_allowed, batch,
}

-- What happens: an event is written, or a dispatcher begins a run, offers its next event to the queue,
-- or marks the one that it offered.
pub data Happening : Type 0 where
  wrote : Event → ℕ → Happening
  reads offers marks : ℕ → Happening

-- The table, the queue, and each dispatcher's run.
pub record System (World : Type 0) : Type 0 where
  pub rows : List EventRow
  pub world : World
  pub runs : ℕ → Run

-- Whether a run is over, so that the next may begin.
abbrev nothing_left : List EventRow → Option (EventRow × Bool) → Bool
nothing_left waiting (some answered) = false
nothing_left [] none = true
nothing_left (r ∷ rest) none = false

abbrev is_over : Run → Bool
is_over run = nothing_left run.waiting run.offered

abbrev set_run : ℕ → Run → (ℕ → Run) → ℕ → Run
set_run i run runs j = if j == i then run else runs j

-- What an event's attempts say of it: one that waits has had fewer than the last, one that is parked at
-- least as many, and one that was handed over one at least.
abbrev pub CountedAs : EventState → ℕ → Type 0
CountedAs pending n = n < attempts_allowed
CountedAs dispatched n = 1 ≤ n
CountedAs parked n = attempts_allowed ≤ n

abbrev pub IsCounted : EventRow → Type 0
IsCounted r = CountedAs r.state r.attempts

-- An event that can still be offered, as it was read.
abbrev pub IsTriable : EventRow → Type 0
IsTriable r = (is_pending r ≡ true) × (r.attempts < attempts_allowed)

pending_few :
    (state : EventState) (n : ℕ)
    → CountedAs state n
    → elim state [ pending ↦ true | dispatched ↦ false | parked ↦ false ] ≡ true
    → n < attempts_allowed
pending_few pending n h is = h
pending_few dispatched n h is = absurd cc
pending_few parked n h is = absurd cc

All-kept :
    (b : Bool) (r : EventRow) (rest : List EventRow)
    → (b ≡ true → IsTriable r)
    → All IsTriable rest
    → All IsTriable (if b then r ∷ rest else rest)
All-kept true r rest own h = (own refl, h)
All-kept false r rest own h = h

All-select : (rows : List EventRow) → All IsCounted rows → All IsTriable (select is_pending rows)
unfolding select
All-select [] h = tt
All-select (r ∷ rs) h =
    All-kept (is_pending r) r (select is_pending rs)
      (λ waits. (waits, pending_few r.state r.attempts h.0 waits)) (All-select rs h.1)

All-insert_by_age :
    (r : EventRow) (rows : List EventRow)
    → IsTriable r
    → All IsTriable rows
    → All IsTriable (insert_by_age r rows)
unfolding insert_by_age
All-insert_by_age r [] own h = (own, tt)
All-insert_by_age r (s ∷ rest) own h = elim (Bool-cases (leb r.created_at s.created_at)) [
  | inl older ↦ rw older (own, h)
  | inr younger ↦ rw younger (h.0, All-insert_by_age r rest own h.1)
]

All-by_age : (rows : List EventRow) → All IsTriable rows → All IsTriable (by_age rows)
unfolding by_age
All-by_age [] h = tt
All-by_age (r ∷ rs) h = All-insert_by_age r (by_age rs) h.0 (All-by_age rs h.1)

All-first_of : (n : ℕ) (rows : List EventRow) → All IsTriable rows → All IsTriable (first_of n rows)
unfolding first_of
All-first_of zero rows h = tt
All-first_of (suc n) [] h = tt
All-first_of (suc n) (r ∷ rs) h = (h.0, All-first_of n rs h.1)

module _ {World : Type 0} (q : Queue World) where
  unfoldable pub happen : Happening → System World → System World
  happen (wrote e now) s = record s { rows = insert (written_row e now) s.rows }
  happen (reads i) s =
      if is_over (s.runs i) then record s { runs = set_run i (read_events s.rows) s.runs } else s
  happen (offers i) s =
      let (run, w) = offer_next q (s.runs i) s.world in
      record s { world = w; runs = set_run i run s.runs }
  happen (marks i) s =
      let (run, rows) = mark_offered q (s.runs i) s.rows in
      record s { rows = rows; runs = set_run i run s.runs }

  -- What is there after what happened, the last of it first.
  unfoldable pub after : List Happening → System World → System World
  after [] s = s
  after (h ∷ earlier) s = happen h (after earlier s)

  mark-IsCounted : (accepted : Bool) (r : EventRow) → IsCounted r → IsCounted (mark q accepted r)
  mark-IsCounted true r h = omega arith
  mark-IsCounted false r h = elim (Bool-cases (leb attempts_allowed (r.attempts + 1))) [
    | inl last ↦ rw last (let many : attempts_allowed ≤ r.attempts + 1 = ground arith in many)
    | inr more ↦ rw more (let few : r.attempts + 1 < attempts_allowed = ground arith in few)
  ]

  mark_answer-IsCounted :
      (answer : Option (EventRow × Bool)) (rows : List EventRow)
      → All IsCounted rows
      → All IsCounted (mark_answer q answer rows)
  mark_answer-IsCounted none rows h = h
  mark_answer-IsCounted (some (r, accepted)) rows h =
      All-update IsCounted (is_event r.event.id) (mark q accepted) rows
        (λ s own hit. mark-IsCounted accepted s own) h

  next_of-IsTriable :
      (waiting : List EventRow) (offered : Option (EventRow × Bool)) (w : World)
      → All IsTriable waiting
      → All IsTriable (next_of q waiting offered w).0.waiting
  next_of-IsTriable es (some answered) w h = h
  next_of-IsTriable [] none w h = h
  next_of-IsTriable (r ∷ rest) none w h = h.1

  -- What holds of the table and of every run.
  abbrev pub IsSound : System World → Type 0
  IsSound s = All IsCounted s.rows × ((i : ℕ) → All IsTriable (s.runs i).waiting)

  set_run-IsTriable :
      (i j : ℕ) (run : Run) (runs : ℕ → Run)
      → All IsTriable run.waiting
      → All IsTriable (runs j).waiting
      → All IsTriable (set_run i run runs j).waiting
  set_run-IsTriable i j run runs own other = elim (Bool-cases (j == i)) [
    | inl same ↦ rw same own
    | inr different ↦ rw different other
  ]

  happen-IsSound : (h : Happening) (s : System World) → IsSound s → IsSound (happen h s)
  unfolding happen read_events outbox_pending offer_next mark_offered
  happen-IsSound (wrote e now) s sound =
      (All-insert IsCounted (written_row e now) s.rows (omega arith) sound.0, sound.1)
  happen-IsSound (reads i) s sound = elim (Bool-cases (is_over (s.runs i))) [
    | inr busy ↦ rw busy sound
    | inl over ↦ rw over (
      sound.0,
      λ j.
          set_run-IsTriable i j (read_events s.rows) s.runs
            (All-first_of batch _ (All-by_age _ (All-select s.rows sound.0))) (sound.1 j),
    )
  ]
  happen-IsSound (offers i) s sound = (
    sound.0,
    λ j.
        set_run-IsTriable i j (offer_next q (s.runs i) s.world).0 s.runs
          (next_of-IsTriable (s.runs i).waiting (s.runs i).offered s.world (sound.1 i)) (sound.1 j),
  )
  happen-IsSound (marks i) s sound = (
    mark_answer-IsCounted (s.runs i).offered s.rows sound.0,
    λ j. set_run-IsTriable i j (mark_offered q (s.runs i) s.rows).0 s.runs (sound.1 i) (sound.1 j),
  )

  -- However many dispatchers overlap and however their statements are ordered, from a table and runs
  -- of which this holds, as of empty ones: an event that waits has fewer than five attempts counted, one
  -- that is parked at least five, one that was handed over at least one, and every event that a run
  -- still has to offer was waiting with fewer than five when it was read.
  pub after-IsSound :
      (happened : List Happening) (s : System World) → IsSound s → IsSound (after happened s)
  unfolding after
  after-IsSound [] s sound = sound
  after-IsSound (h ∷ earlier) s sound =
      happen-IsSound h (after earlier s) (after-IsSound earlier s sound)
