-- ===== src/Outbox/Once.antt =====
-- internal/platform/outbox/consumer.go: a consumer that succeeded is not called again for the event.
use marketplace.Base.{
  ◌≡◌, refl, sym, ap, ◌∙◌, true, List, [], ◌∷◌, arith, Bytes, same_bytes_refl, Outcome, ok, err,
  insert, find-insert,
}
use marketplace.Outbox.{
  Event, Failure, Delivery, Consumer, Registry, State, is_claim, is_claimed, deliver_one, and_then,
  deliver_all, known, deliver,
}

-- Every consumer has claimed the event.
abbrev pub AllClaimed : {World : Type 0} → Bytes → List (Consumer World) → List Delivery → Type 0
AllClaimed event [] rows = Unit {0}
AllClaimed event (c ∷ cs) rows = (is_claimed event c.name rows ≡ true) × AllClaimed event cs rows

-- What is claimed in the one is claimed in the other.
abbrev Keeps : List Delivery → List Delivery → Type 0
Keeps rows rows' =
    (event consumer : Bytes)
    → is_claimed event consumer rows ≡ true
    → is_claimed event consumer rows' ≡ true

Keeps-insert : (row : Delivery) (rows : List Delivery) → Keeps rows (insert row rows)
Keeps-insert row rows event consumer h =
    ground (arith, find-insert (is_claim event consumer) row rows)

module _ {World : Type 0} where
  deliver_one-Keeps :
      (e : Event) (c : Consumer World) (s : State World)
      → Keeps s.deliveries (deliver_one e c s).1.deliveries
  unfolding deliver_one
  deliver_one-Keeps e c s event consumer h = ground (
    arith,
    Keeps-insert (record { event = e.id; consumer = c.name }) s.deliveries event consumer h,
  )

  deliver_one-claimed :
      (e : Event) (c : Consumer World) (s : State World)
      → (deliver_one e c s).0 ≡ ok tt
      → is_claimed e.id c.name (deliver_one e c s).1.deliveries ≡ true
  unfolding deliver_one
  deliver_one-claimed e c s h = ground (
    arith,
    same_bytes_refl e.id,
    same_bytes_refl c.name,
    find-insert (is_claim e.id c.name) (record { event = e.id; consumer = c.name }) s.deliveries,
  )

  and_then-Keeps :
      (r : Outcome Failure (Unit {0}) × State World)
      (k : State World → Outcome Failure (Unit {0}) × State World)
      → ((s : State World) → Keeps s.deliveries (k s).1.deliveries)
      → Keeps r.1.deliveries (and_then r k).1.deliveries
  and_then-Keeps (ok _, s) k h = h s
  and_then-Keeps (err _, s) k h = λ event consumer claimed. claimed

  deliver_all-Keeps :
      (e : Event) (cs : List (Consumer World)) (s : State World)
      → Keeps s.deliveries (deliver_all e cs s).1.deliveries
  unfolding deliver_all
  deliver_all-Keeps e [] s = λ event consumer h. h
  deliver_all-Keeps e (c ∷ cs) s = λ event consumer h.
      and_then-Keeps (deliver_one e c s) (deliver_all e cs) (deliver_all-Keeps e cs) event consumer
        (deliver_one-Keeps e c s event consumer h)

  and_then-ok :
      (r : Outcome Failure (Unit {0}) × State World)
      (k : State World → Outcome Failure (Unit {0}) × State World)
      → (and_then r k).0 ≡ ok tt
      → (r.0 ≡ ok tt) × (and_then r k ≡ k r.1)
  and_then-ok (ok _, s) k h = (refl, refl)
  and_then-ok (err _, s) k h = cc

  deliver_all-AllClaimed :
      (e : Event) (cs : List (Consumer World)) (s : State World)
      → (deliver_all e cs s).0 ≡ ok tt
      → AllClaimed e.id cs (deliver_all e cs s).1.deliveries
  unfolding deliver_all
  deliver_all-AllClaimed e [] s h = tt
  deliver_all-AllClaimed e (c ∷ cs) s h =
      let (first, rest) = and_then-ok (deliver_one e c s) (deliver_all e cs) h in
      let s' = (deliver_one e c s).1 in
      let later : (deliver_all e cs s').0 ≡ ok tt = ap (λ r. r.0) (sym rest) ∙ h in
      rw rest (
        deliver_all-Keeps e cs s' e.id c.name (deliver_one-claimed e c s first),
        deliver_all-AllClaimed e cs s' later,
      )

  AllClaimed-Keeps :
      (event : Bytes) (cs : List (Consumer World)) (rows rows' : List Delivery)
      → Keeps rows rows'
      → AllClaimed event cs rows
      → AllClaimed event cs rows'
  AllClaimed-Keeps event [] rows rows' keeps h = tt
  AllClaimed-Keeps event (c ∷ cs) rows rows' keeps h =
      (keeps event c.name h.0, AllClaimed-Keeps event cs rows rows' keeps h.1)

  deliver_all-again :
      (e : Event) (cs : List (Consumer World)) (s : State World)
      → AllClaimed e.id cs s.deliveries
      → deliver_all e cs s ≡ (ok tt, s)
  unfolding deliver_all deliver_one
  deliver_all-again e [] s h = refl
  deliver_all-again e (c ∷ cs) s h = rw h.0 (deliver_all-again e cs s h.1)

  known-Keeps :
      (e : Event) (cs : List (Consumer World)) (s : State World)
      → Keeps s.deliveries (known e cs s).1.deliveries
  known-Keeps e [] s = λ event consumer h. h
  known-Keeps e (c ∷ cs) s = deliver_all-Keeps e (c ∷ cs) s

  known-ok :
      (e : Event) (cs : List (Consumer World)) (s : State World)
      → (known e cs s).0 ≡ ok tt
      → (t : State World) → known e cs t ≡ deliver_all e cs t
  known-ok e [] s h t = cc
  known-ok e (c ∷ cs) s h t = refl

  deliver-Keeps :
      (registry : Registry World) (e : Event) (s : State World)
      → Keeps s.deliveries (deliver registry e s).1.deliveries
  unfolding deliver
  deliver-Keeps registry e s = known-Keeps e (registry e.kind) s

  -- Deliveries of any events, whatever came of them, in order.
  unfoldable pub delivered : Registry World → List Event → State World → State World
  delivered registry [] s = s
  delivered registry (e ∷ es) s = delivered registry es (deliver registry e s).1

  delivered-Keeps :
      (registry : Registry World) (es : List Event) (s : State World)
      → Keeps s.deliveries (delivered registry es s).deliveries
  unfolding delivered
  delivered-Keeps registry [] s = λ event consumer h. h
  delivered-Keeps registry (e ∷ es) s = λ event consumer h.
      delivered-Keeps registry es (deliver registry e s).1 event consumer
        (deliver-Keeps registry e s event consumer h)

  -- Once an event was delivered without an error, delivering it again calls none of its consumers:
  -- whatever was delivered in between, it answers that all is well, and the claims and the consumers'
  -- world stay as they are.
  pub deliver-again :
      (registry : Registry World) (e : Event) (es : List Event) (s : State World)
      → (deliver registry e s).0 ≡ ok tt
      → let later = delivered registry es (deliver registry e s).1 in
        deliver registry e later ≡ (ok tt, later)
  unfolding deliver
  deliver-again registry e es s h =
      let cs = registry e.kind in
      let same = known-ok e cs s h in
      let first : (deliver_all e cs s).0 ≡ ok tt = ap (λ r. r.0) (sym (same s)) ∙ h in
      let claimed : AllClaimed e.id cs (deliver registry e s).1.deliveries =
        rw (same s) (deliver_all-AllClaimed e cs s first) in
      let later = delivered registry es (deliver registry e s).1 in
      let keeps = delivered-Keeps registry es (deliver registry e s).1 in
      same later ∙ deliver_all-again e cs later (AllClaimed-Keeps e.id cs _ _ keeps claimed)
