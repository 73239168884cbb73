-- ===== src/Tenancy/Fresh.antt =====
-- internal/tenancy/tenancy.go: what the host map that is held for a while answers, against a
-- resolution that reads the map on every request. The repository holds a map at each moment.
use marketplace.Base.{
  ℕ, ◌+◌, ◌≤◌, ◌<◌, ◌≡◌, refl, ap, ◌∙◌, Bool, true, false, Option, none, some, List, [], ◌∷◌, arith,
  Bool-cases, inl, inr, if◌then◌else◌, Bytes, same_bytes, Outcome, ok, err,
}
use marketplace.Tenancy.{
  Hosts, HostMap, Resolver, Resolution, unknown, platform_host, console_host, resolution, normalise,
  is_blank, look_up, is_fresh, held, answered, ttl, load, resolve, invalidate,
}

-- A request: when it arrives, when its query sees the map, when the query has answered, and whether
-- the repository can be reached.
pub record Request : Type 0 where
  pub host : Bytes
  pub now : ℕ
  pub seen : ℕ
  pub after : ℕ
  pub reachable : Bool

pub data Happening : Type 0 where
  asked : Request → Happening
  forgotten : ℕ → Happening

-- A resolution that reads the map each time.
abbrev pub resolve_in : Hosts → Resolver → HostMap → Bytes → Resolution
resolve_in n r hosts host =
    let name = normalise n host in
    if is_blank name
    then unknown
    else if same_bytes name r.platform
    then platform_host
    else if same_bytes name r.console
    then console_host
    else resolution (look_up name hosts)

-- The moment that a history ends at, and the moment at which the map was last forgotten.
abbrev pub clock : ℕ → List Happening → ℕ
clock moment [] = moment
clock moment (asked q ∷ rest) = clock q.after rest
clock moment (forgotten m ∷ rest) = clock m rest

abbrev pub since : ℕ → List Happening → ℕ
since moment [] = moment
since moment (asked q ∷ rest) = since moment rest
since moment (forgotten m ∷ rest) = since m rest

module _ (took : ℕ) where
  -- The query of a request sees the map between the two readings of the clock, and answers in time.
  abbrev pub IsQuery : ℕ → Request → Type 0
  IsQuery moment q =
      (moment ≤ q.now) × (q.now ≤ q.seen) × (q.seen ≤ q.after) × (q.after ≤ q.seen + took)

  -- One thing happens after another.
  abbrev pub IsTimed : ℕ → List Happening → Type 0
  IsTimed moment [] = Unit {0}
  IsTimed moment (asked q ∷ rest) = IsQuery moment q × IsTimed q.after rest
  IsTimed moment (forgotten m ∷ rest) = (moment ≤ m) × IsTimed m rest

module _ (n : Hosts) (rows : ℕ → HostMap) (took : ℕ) where
  abbrev answer_of : Request → Option HostMap
  answer_of q = if q.reachable then some (rows q.seen) else none

  abbrev pub ask : Request → Resolver → Outcome (Unit {0}) Resolution × Resolver
  ask q r = resolve n q.now q.after (answer_of q) q.host r

  abbrev pub happen : Happening → Resolver → Resolver
  happen (asked q) r = (ask q r).1
  happen (forgotten moment) r = invalidate r

  unfoldable pub happened : List Happening → Resolver → Resolver
  happened [] r = r
  happened (h ∷ rest) r = happened rest (happen h r)

  -- A map that is held is the repository's at a moment since the map was last forgotten.
  abbrev pub IsHeld : ℕ → ℕ → Option (HostMap × ℕ) → Type 0
  IsHeld start moment none = Unit {0}
  IsHeld start moment (some (hosts, loaded)) =
      (t : ℕ) × (start ≤ t)
      × (t ≤ loaded)
      × (loaded ≤ t + took)
      × (loaded ≤ moment)
      × (hosts ≡ rows t)

  -- An answer is what the repository's map of a moment says, less than the time to live and the time
  -- of a query ago, and not before the map was last forgotten; an error is the repository's.
  abbrev pub IsCurrent : ℕ → Resolver → Request → Outcome (Unit {0}) Resolution → Type 0
  IsCurrent start r q (ok x) =
      (t : ℕ) × (start ≤ t)
      × (t ≤ q.after)
      × (q.now < t + took + ttl)
      × (x ≡ resolve_in n r (rows t) q.host)
  IsCurrent start r q (err _) = q.reachable ≡ false

  -- What load answers, and what it holds then.
  IsLoaded : ℕ → Resolver → Request → Outcome (Unit {0}) HostMap × Resolver → Type 0
  IsLoaded start r q (ok hosts, r') =
      ((t : ℕ) × (start ≤ t) × (t ≤ q.after) × (q.now < t + took + ttl) × (hosts ≡ rows t))
      × IsHeld start q.after r'.hosts
      × (r'.platform ≡ r.platform)
      × (r'.console ≡ r.console)
  IsLoaded start r q (err _, r') = (q.reachable ≡ false) × (r' ≡ r)

  -- A map that is fresh is held, and is the repository's of a moment not long ago.
  held-fresh :
      (start moment now : ℕ) (state : Option (HostMap × ℕ))
      → is_fresh now state ≡ true
      → moment ≤ now
      → IsHeld start moment state
      → (t : ℕ) × (start ≤ t) × (t ≤ now) × (now < t + took + ttl) × (held state ≡ rows t)
  held-fresh start moment now none fresh order h = absurd cc
  held-fresh start moment now (some (hosts, loaded)) fresh order
        (t, from, to, in_time, before, same) =
      (t, from, omega arith, ground arith, same)

  pub IsHeld-later :
      (start moment later : ℕ) (state : Option (HostMap × ℕ))
      → moment ≤ later
      → IsHeld start moment state
      → IsHeld start later state
  IsHeld-later start moment later none order h = tt
  IsHeld-later start moment later (some (hosts, loaded)) order
        (t, from, to, in_time, before, same) =
      (t, from, to, in_time, omega arith, same)

  load-IsLoaded :
      (start moment : ℕ) (q : Request) (r : Resolver)
      → start ≤ moment
      → IsHeld start moment r.hosts
      → IsQuery took moment q
      → IsLoaded start r q (load q.now q.after (answer_of q) r)
  unfolding load IsLoaded
  load-IsLoaded start moment q r order h (before, begun, seen, answered_in_time) =
      elim (Bool-cases (is_fresh q.now r.hosts)) [
        | inl fresh ↦
            let (t, from, to, recent, same) =
              held-fresh start moment q.now r.hosts fresh before h in
            rw fresh (
              (t, from, omega arith, recent, same),
              IsHeld-later start moment q.after r.hosts (omega arith) h,
              refl,
              refl,
            )
        | inr stale ↦ elim (Bool-cases q.reachable) [
          | inl there ↦
              rw (stale, there)
                (
                  (q.seen, omega arith, seen, omega arith, refl),
                  (q.seen, omega arith, seen, answered_in_time, omega arith, refl),
                  refl,
                  refl,
                )
          | inr away ↦ rw (stale, away) (refl, refl)
        ]
      ]

  -- What a request is answered and what it leaves.
  unfoldable pub IsStep : ℕ → Resolver → Request → Outcome (Unit {0}) Resolution × Resolver → Type 0
  IsStep start r q (out, r') =
      IsCurrent start r q out
      × IsHeld start q.after r'.hosts
      × (r'.platform ≡ r.platform)
      × (r'.console ≡ r.console)

  -- An answer that needs no map.
  kept-IsStep :
      (start moment : ℕ) (q : Request) (r : Resolver) (x : Resolution)
      → start ≤ moment
      → IsHeld start moment r.hosts
      → IsQuery took moment q
      → ((hosts : HostMap) → x ≡ resolve_in n r hosts q.host)
      → IsStep start r q (ok x, r)
  unfolding IsStep
  kept-IsStep start moment q r x order h (before, begun, seen, in_time) same = (
    (q.seen, omega arith, seen, omega arith, same (rows q.seen)),
    IsHeld-later start moment q.after r.hosts (omega arith) h,
    refl,
    refl,
  )

  answered-IsStep :
      (start : ℕ) (q : Request) (r : Resolver) (loaded : Outcome (Unit {0}) HostMap × Resolver)
      → ((hosts : HostMap)
          → resolution (look_up (normalise n q.host) hosts) ≡ resolve_in n r hosts q.host)
      → IsHeld start q.after r.hosts
      → IsLoaded start r q loaded
      → IsStep start r q (answered (normalise n q.host) loaded)
  unfolding IsLoaded IsStep
  answered-IsStep start q r (ok hosts, r') same h ((t, from, to, recent, e), then_held, p, c) = (
    (t, from, to, recent, ap (λ m. resolution (look_up (normalise n q.host) m)) e ∙ same (rows t)),
    then_held,
    p,
    c,
  )
  answered-IsStep start q r (err _, r') same h (away, e) =
      (away, rw e h, ap (λ r. r.platform) e, ap (λ r. r.console) e)

  pub resolve-IsStep :
      (start moment : ℕ) (q : Request) (r : Resolver)
      → start ≤ moment
      → IsHeld start moment r.hosts
      → IsQuery took moment q
      → IsStep start r q (ask q r)
  unfolding resolve
  resolve-IsStep start moment q r order h timed =
      let name = normalise n q.host in
      elim (Bool-cases (is_blank name)) [
        | inl blank ↦
            rw blank (kept-IsStep start moment q r unknown order h timed (λ hosts. rw blank refl))
        | inr filled ↦ elim (Bool-cases (same_bytes name r.platform)) [
          | inl hit ↦
              rw (filled, hit)
                (kept-IsStep start moment q r platform_host order h timed
                  (λ hosts. rw (filled, hit) refl))
          | inr miss ↦ elim (Bool-cases (same_bytes name r.console)) [
            | inl console ↦
                rw (filled, miss, console)
                  (kept-IsStep start moment q r console_host order h timed
                    (λ hosts. rw (filled, miss, console) refl))
            | inr other ↦
                rw (filled, miss, other)
                  (answered-IsStep start q r (load q.now q.after (answer_of q) r)
                    (λ hosts. rw (filled, miss, other) refl)
                    (IsHeld-later start moment q.after r.hosts
                      (let (a, b, c, d) = timed in omega arith) h)
                    (load-IsLoaded start moment q r order h timed))
          ]
        ]
      ]
