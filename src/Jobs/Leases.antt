-- ===== src/Jobs/Leases.antt =====
-- internal/platform/jobs/jobs.go: no job is held forever.
use marketplace.Base.{
  ℕ, ◌+◌, ◌≤◌, ◌<◌, ◌≡◌, refl, inl, inr, true, List, [], ◌∷◌, arith, Bool-cases, Option-cases, ltb,
  Bytes, All, All-insert, All-update, All-find, find,
}
use marketplace.Jobs.{Lock, is_lock, lease, take, take_found, release}
use marketplace.Jobs.Runs.{Site, Step, starts, stands_down, ends, killed, Reached, at_first, later}

-- No lease lasts longer than one from now on.
abbrev AreShort : ℕ → List Lock → Type 0
AreShort now locks = All (λ l. l.leased_until ≤ now + lease) locks

AreShort-later :
    (now after : ℕ) (locks : List Lock) → now ≤ after → AreShort now locks → AreShort after locks
AreShort-later now after [] ahead h = tt
AreShort-later now after (l ∷ ls) ahead h = (omega arith, AreShort-later now after ls ahead h.1)

AreShort-take :
    (name holder : Bytes) (now : ℕ) (locks : List Lock)
    → AreShort now locks
    → AreShort now (take name holder now locks).1
unfolding take take_found
AreShort-take name holder now locks h = elim (Option-cases (find (is_lock name) locks)) [
  | inl nothing ↦ rw nothing (All-insert _ _ locks (omega arith) h)
  | inr (l, found) ↦ elim (Bool-cases (ltb l.leased_until now)) [
    | inl over ↦ rw (found, over) (All-update _ _ _ locks (λ l _ _. omega arith) h)
    | inr held ↦ rw (found, held) h
  ]
]

AreShort-Step : {s t : Site} → Step s t → AreShort s.now s.locks → AreShort t.now t.locks
unfolding release
AreShort-Step {s} (starts name holder now ahead h) short =
    AreShort-take name holder now s.locks (AreShort-later s.now now s.locks ahead short)
AreShort-Step {s} (stands_down name holder now ahead h) short =
    AreShort-take name holder now s.locks (AreShort-later s.now now s.locks ahead short)
AreShort-Step {s} (ends front back r now ahead e) short =
    All-update _ _ _ s.locks (λ l _ _. omega arith) (AreShort-later s.now now s.locks ahead short)
AreShort-Step {s} (killed front back r now ahead e) short =
    AreShort-later s.now now s.locks ahead short

Reached-AreShort : {P : Site → Type 0} {s : Site} → Reached P s → AreShort s.now s.locks
Reached-AreShort (at_first now) = tt
Reached-AreShort (later before step _) = AreShort-Step step (Reached-AreShort before)

-- No job is held forever: whatever started, ended, stood down and was killed, a job that nobody asks
-- for in the meantime can be taken by anyone once a lease has passed.
pub take-Reached :
    {P : Site → Type 0} {s : Site} (name holder : Bytes) (now : ℕ)
    → Reached P s
    → s.now + lease < now
    → (take name holder now s.locks).0 ≡ true
unfolding take take_found
take-Reached {P} {s} name holder now reached passed =
    elim (Option-cases (find (is_lock name) s.locks)) [
      | inl nothing ↦ rw nothing refl
      | inr (l, found) ↦
          let short = (All-find _ (is_lock name) s.locks (Reached-AreShort reached) found).0 in
          ground arith
    ]
