-- ===== src/Jobs/Exclusion.antt =====
-- internal/platform/jobs/jobs.go: one run of a job at a time.
use marketplace.Base.{
  ℕ, ◌+◌, ◌≤◌, ◌<◌, ◌≡◌, refl, ◌⊎◌, inl, inr, Bool, true, false, ◌&&◌, none, some, List, [], ◌∷◌,
  ◌++◌, arith, Bool-cases, Option-cases, if◌then◌else◌, Bytes, same_bytes, same_bytes_sound,
  same_bytes_refl, same_bytes-other, All, count, find, find-insert, find-update, find-update_other,
  subst, sym, ap, ◌∙◌,
}
use marketplace.Jobs.{Lock, is_lock, lease, take, take_found, release}
use marketplace.Jobs.Runs.{
  Run, Site, Step, starts, stands_down, ends, killed, Reached, at_first, later, IsPrompt,
}

abbrev pub is_run : Bytes → Run → Bool
is_run name r = same_bytes r.name name

-- The runs of a job took the lease that lasts until then.
abbrev TakenUntil : Bytes → ℕ → List Run → Type 0
TakenUntil name until rs = All (λ r. is_run name r ≡ true → r.since + lease ≡ until) rs

-- A job has no run in progress, or one, whose lease is the one in the table.
abbrev IsAlone : Bytes → Site → Type 0
IsAlone name s =
    (count (is_run name) s.running ≡ 0)
    ⊎ ((l : Lock) × (find (is_lock name) s.locks ≡ some l)
        × (count (is_run name) s.running ≡ 1)
        × TakenUntil name l.leased_until s.running)

count-prompt :
    (name : Bytes) (until now : ℕ) (rs : List Run)
    → TakenUntil name until rs
    → All (λ r. now ≤ r.since + lease) rs
    → until < now
    → count (is_run name) rs ≡ 0
unfolding count
count-prompt name until now [] h prompt past = refl
count-prompt name until now (r ∷ rs) h prompt past = elim (Bool-cases (is_run name r)) [
  | inl mine ↦ let e = h.0 mine in absurd (omega arith)
  | inr other ↦ rw other (omega (arith, count-prompt name until now rs h.1 prompt.1 past))
]

TakenUntil-none :
    (name : Bytes) (until : ℕ) (rs : List Run)
    → count (is_run name) rs ≡ 0
    → TakenUntil name until rs
unfolding count
TakenUntil-none name until [] h = tt
TakenUntil-none name until (r ∷ rs) h =
    (λ mine. absurd (ground arith), TakenUntil-none name until rs (ground arith))

count-append :
    (name : Bytes) (front back : List Run) (r : Run)
    → count (is_run name) (front ++ r ∷ back)
      ≡ count (is_run name) (r ∷ []) + count (is_run name) (front ++ back)
unfolding count
count-append name [] back r = ground arith
count-append name (x ∷ xs) back r = let ih = count-append name xs back r in omega arith

All-remove :
    (P : Run → Type 0) (front back : List Run) (r : Run)
    → All P (front ++ r ∷ back)
    → All P (front ++ back)
All-remove P [] back r h = h.1
All-remove P (x ∷ xs) back r h = (h.0, All-remove P xs back r h.1)

-- The row of a job after its lease was taken, and of another job.
find-take :
    (name holder : Bytes) (now : ℕ) (locks : List Lock)
    → (take name holder now locks).0 ≡ true
    → (l : Lock) × (find (is_lock name) (take name holder now locks).1 ≡ some l)
      × (l.leased_until ≡ now + lease)
unfolding take take_found
find-take name holder now locks h = elim (Option-cases (find (is_lock name) locks)) [
  | inl nothing ↦
      let row : Lock = record {
        name = name;
        holder = holder;
        leased_until = now + lease;
        finished_at = none;
      } in
      (row, ground (arith, find-insert (is_lock name) row locks, same_bytes_refl name), refl)
  | inr (l, found) ↦
      let held = λ (l : Lock). record l { holder = holder; leased_until = now + lease } in
      (held l, ground (arith, find-update (is_lock name) held locks (λ l. refl)), refl)
]

-- Rows of one job are not another's.
apart :
    (mine name : Bytes) (l : Lock)
    → same_bytes mine name ≡ false
    → same_bytes l.name mine ≡ true
    → same_bytes l.name name ≡ false
apart mine name l other h = same_bytes-other mine name l.name other h

find-take_other :
    (mine name holder : Bytes) (now : ℕ) (locks : List Lock)
    → same_bytes mine name ≡ false
    → find (is_lock name) (take mine holder now locks).1 ≡ find (is_lock name) locks
unfolding take take_found
find-take_other mine name holder now locks other =
    let row : Lock = record {
      name = mine;
      holder = holder;
      leased_until = now + lease;
      finished_at = none;
    } in
    ground (
      arith,
      find-insert (is_lock name) row locks,
      find-update_other (is_lock name) (is_lock mine)
          (λ l. record l { holder = holder; leased_until = now + lease }) locks
          (λ l h. (apart mine name l other h, apart mine name l other h)),
    )

find-release_other :
    (mine name holder : Bytes) (now : ℕ) (locks : List Lock)
    → same_bytes mine name ≡ false
    → find (is_lock name) (release mine holder now locks) ≡ find (is_lock name) locks
unfolding release
find-release_other mine name holder now locks other =
    find-update_other (is_lock name) (λ l. is_lock mine l && same_bytes l.holder holder)
      (λ l. record l { leased_until = now; finished_at = some now }) locks
      (λ l h.
        let k : same_bytes l.name mine ≡ true = ground arith in
        (apart mine name l other k, apart mine name l other k))

-- Locks that keep a job's row, and runs that keep the job's.
IsAlone-kept :
    (name : Bytes) (s t : Site)
    → find (is_lock name) t.locks ≡ find (is_lock name) s.locks
    → count (is_run name) t.running ≡ count (is_run name) s.running
    → ((until : ℕ) → TakenUntil name until s.running → TakenUntil name until t.running)
    → IsAlone name s
    → IsAlone name t
IsAlone-kept name s t rows runs taken (inl idle) = inl (runs ∙ idle)
IsAlone-kept name s t rows runs taken (inr (l, found, one, until)) =
    inr (l, rows ∙ found, runs ∙ one, taken l.leased_until until)

-- A job whose lease can be taken while no run has outlived its own has no run in progress.
count-take :
    (name holder : Bytes) (now : ℕ) (s : Site)
    → (take name holder now s.locks).0 ≡ true
    → All (λ r. now ≤ r.since + lease) s.running
    → IsAlone name s
    → count (is_run name) s.running ≡ 0
unfolding take take_found
count-take name holder now s h prompt (inl idle) = idle
count-take name holder now s h prompt (inr (l, found, one, until)) =
    count-prompt name l.leased_until now s.running until prompt (ground arith)

-- A job's only run leaves none behind.
IsAlone-removed :
    (name : Bytes) (s : Site) (now : ℕ) (locks : List Lock) (front back : List Run) (r : Run)
    → s.running ≡ front ++ r ∷ back
    → (is_run name r ≡ false → find (is_lock name) locks ≡ find (is_lock name) s.locks)
    → IsAlone name s
    → IsAlone name (record { now = now; locks = locks; running = front ++ back })
unfolding count
IsAlone-removed name s now locks front back r e rows alone =
    let total : count (is_run name) s.running
        ≡ (if is_run name r then 1 else 0) + 0 + count (is_run name) (front ++ back) =
      ap (count (is_run name)) e ∙ count-append name front back r in
    elim (Bool-cases (is_run name r)) [
      | inr other ↦
          IsAlone-kept name s (record { now = now; locks = locks; running = front ++ back })
            (rows other) (ground arith)
            (λ until h. All-remove _ front back r (subst (TakenUntil name until) e h)) alone
      | inl mine ↦ elim alone [
        | inl idle ↦ absurd (ground arith)
        | inr (l, found, one, until) ↦ inl (ground arith)
      ]
    ]

IsAlone-Step : (name : Bytes) {s t : Site} → Step s t → IsPrompt t → IsAlone name s → IsAlone name t
unfolding count
IsAlone-Step name {s} {t} (starts mine holder now ahead h) prompt alone =
    elim (Bool-cases (same_bytes mine name)) [
      | inl same ↦
          let e : mine ≡ name = same_bytes_sound mine name same in
          let got : (take name holder now s.locks).0 ≡ true =
            subst (λ n. (take n holder now s.locks).0 ≡ true) e h in
          let idle = count-take name holder now s got prompt.1 alone in
          let (l, found, until) = find-take name holder now s.locks got in
          inr (
            l,
            subst (λ n. find (is_lock name) (take n holder now s.locks).1 ≡ some l) (sym e) found,
            ground arith,
            ((λ _. sym until), TakenUntil-none name l.leased_until s.running idle),
          )
      | inr other ↦
          IsAlone-kept name s t (find-take_other mine name holder now s.locks other) (ground arith)
            (λ until h. ((λ k. absurd (ground arith)), h)) alone
    ]
IsAlone-Step name {s} {t} (stands_down mine holder now ahead h) prompt alone =
    let same : (take mine holder now s.locks).1 ≡ s.locks =
      unfold take take_found in ground arith in
    IsAlone-kept name s t (ap (find (is_lock name)) same) refl (λ until k. k) alone
IsAlone-Step name {s} {t} (ends front back r now ahead e) prompt alone =
    IsAlone-removed name s now _ front back r e
      (λ other. find-release_other r.name name r.holder now s.locks other) alone
IsAlone-Step name {s} {t} (killed front back r now ahead e) prompt alone =
    IsAlone-removed name s now s.locks front back r e (λ _. refl) alone

-- No two runs of one job are in progress at once, on whatever instances they are and in whatever order
-- they start, stand down, end and are killed: where no run outlives its lease.
pub count-Reached :
    {s : Site} (name : Bytes) → Reached IsPrompt s → count (is_run name) s.running ≤ 1
count-Reached {s} name reached = elim (alone reached) [
  | inl idle ↦ omega arith
  | inr (l, found, one, until) ↦ omega arith
]
  where
    alone : {s : Site} → Reached IsPrompt s → IsAlone name s
    alone (at_first now) = inl (unfold count in refl)
    alone (later before step prompt) = IsAlone-Step name step prompt (alone before)
