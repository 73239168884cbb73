-- ===== src/Jobs/Runs.antt =====
-- internal/platform/jobs/jobs.go: the runs of all the instances, interleaved in any order.
use marketplace.Base.{ℕ, ◌+◌, ◌≤◌, ◌≡◌, true, false, List, [], ◌∷◌, ◌++◌, Bytes, All}
use marketplace.Jobs.{Lock, lease, take, release}

-- A run that is in progress: its job, the holder that it took the lease with, and when.
pub record Run : Type 0 where
  pub name : Bytes
  pub holder : Bytes
  pub since : ℕ

pub record Site : Type 0 where
  pub now : ℕ
  pub locks : List Lock
  pub running : List Run

-- What may happen next: a job is asked for and starts, or is busy; a run ends; the instance of a run
-- is killed.
pub data Step (s : Site) : Site → Type 0 where
  starts :
      (name holder : Bytes) (now : ℕ)
      → s.now ≤ now
      → (take name holder now s.locks).0 ≡ true
      → Step s (record {
        now = now;
        locks = (take name holder now s.locks).1;
        running = record { name = name; holder = holder; since = now } ∷ s.running;
      })
  stands_down :
      (name holder : Bytes) (now : ℕ)
      → s.now ≤ now
      → (take name holder now s.locks).0 ≡ false
      → Step s (record s { now = now; locks = (take name holder now s.locks).1 })
  ends :
      (front back : List Run) (r : Run) (now : ℕ)
      → s.now ≤ now
      → s.running ≡ front ++ r ∷ back
      → Step s (record {
        now = now;
        locks = release r.name r.holder now s.locks;
        running = front ++ back;
      })
  killed :
      (front back : List Run) (r : Run) (now : ℕ)
      → s.now ≤ now
      → s.running ≡ front ++ r ∷ back
      → Step s (record s { now = now; running = front ++ back })

-- What can come about from an empty table through sites of which P holds.
pub data Reached (P : Site → Type 0) : Site → Type 0 where
  at_first : (now : ℕ) → Reached P (record { now = now; locks = []; running = [] })
  later : {s t : Site} → Reached P s → Step s t → P t → Reached P t

-- No run has outlived its lease.
abbrev pub IsPrompt : Site → Type 0
IsPrompt s = All (λ r. s.now ≤ r.since + lease) s.running
