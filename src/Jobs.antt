-- ===== src/Jobs.antt =====
-- internal/platform/jobs/jobs.go: a job runs under a lease in the table job_lock. A moment is in
-- nanoseconds and the database's, whose now() all instances share; a statement on the database
-- succeeds.
pub mod Runs
pub mod Exclusion
pub mod Leases
use marketplace.Base.{
  ℕ, ◌+◌, ◌*◌, Bool, true, false, ◌&&◌, Option, none, some, List, [], ◌∷◌, ltb, if◌then◌else◌,
  Bytes, same_bytes, find, insert, update,
}

-- ten minutes
abbrev pub lease : ℕ
lease = 600 * 1_000_000_000

-- A row of job_lock.
pub record Lock : Type 0 where
  pub name : Bytes
  pub holder : Bytes
  pub leased_until : ℕ
  pub finished_at : Option ℕ

abbrev pub is_lock : Bytes → Lock → Bool
is_lock name l = same_bytes l.name name

-- INSERT … ON CONFLICT (name) DO UPDATE … WHERE leased_until < now(), and whether a row was written:
-- what was found in the way decides.
unfoldable pub take_found : Bytes → Bytes → ℕ → Option Lock → List Lock → Bool × List Lock
take_found name holder now none locks = (
  true,
  insert (record { name = name; holder = holder; leased_until = now + lease; finished_at = none })
      locks,
)
take_found name holder now (some l) locks =
    if ltb l.leased_until now
    then (
      true,
      update (is_lock name) (λ l. record l { holder = holder; leased_until = now + lease }) locks,
    )
    else (false, locks)

-- (*Runner).take
unfoldable pub take : Bytes → Bytes → ℕ → List Lock → Bool × List Lock
take name holder now locks = take_found name holder now (find (is_lock name) locks) locks

-- (*Runner).release
unfoldable pub release : Bytes → Bytes → ℕ → List Lock → List Lock
release name holder now locks =
    update (λ l. is_lock name l && same_bytes l.holder holder)
      (λ l. record l { leased_until = now; finished_at = some now }) locks

-- What Run returns.
pub data Ran : Type 0 where
  unknown_job busy failed finished : Ran

-- A job may change everything, the locks included: other instances go on while it runs.
module _ (World : Type 0) where
  pub record State : Type 0 where
    pub locks : List Lock
    pub world : World

  -- Job: whether it worked, and what it left.
  abbrev pub Job : Type 0
  Job = State → Bool × State

  -- Register, of a job with its name: the last one registered is the one that runs.
  unfoldable pub register : Bytes → Job → (Bytes → Option Job) → Bytes → Option Job
  register name job jobs asked = if same_bytes asked name then some job else jobs asked

module _ {World : Type 0} where
  -- What Run does once the job returned.
  abbrev pub finish : Bytes → Bytes → ℕ → Bool × State World → Ran × State World
  finish name holder after (worked, s) =
      (if worked then finished else failed, record s { locks = release name holder after s.locks })

  abbrev pub run_job : Bytes → Bytes → ℕ → ℕ → Job World → State World → Ran × State World
  run_job name holder now after job s =
      let (taken, locks) = take name holder now s.locks in
      if taken then finish name holder after (job (record s { locks = locks })) else (busy, s)

  abbrev pub run_known :
      Bytes → Bytes → ℕ → ℕ → Option (Job World) → State World → Ran × State World
  run_known name holder now after none s = (unknown_job, s)
  run_known name holder now after (some job) s = run_job name holder now after job s

  -- (*Runner).Run: the job is asked for at `now` and released at `after`.
  unfoldable pub run :
      (Bytes → Option (Job World)) → Bytes → Bytes → ℕ → ℕ → State World → Ran × State World
  run jobs holder name now after s = run_known name holder now after (jobs name) s
