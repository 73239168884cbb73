-- ===== src/Tasks.antt =====
-- internal/platform/httpx/internaltasks.go: the callbacks of Cloud Tasks and Cloud Scheduler, which
-- deliver an event or run a job. The validation of a token, strings.EqualFold and the JSON of a body
-- of at most one MiB are parameters.
pub mod Answered
use marketplace.Base.{
  ℕ, Bool, true, false, Option, none, some, List, [], ◌∷◌, if◌then◌else◌, Bytes, Outcome, ok, err,
}
use marketplace.Templates.{cut_prefix}
use marketplace.Outbox as Outbox
use marketplace.Jobs as Jobs

-- What the deliveries and the jobs share: a job may change everything.
abbrev pub Store : Type 0 → Type 0
Store World = Jobs.State (Outbox.State World)

-- call
pub record Call : Type 0 where
  pub event : Option Outbox.Event
  pub job : Bytes

-- Tasks: Validate answers with the account of a token.
pub record Tasks (World : Type 0) : Type 0 where
  pub validate : Bytes → Bytes → Option Bytes
  pub equal_fold : Bytes → Bytes → Bool
  pub decode : Bytes → Option Call
  pub audience : Bytes
  pub invoker : Bytes
  pub registry : Outbox.Registry World
  pub jobs : Bytes → Option (Jobs.Job (Outbox.State World))
  pub holder : Bytes

-- The statuses 204, 400, 401 and 500.
pub data Status : Type 0 where
  no_content bad_request unauthorized server_error : Status

-- "Bearer "
abbrev pub bearer : Bytes
bearer = b'B' ∷ b'e' ∷ b'a' ∷ b'r' ∷ b'e' ∷ b'r' ∷ b' ' ∷ []

-- The answers to what Deliver and Run return.
abbrev pub status_of_event : Outcome Outbox.Failure (Unit {0}) → Status
status_of_event (ok _) = no_content
status_of_event (err Outbox.unknown_kind) = bad_request
status_of_event (err Outbox.could_not_handle) = server_error

abbrev pub status_of_job : Jobs.Ran → Status
status_of_job Jobs.unknown_job = bad_request
status_of_job Jobs.busy = no_content
status_of_job Jobs.failed = server_error
status_of_job Jobs.finished = no_content

module _ {World : Type 0} (t : Tasks World) where
  abbrev pub is_invoker : Option Bytes → Bool
  is_invoker none = false
  is_invoker (some email) = t.equal_fold email t.invoker

  abbrev pub is_bearer : Option Bytes → Bool
  is_bearer none = false
  is_bearer (some []) = false
  is_bearer (some (c ∷ token)) = is_invoker (t.validate (c ∷ token) t.audience)

  -- allowed, of the header Authorization
  unfoldable pub allowed : Bytes → Bool
  allowed header = is_bearer (cut_prefix bearer header)

  -- event
  unfoldable pub deliver_event : Outbox.Event → Store World → Status × Store World
  deliver_event event s =
      let r = Outbox.deliver t.registry event s.world in
      (status_of_event r.0, record s { world = r.1 })

  -- job
  unfoldable pub start_job : Bytes → ℕ → ℕ → Store World → Status × Store World
  start_job name now after s =
      let r = Jobs.run t.jobs t.holder name now after s in (status_of_job r.0, r.1)

  abbrev pub act_on : Option Outbox.Event → Bytes → ℕ → ℕ → Store World → Status × Store World
  act_on event (c ∷ name) now after s = start_job (c ∷ name) now after s
  act_on (some event) [] now after s = deliver_event event s
  act_on none [] now after s = (bad_request, s)

  abbrev pub act_on_body : Option Call → ℕ → ℕ → Store World → Status × Store World
  act_on_body none now after s = (bad_request, s)
  act_on_body (some call) now after s = act_on call.event call.job now after s

  -- Handle
  unfoldable pub handle : Bytes → Bytes → ℕ → ℕ → Store World → Status × Store World
  handle header body now after s =
      if allowed header then act_on_body (t.decode body) now after s else (unauthorized, s)
