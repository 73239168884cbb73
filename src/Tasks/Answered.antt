-- ===== src/Tasks/Answered.antt =====
-- internal/platform/httpx/internaltasks.go: what each status of a callback means.
use marketplace.Base.{
  ℕ, ◌≡◌, ◌⊎◌, inl, inr, refl, ap, sym, ◌∙◌, Bool, true, false, Bool-cases, ◌++◌, Option, none,
  some, List, [], ◌∷◌, Bytes, Outcome, ok, err,
}
use marketplace.Templates.{cut_prefix, cut_prefix_sound, cut_prefix-append}
use marketplace.Outbox as Outbox
use marketplace.Jobs as Jobs
use marketplace.Tasks.{
  Store, Call, Tasks, Status, no_content, bad_request, unauthorized, server_error, bearer,
  is_invoker, is_bearer, allowed, deliver_event, start_job, act_on, act_on_body, handle,
  status_of_event, status_of_job,
}

abbrev is_unknown : Outcome Outbox.Failure (Unit {0}) → Bool
is_unknown (err Outbox.unknown_kind) = true
is_unknown (err Outbox.could_not_handle) = false
is_unknown (ok _) = false

abbrev is_unknown_job : Jobs.Ran → Bool
is_unknown_job Jobs.unknown_job = true
is_unknown_job Jobs.busy = false
is_unknown_job Jobs.failed = false
is_unknown_job Jobs.finished = false

module _ {World : Type 0} where
  settle-known :
      (before claimed : List Outbox.Delivery) (out : Outcome Outbox.Failure (Unit {0}) × World)
      → is_unknown (Outbox.settle before claimed out).0 ≡ false
  settle-known before claimed (ok _, world) = refl
  settle-known before claimed (err _, world) = refl

  deliver_one-known :
      (event : Outbox.Event) (consumer : Outbox.Consumer World) (s : Outbox.State World)
      → is_unknown (Outbox.deliver_one event consumer s).0 ≡ false
  unfolding Outbox.deliver_one Outbox.claim
  deliver_one-known event consumer s =
      elim (Bool-cases (Outbox.is_claimed event.id consumer.name s.deliveries)) [
        | inl claimed ↦ rw claimed refl
        | inr fresh ↦ rw fresh (settle-known s.deliveries _ (consumer.handle event s.world))
      ]

  and_then-known :
      (r : Outcome Outbox.Failure (Unit {0}) × Outbox.State World)
      (k : Outbox.State World → Outcome Outbox.Failure (Unit {0}) × Outbox.State World)
      → is_unknown r.0 ≡ false
      → ((s : Outbox.State World) → is_unknown (k s).0 ≡ false)
      → is_unknown (Outbox.and_then r k).0 ≡ false
  and_then-known (ok _, s) k h next = next s
  and_then-known (err e, s) k h next = h

  -- Consumers that fail do not make a kind unknown.
  deliver_all-known :
      (event : Outbox.Event) (consumers : List (Outbox.Consumer World)) (s : Outbox.State World)
      → is_unknown (Outbox.deliver_all event consumers s).0 ≡ false
  unfolding Outbox.deliver_all
  deliver_all-known event [] s = refl
  deliver_all-known event (c ∷ rest) s =
      and_then-known (Outbox.deliver_one event c s) (Outbox.deliver_all event rest)
        (deliver_one-known event c s) (deliver_all-known event rest)

  known-unknown :
      (event : Outbox.Event) (consumers : List (Outbox.Consumer World)) (s : Outbox.State World)
      {s' : Outbox.State World}
      → Outbox.known event consumers s ≡ (err Outbox.unknown_kind, s')
      → s' ≡ s
  known-unknown event [] s h = ap (λ r. r.1) (sym h)
  known-unknown event (c ∷ rest) s h =
      let k : is_unknown (err Outbox.unknown_kind) ≡ false =
        ap (λ r. is_unknown r.0) (sym h) ∙ deliver_all-known event (c ∷ rest) s in
      absurd cc

  finish-known :
      (name holder : Bytes) (after : ℕ) (r : Bool × Jobs.State World)
      → is_unknown_job (Jobs.finish name holder after r).0 ≡ false
  finish-known name holder after (true, s) = refl
  finish-known name holder after (false, s) = refl

  run_job-known :
      (name holder : Bytes) (now after : ℕ) (job : Jobs.Job World) (s : Jobs.State World)
      → is_unknown_job (Jobs.run_job name holder now after job s).0 ≡ false
  run_job-known name holder now after job s =
      let taken = Jobs.take name holder now s.locks in
      elim (Bool-cases taken.0) [
        | inl free ↦ rw free (finish-known name holder after (job (record s { locks = taken.1 })))
        | inr held ↦ rw held refl
      ]

  run_known-unknown :
      (name holder : Bytes) (now after : ℕ) (job : Option (Jobs.Job World)) (s : Jobs.State World)
      {s' : Jobs.State World}
      → Jobs.run_known name holder now after job s ≡ (Jobs.unknown_job, s')
      → s' ≡ s
  run_known-unknown name holder now after none s h = ap (λ r. r.1) (sym h)
  run_known-unknown name holder now after (some job) s h =
      let k : is_unknown_job Jobs.unknown_job ≡ false =
        ap (λ r. is_unknown_job r.0) (sym h) ∙ run_job-known name holder now after job s in
      absurd cc

module _ {World : Type 0} (t : Tasks World) where
  -- A header that carries a token which is valid for the audience and is the invoker's.
  abbrev pub IsInvokers : Bytes → Type 0
  IsInvokers header =
      (c : ℕ) × (token : Bytes) × (email : Bytes) × (header ≡ bearer ++ c ∷ token)
      × (t.validate (c ∷ token) t.audience ≡ some email)
      × (t.equal_fold email t.invoker ≡ true)

  allowed-IsInvokers : (header : Bytes) → allowed t header ≡ true → IsInvokers header
  unfolding allowed
  allowed-IsInvokers header h = go (cut_prefix bearer header) refl h
    where
      validated :
          (c : ℕ) (token : Bytes) (account : Option Bytes)
          → t.validate (c ∷ token) t.audience ≡ account
          → is_invoker t account ≡ true
          → header ≡ bearer ++ c ∷ token
          → IsInvokers header
      validated c token none e h there = absurd cc
      validated c token (some email) e h there = (c, token, email, there, e, h)

      go :
          (rest : Option Bytes)
          → cut_prefix bearer header ≡ rest
          → is_bearer t rest ≡ true
          → IsInvokers header
      go none e h = absurd cc
      go (some []) e h = absurd cc
      go (some (c ∷ token)) e h =
          validated c token (t.validate (c ∷ token) t.audience) refl h
            (cut_prefix_sound bearer header (c ∷ token) e)

  IsInvokers-allowed : (header : Bytes) → IsInvokers header → allowed t header ≡ true
  unfolding allowed
  IsInvokers-allowed header (c, token, email, there, valid, same) =
      rw (there, cut_prefix-append bearer (c ∷ token), valid) same

  -- What became of the event or the job of a body.
  abbrev pub Delivered :
      Outcome Outbox.Failure (Unit {0}) → Bytes → Store World → Store World → Type 0
  Delivered out body s s' =
      (event : Outbox.Event) × (t.decode body ≡ some (record { event = some event; job = [] }))
      × (Outbox.deliver t.registry event s.world ≡ (out, s'.world))
      × (s'.locks ≡ s.locks)

  abbrev pub Started : Jobs.Ran → Bytes → ℕ → ℕ → Store World → Store World → Type 0
  Started ran body now after s s' =
      (call : Call) × (t.decode body ≡ some call)
      × (Jobs.run t.jobs t.holder call.job now after s ≡ (ran, s'))

  -- What a status says of a callback.
  abbrev pub IsAnswered : Bytes → Bytes → ℕ → ℕ → Store World → Status × Store World → Type 0
  IsAnswered header body now after s (unauthorized, s') = (¬ IsInvokers header) × (s' ≡ s)
  IsAnswered header body now after s (bad_request, s') = IsInvokers header × (s' ≡ s)
  IsAnswered header body now after s (no_content, s') =
      IsInvokers header
      × (Delivered (ok tt) body s s'
          ⊎ (Started Jobs.finished body now after s s' ⊎ Started Jobs.busy body now after s s'))
  IsAnswered header body now after s (server_error, s') =
      IsInvokers header
      × (Delivered (err Outbox.could_not_handle) body s s'
          ⊎ Started Jobs.failed body now after s s')

  deliver_event-IsAnswered :
      (header body : Bytes) (now after : ℕ) (s : Store World) (event : Outbox.Event)
      → IsInvokers header
      → t.decode body ≡ some (record { event = some event; job = [] })
      → IsAnswered header body now after s (deliver_event t event s)
  unfolding deliver_event Outbox.deliver
  deliver_event-IsAnswered header body now after s event there read =
      go (Outbox.deliver t.registry event s.world) refl
    where
      go :
          (r : Outcome Outbox.Failure (Unit {0}) × Outbox.State World)
          → Outbox.deliver t.registry event s.world ≡ r
          → IsAnswered header body now after s (status_of_event r.0, record s { world = r.1 })
      go (ok _, w) e = (there, inl (event, read, e, refl))
      go (err Outbox.could_not_handle, w) e = (there, inl (event, read, e, refl))
      go (err Outbox.unknown_kind, w) e = (
        there,
        ap (λ w. record s { world = w }) (known-unknown event (t.registry event.kind) s.world e),
      )

  start_job-IsAnswered :
      (header body : Bytes) (now after : ℕ) (s : Store World) (call : Call)
      → IsInvokers header
      → t.decode body ≡ some call
      → IsAnswered header body now after s (start_job t call.job now after s)
  unfolding start_job Jobs.run
  start_job-IsAnswered header body now after s call there read =
      go (Jobs.run t.jobs t.holder call.job now after s) refl
    where
      go :
          (r : Jobs.Ran × Store World)
          → Jobs.run t.jobs t.holder call.job now after s ≡ r
          → IsAnswered header body now after s (status_of_job r.0, r.1)
      go (Jobs.finished, s') e = (there, inr (inl (call, read, e)))
      go (Jobs.busy, s') e = (there, inr (inr (call, read, e)))
      go (Jobs.failed, s') e = (there, inr (call, read, e))
      go (Jobs.unknown_job, s') e =
          (there, run_known-unknown call.job t.holder now after (t.jobs call.job) s e)

  act_on-IsAnswered :
      (header body : Bytes) (now after : ℕ) (s : Store World) (event : Option Outbox.Event)
      (job : Bytes)
      → IsInvokers header
      → t.decode body ≡ some (record { event = event; job = job })
      → IsAnswered header body now after s (act_on t event job now after s)
  act_on-IsAnswered header body now after s event (c ∷ name) there read =
      start_job-IsAnswered header body now after s (record { event = event; job = c ∷ name }) there
        read
  act_on-IsAnswered header body now after s (some event) [] there read =
      deliver_event-IsAnswered header body now after s event there read
  act_on-IsAnswered header body now after s none [] there read = (there, refl)

  act_on_body-IsAnswered :
      (header body : Bytes) (now after : ℕ) (s : Store World) (call : Option Call)
      → IsInvokers header
      → t.decode body ≡ call
      → IsAnswered header body now after s (act_on_body t call now after s)
  act_on_body-IsAnswered header body now after s none there read = (there, refl)
  act_on_body-IsAnswered header body now after s (some call) there read =
      act_on-IsAnswered header body now after s call.event call.job there read

  -- A callback is answered 401 exactly where its header carries no token that is valid for the audience
  -- and the invoker's. It changes nothing where it is answered 401 or 400. It is answered 204 where the
  -- event of its body was delivered to all its consumers, or the job ran and worked or is already
  -- running, and 500 where a consumer or the job failed; what is left is what the delivery or the run
  -- left.
  pub handle-IsAnswered :
      (header body : Bytes) (now after : ℕ) (s : Store World)
      → IsAnswered header body now after s (handle t header body now after s)
  unfolding handle
  handle-IsAnswered header body now after s = elim (Bool-cases (allowed t header)) [
    | inr stranger ↦ rw stranger (λ own. let odd = IsInvokers-allowed header own in absurd cc, refl)
    | inl invoker ↦ rw invoker (
        act_on_body-IsAnswered header body now after s (t.decode body)
          (allowed-IsInvokers header invoker) refl)
  ]
