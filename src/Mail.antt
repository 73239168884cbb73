-- ===== src/Mail.antt =====
-- internal/platform/mail: mail.go, store.go and mailer.go. A message is rendered and handed to the
-- provider unless its address is suppressed, what became of it is written down, and what a provider
-- reports suppresses an address. The provider, strings.ToLower and the text of an error are
-- parameters; the provider's world is its own. `records` says whether the database takes a line of the
-- sending log; its other statements succeed, and row-level security, which hides nothing of the list
-- of suppressed addresses, is left out.
pub mod Sending
pub mod Suppressed
use marketplace.Base.{
  Bool, true, false, not, Option, none, some, List, [], ◌∷◌, ◌++◌, if◌then◌else◌, Bytes, same_bytes,
  is_set, find, insert, ◌&&◌, Outcome, ok, err,
}
use marketplace.Credentials.{trim_space}
use marketplace.Templates.{Message, Rendered, Templates, RenderError, render}
use marketplace.Outbox.{Event, Failure, could_not_handle, Consumer, Registry, on}

-- Kind
pub data ReportKind : Type 0 where
  bounce complaint : ReportKind

-- Event: what a provider reports of a message.
pub record Report : Type 0 where
  pub provider : Bytes
  pub id : Bytes
  pub message : Bytes
  pub address : Bytes
  pub kind : ReportKind
  pub reported : Bytes
  pub reason : Bytes

abbrev pub is_blank : Bytes → Bool
is_blank [] = true
is_blank (_ ∷ _) = false

-- (Event).Describe
unfoldable pub describe : Report → Bytes
describe e =
    if is_blank e.reason
    then e.reported
    else if is_blank e.reported
    then e.reason
    else e.reported ++ b':' ∷ b' ' ∷ e.reason

-- State
pub data SendState : Type 0 where
  sent skipped failed : SendState

-- A line of the sending log (Sending, email_send).
pub record Line : Type 0 where
  pub marketplace : Bytes
  pub address : Bytes
  pub template : Bytes
  pub language : Bytes
  pub state : SendState
  pub provider_message : Bytes
  pub detail : Bytes

-- A row of email_suppression.
pub record Suppression : Type 0 where
  pub address : Bytes
  pub reason : ReportKind
  pub provider : Bytes
  pub provider_event : Bytes
  pub detail : Bytes

-- What Confirm answers: ErrRefused, another error, or whether the report is real.
pub data Confirmation : Type 0 where
  refused unreachable : Confirmation
  answered : Bool → Confirmation

-- What Send and Apply return as an error.
pub data MailError : Type 0 where
  no_address no_database cannot_confirm not_recorded : MailError
  not_rendered : RenderError → MailError
  not_accepted : Bytes → MailError

-- What the mailer is made of and calls (Mailer, Sender, Templates), and the JSON of the two events.
pub record Mailer (World : Type 0) : Type 0 where
  pub has_database : Bool
  pub to_lower : Bytes → Bytes
  pub templates : Templates
  pub fallback : Bytes
  pub error_text : RenderError → Bytes
  pub send : Rendered → World → Outcome Bytes Bytes × World
  pub confirm : Report → World → Confirmation × World
  pub records : Line → World → Bool
  pub read_message : Bytes → Option Message
  pub read_report : Bytes → Option Report

pub record Mailbox (World : Type 0) : Type 0 where
  pub suppressions : List Suppression
  pub lines : List Line
  pub world : World

-- "the address is suppressed"
abbrev pub suppressed_detail : Bytes
suppressed_detail = b's' ∷ b'u' ∷ b'p' ∷ b'p' ∷ b'r' ∷ b'e' ∷ b's' ∷ b's' ∷ b'e' ∷ b'd' ∷ []

abbrev pub is_suppression : Bytes → Suppression → Bool
is_suppression address row = same_bytes row.address address

module _ {World : Type 0} (m : Mailer World) where
  -- Address
  unfoldable pub address : Bytes → Bytes
  address text = m.to_lower (trim_space text)

  -- Suppressed
  unfoldable pub suppressed : Bytes → List Suppression → Bool
  suppressed to rows = is_set (find (is_suppression (address to)) rows)

  -- Suppress: INSERT … ON CONFLICT (address) DO NOTHING, so the first reason stays.
  unfoldable pub suppress : Report → List Suppression → List Suppression
  suppress e rows =
      if is_set (find (is_suppression (address e.address)) rows)
      then rows
      else insert
          (record {
            address = address e.address;
            reason = e.kind;
            provider = e.provider;
            provider_event = e.id;
            detail = describe e;
          })
          rows

  -- The line that Record writes.
  abbrev pub line_of : Message → SendState → Bytes → Bytes → Line
  line_of message state provider_message detail = record {
    marketplace = message.marketplace;
    address = address message.to;
    template = message.template;
    language = message.language;
    state = state;
    provider_message = provider_message;
    detail = detail;
  }

  -- (*Mailer).record
  unfoldable pub record_line : Line → Mailbox World → Option MailError × Mailbox World
  record_line line s =
      if not m.has_database
      then (none, s)
      else if m.records line s.world
      then (none, record s { lines = insert line s.lines })
      else (some not_recorded, s)

  abbrev pub with_state :
      SendState → Option MailError × Mailbox World → SendState × Option MailError × Mailbox World
  with_state state r = (state, r.0, r.1)

  -- What a message that failed answers with: the error of its line before its own.
  abbrev pub failed_with :
      MailError → Option MailError × Mailbox World → SendState × Option MailError × Mailbox World
  failed_with e (none, s) = (failed, some e, s)
  failed_with e (some unrecorded, s) = (failed, some unrecorded, s)

  -- What Send does with the provider's answer.
  abbrev pub handed :
      Message
      → Outcome Bytes Bytes × World
      → Mailbox World
      → SendState × Option MailError × Mailbox World
  handed message (ok id, w) s =
      with_state sent (record_line (line_of message sent id []) (record s { world = w }))
  handed message (err e, w) s =
      failed_with (not_accepted e)
        (record_line (line_of message failed [] e) (record s { world = w }))

  abbrev pub rendered :
      Message
      → Outcome RenderError Rendered
      → Mailbox World
      → SendState × Option MailError × Mailbox World
  rendered message (ok r) s = handed r.message (m.send r s.world) s
  rendered message (err e) s =
      failed_with (not_rendered e) (record_line (line_of message failed [] (m.error_text e)) s)

  -- What Send does once the address is in its stored form.
  abbrev pub send_to : Message → Mailbox World → SendState × Option MailError × Mailbox World
  send_to message s =
      if is_blank message.to
      then (failed, some no_address, s)
      else if m.has_database && suppressed message.to s.suppressions
      then with_state skipped (record_line (line_of message skipped [] suppressed_detail) s)
      else rendered message (render m.templates m.fallback message) s

  -- (*Mailer).Send
  unfoldable pub send_message :
      Message → Mailbox World → SendState × Option MailError × Mailbox World
  send_message message s = send_to (record message { to = address message.to }) s

  -- What Apply does with the answer of Confirm.
  abbrev pub confirmed :
      Report → Confirmation × World → Mailbox World → Option MailError × Mailbox World
  confirmed e (refused, w) s = (none, record s { world = w })
  confirmed e (unreachable, w) s = (some cannot_confirm, record s { world = w })
  confirmed e (answered real, w) s =
      if not real
      then (none, record s { world = w })
      else if m.has_database
      then (none, record s { suppressions = suppress e s.suppressions; world = w })
      else (some no_database, record s { world = w })

  -- (*Mailer).Apply
  unfoldable pub apply_report : Report → Mailbox World → Option MailError × Mailbox World
  apply_report e s =
      if is_blank (address e.address)
      then (some no_address, s)
      else confirmed e (m.confirm e s.world) s

  abbrev pub outcome : Option MailError × Mailbox World → Outcome Failure (Unit {0}) × Mailbox World
  outcome (none, s) = (ok tt, s)
  outcome (some e, s) = (err could_not_handle, s)

  -- The two consumers of Register; a payload that cannot be read is an error.
  abbrev pub send_event : Event → Mailbox World → Outcome Failure (Unit {0}) × Mailbox World
  send_event event s = elim (m.read_message event.payload) [
    | none ↦ (err could_not_handle, s)
    | some message ↦ let (state, e, s') = send_message message s in outcome (e, s')
  ]

  abbrev pub apply_event : Event → Mailbox World → Outcome Failure (Unit {0}) × Mailbox World
  apply_event event s = elim (m.read_report event.payload) [
    | none ↦ (err could_not_handle, s)
    | some e ↦ outcome (apply_report e s)
  ]

-- The texts "email.send", "email.event", "mail.send" and "mail.event"
abbrev pub kind_send : Bytes
kind_send = b'e' ∷ b'm' ∷ b'a' ∷ b'i' ∷ b'l' ∷ b'.' ∷ b's' ∷ b'e' ∷ b'n' ∷ b'd' ∷ []

abbrev pub kind_event : Bytes
kind_event = b'e' ∷ b'm' ∷ b'a' ∷ b'i' ∷ b'l' ∷ b'.' ∷ b'e' ∷ b'v' ∷ b'e' ∷ b'n' ∷ b't' ∷ []

abbrev mail_send : Bytes
mail_send = b'm' ∷ b'a' ∷ b'i' ∷ b'l' ∷ b'.' ∷ b's' ∷ b'e' ∷ b'n' ∷ b'd' ∷ []

abbrev pub mail_event : Bytes
mail_event = b'm' ∷ b'a' ∷ b'i' ∷ b'l' ∷ b'.' ∷ b'e' ∷ b'v' ∷ b'e' ∷ b'n' ∷ b't' ∷ []

-- Register
unfoldable pub register_mail :
    {World : Type 0} → Registry (Mailbox World) → Mailer World → Registry (Mailbox World)
register_mail {World} registry m =
    on (Mailbox World)
      (on (Mailbox World) registry kind_send (record { name = mail_send; handle = send_event m }))
      kind_event (record { name = mail_event; handle = apply_event m })
