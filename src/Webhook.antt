-- ===== src/Webhook.antt =====
-- internal/platform/httpx/mailwebhook.go, and Received of internal/platform/mail/mailer.go with Write of
-- internal/platform/outbox/outbox.go: a provider posts what became of messages, and each report is
-- written into the outbox. The provider's reader and the JSON of a report are parameters; `commits` says
-- whether the database takes the transaction, and `id_text` is the identifier that the table draws.
pub mod Reported
use marketplace.Base.{
  ℕ, ◌+◌, ◌&&◌, Bool, true, false, not, Option, none, some, List, [], ◌∷◌, if◌then◌else◌, Bytes,
  same_bytes, insert,
}
use marketplace.Mail.{Report, is_blank, kind_event}
use marketplace.Outbox.{Event}
use marketplace.Outbox.Dispatching.{EventRow, written_row}

-- The table outbox_event.
pub record Table : Type 0 where
  pub next_id : ℕ
  pub rows : List EventRow

-- MailWebhook
pub record Webhook : Type 0 where
  pub name : Bytes
  pub token : Bytes
  pub events : Bytes → Option (List Report)
  pub write : Report → Bytes
  pub id_text : ℕ → Bytes
  pub commits : List Report → Table → Bool

-- A call: the last segment of its path, its header and its query's token, and its body, `none` where
-- that cannot be read or is too long.
pub record Post : Type 0 where
  pub provider : Bytes
  pub header : Bytes
  pub query : Bytes
  pub body : Option Bytes

-- 404, 401, 400, 500 and 202
pub data Answer : Type 0 where
  not_found unauthorized bad_request server_error accepted : Answer

module _ (w : Webhook) where
  -- authentic
  unfoldable pub authentic : Post → Bool
  authentic p =
      if is_blank w.token
      then false
      else same_bytes (if is_blank p.header then p.query else p.header) w.token

  abbrev pub event_of : Report → ℕ → Event
  event_of e id = record { id = w.id_text id; kind = kind_event; payload = w.write e }

  -- Received
  unfoldable pub received : Report → ℕ → Table → Table
  received e now t = record {
    next_id = t.next_id + 1;
    rows = insert (written_row (event_of e t.next_id) now) t.rows;
  }

  -- The loop of the transaction.
  unfoldable pub received_all : List Report → ℕ → Table → Table
  received_all [] now t = t
  received_all (e ∷ rest) now t = received_all rest now (received e now t)

  abbrev is_empty : List Report → Bool
  is_empty [] = true
  is_empty (e ∷ rest) = false

  abbrev pub take_events : Option (List Report) → ℕ → Table → Answer × Table
  take_events none now t = (bad_request, t)
  take_events (some reports) now t =
      if not (w.commits reports t) && not (is_empty reports)
      then (server_error, t)
      else (accepted, received_all reports now t)

  abbrev pub take_body : Option Bytes → ℕ → Table → Answer × Table
  take_body none now t = (bad_request, t)
  take_body (some body) now t = take_events (w.events body) now t

  -- Handle
  unfoldable pub take_post : Post → ℕ → Table → Answer × Table
  take_post p now t =
      if not (same_bytes p.provider w.name)
      then (not_found, t)
      else if not (authentic p)
      then (unauthorized, t)
      else take_body p.body now t
