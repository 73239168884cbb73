-- ===== src/Webhook/Reported.antt =====
-- internal/platform/httpx/mailwebhook.go with internal/platform/outbox and internal/platform/mail: what
-- becomes of a report from the provider's call to the list of suppressed addresses.
use marketplace.Base.{
  append_assoc, append-nil, ℕ, ◌≡◌, refl, ap, ◌∙◌, sym, true, false, Option, none, some, List, [],
  ◌∷◌, ◌++◌, Bytes, same_bytes, insert, ok,
}
use marketplace.Outbox as Outbox
use marketplace.Outbox.Dispatching.{EventRow, written_row}
use marketplace.Mail.{
  Report, Mailer, Mailbox, Confirmation, answered, refused, unreachable, is_blank, address,
  suppressed, confirmed, apply_report, apply_event, outcome, kind_event, mail_event, register_mail,
  MailError,
}
use marketplace.Mail.Suppressed.{apply_report-suppressed}
use marketplace.Webhook.{
  Webhook, Post, Table, accepted, authentic, event_of, received, received_all, take_post,
}

module _ (w : Webhook) where
  -- A row that waits, with what the provider reported.
  abbrev pub IsWritten : Report → ℕ → Outbox.Event → List EventRow → Type 0
  IsWritten e now event rows =
      (before after : List EventRow) × (rows ≡ before ++ (written_row event now ∷ after))
      × (event.kind ≡ kind_event)
      × (event.payload ≡ w.write e)

  -- What is written stays, in its place.
  received_all-keeps :
      (reports : List Report) (now : ℕ) (t : Table)
      → (more : List EventRow) × ((received_all w reports now t).rows ≡ t.rows ++ more)
  unfolding received_all received insert
  received_all-keeps [] now t = ([], sym (append-nil t.rows))
  received_all-keeps (e ∷ rest) now t =
      let (more, same) = received_all-keeps rest now (received w e now t) in
      (written_row (event_of w e t.next_id) now ∷ more, same ∙ append_assoc t.rows _ more)

  received_all-IsWritten :
      (before : List Report) (e : Report) (after : List Report) (now : ℕ) (t : Table)
      → (event : Outbox.Event) × IsWritten e now event
          (received_all w (before ++ e ∷ after) now t).rows
  unfolding received_all received insert
  received_all-IsWritten [] e after now t =
      let (more, same) = received_all-keeps after now (received w e now t) in
      (event_of w e t.next_id, (t.rows, more, same ∙ append_assoc t.rows _ more, refl, refl))
  received_all-IsWritten (x ∷ before) e after now t =
      received_all-IsWritten before e after now (received w x now t)

module _ {World : Type 0} (m : Mailer World) where
  confirmed-none :
      (e : Report) (answer : Confirmation × World) (s : Mailbox World)
      → m.has_database ≡ true
      → answer.0 ≡ answered true
      → (confirmed m e answer s).0 ≡ none
  confirmed-none e (refused, u) s there real = refl
  confirmed-none e (unreachable, u) s there real = absurd cc
  confirmed-none e (answered false, u) s there real = refl
  confirmed-none e (answered true, u) s there real = rw there refl

  apply_report-none :
      (e : Report) (s : Mailbox World)
      → m.has_database ≡ true
      → is_blank (address m e.address) ≡ false
      → (m.confirm e s.world).0 ≡ answered true
      → (apply_report m e s).0 ≡ none
  unfolding apply_report
  apply_report-none e s there filled real =
      rw filled (confirmed-none e (m.confirm e s.world) s there real)

  outcome-none : (r : Option MailError × Mailbox World) → r.0 ≡ none → outcome m r ≡ (ok tt, r.1)
  outcome-none (none, s) h = refl
  outcome-none (some e, s) h = absurd cc

  -- The event of a report that is read back is handled as the report.
  apply_event-read :
      (e : Report) (event : Outbox.Event) (s : Mailbox World)
      → m.read_report event.payload ≡ some e
      → (apply_report m e s).0 ≡ none
      → apply_event m event s ≡ (ok tt, (apply_report m e s).1)
  apply_event-read e event s read fine =
      rw (apply_event, read) (outcome-none (apply_report m e s) fine)

  -- The consumers of the mailer.
  abbrev pub mail_registry : Outbox.Registry (Mailbox World)
  mail_registry = register_mail (λ kind. []) m

  deliver-mail_event :
      (e : Report) (event : Outbox.Event) (s : Outbox.State (Mailbox World))
      → event.kind ≡ kind_event
      → Outbox.is_claimed event.id mail_event s.deliveries ≡ false
      → apply_event m event s.world ≡ (ok tt, (apply_report m e s.world).1)
      → ((Outbox.deliver mail_registry event s).0 ≡ ok tt)
        × ((Outbox.deliver mail_registry event s).1.world ≡ (apply_report m e s.world).1)
  unfolding Outbox.deliver Outbox.deliver_all Outbox.deliver_one Outbox.claim register_mail
      Outbox.on same_bytes
  deliver-mail_event e event s kind fresh handled = rw kind (rw fresh (rw handled (refl, refl)))

  -- A report that a provider posts with the token of the webhook is written into the outbox: the post
  -- is accepted, and a row waits whose event, delivered to the mailer's consumers for the first time,
  -- is handled without an error and suppresses the reported address, where the database takes the
  -- transaction and the process has one, the provider confirms the report, the mailer reads the JSON
  -- that was written, and the reported address is not blank.
  pub take_post-suppressed :
      (w : Webhook) (p : Post) (body : Bytes) (before : List Report) (e : Report)
      (after : List Report) (now : ℕ) (t : Table)
      → same_bytes p.provider w.name ≡ true
      → authentic w p ≡ true
      → p.body ≡ some body
      → w.events body ≡ some (before ++ e ∷ after)
      → w.commits (before ++ e ∷ after) t ≡ true
      → m.read_report (w.write e) ≡ some e
      → m.has_database ≡ true
      → is_blank (address m e.address) ≡ false
      → ((take_post w p now t).0 ≡ accepted)
        × ((event : Outbox.Event) × IsWritten w e now event (take_post w p now t).1.rows
            × ((s : Outbox.State (Mailbox World))
                → Outbox.is_claimed event.id mail_event s.deliveries ≡ false
                → (m.confirm e s.world.world).0 ≡ answered true
                → ((Outbox.deliver mail_registry event s).0 ≡ ok tt)
                  × (suppressed m e.address
                        (Outbox.deliver mail_registry event s).1.world.suppressions
                      ≡ true)))
  unfolding take_post
  take_post-suppressed w p body before e after now t ours real_token there read taken back has
        filled =
      let (event, (b, a, rows, kind, payload)) = received_all-IsWritten w before e after now t in
      rw (ours, real_token, there, read, taken)
        (
          refl,
          (
            event,
            (b, a, rows, kind, payload),
            λ s fresh real.
                let fine = apply_report-none e s.world has filled real in
                let handled =
                  apply_event-read e event s.world (ap m.read_report payload ∙ back) fine in
                let (good, left) = deliver-mail_event e event s kind fresh handled in
                (
                  good,
                  ap (λ box. suppressed m e.address box.suppressions) left
                      ∙ apply_report-suppressed m e e.address s.world has filled real refl,
                ),
          ),
        )
