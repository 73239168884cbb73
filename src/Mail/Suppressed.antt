-- ===== src/Mail/Suppressed.antt =====
-- internal/platform/mail/mailer.go and store.go: an address that was suppressed is written to no more.
use marketplace.Base.{
  ◌≡◌, refl, ap, ◌∙◌, true, false, ◌&&◌, Option, none, some, if◌then◌else◌, List, [], ◌∷◌, Bytes,
  same_bytes_refl, is_set, is_set-insert, find, insert, Outcome, ok, err, Bool-cases, inl, inr,
}
use marketplace.Templates.{Message, Rendered, RenderError, render}
use marketplace.Mail.Sending.{record_line-there}
use marketplace.Mail.{
  Mailer, Mailbox, Suppression, Report, Confirmation, answered, refused, unreachable, skipped,
  is_blank, is_suppression, address, suppressed, suppress, suppressed_detail, Line, line_of,
  MailError, not_recorded, failed_with, record_line, rendered, handed, send_to, send_message,
  confirmed, apply_report,
}

module _ {World : Type 0} (m : Mailer World) where
  -- What is done with a mailbox.
  pub data Act : Type 0 where
    send : Message → Act
    apply : Report → Act

  abbrev act : Act → Mailbox World → Mailbox World
  act (send message) s = (send_message m message s).2
  act (apply e) s = (apply_report m e s).1

  unfoldable pub acts : List Act → Mailbox World → Mailbox World
  acts [] s = s
  acts (a ∷ rest) s = acts rest (act a s)

  -- The stored form of an address is its own stored form.
  abbrev pub IsStored : Bytes → Type 0
  IsStored text = address m (address m text) ≡ address m text

  suppressed-suppress :
      (e : Report) (to : Bytes) (rows : List Suppression)
      → address m to ≡ address m e.address
      → suppressed m to (suppress m e rows) ≡ true
  unfolding suppressed suppress
  suppressed-suppress e to rows same =
      rw same (elim (Bool-cases (is_set (find (is_suppression (address m e.address)) rows))) [
        | inl hit ↦ rw hit hit
        | inr miss ↦
            rw miss (
              is_set-insert (is_suppression (address m e.address)) _ rows (inr (same_bytes_refl _)))
      ])

  suppress-keeps :
      (e : Report) (to : Bytes) (rows : List Suppression)
      → suppressed m to rows ≡ true
      → suppressed m to (suppress m e rows) ≡ true
  unfolding suppressed suppress
  suppress-keeps e to rows h =
      elim (Bool-cases (is_set (find (is_suppression (address m e.address)) rows))) [
        | inl hit ↦ rw hit h
        | inr miss ↦ rw miss (is_set-insert (is_suppression (address m to)) _ rows (inl h))
      ]

  record_line-suppressions :
      (line : Line) (s : Mailbox World) → (record_line m line s).1.suppressions ≡ s.suppressions
  unfolding record_line
  record_line-suppressions line s = elim (Bool-cases m.has_database) [
    | inr none_there ↦ simp none_there refl
    | inl there ↦ elim (Bool-cases (m.records line s.world)) [
      | inl taken ↦ simp (there, taken) refl
      | inr lost ↦ simp (there, lost) refl
    ]
  ]

  failed_with-suppressions :
      (e : MailError) (r : Option MailError × Mailbox World)
      → (failed_with m e r).2.suppressions ≡ r.1.suppressions
  failed_with-suppressions e (none, s) = refl
  failed_with-suppressions e (some unrecorded, s) = refl

  handed-suppressions :
      (message : Message) (answer : Outcome Bytes Bytes × World) (s : Mailbox World)
      → (handed m message answer s).2.suppressions ≡ s.suppressions
  handed-suppressions message (ok id, w) s = record_line-suppressions _ _
  handed-suppressions message (err e, w) s =
      failed_with-suppressions _ _ ∙ record_line-suppressions _ _

  rendered-suppressions :
      (message : Message) (r : Outcome RenderError Rendered) (s : Mailbox World)
      → (rendered m message r s).2.suppressions ≡ s.suppressions
  rendered-suppressions message (ok r) s = handed-suppressions r.message (m.send r s.world) s
  rendered-suppressions message (err e) s =
      failed_with-suppressions _ _ ∙ record_line-suppressions _ _

  send_to-suppressions :
      (message : Message) (s : Mailbox World)
      → (send_to m message s).2.suppressions ≡ s.suppressions
  send_to-suppressions message s = elim (Bool-cases (is_blank message.to)) [
    | inl blank ↦ rw blank refl
    | inr filled ↦
        rw filled (elim (Bool-cases (m.has_database && suppressed m message.to s.suppressions)) [
          | inl hit ↦
              rw hit (record_line-suppressions (line_of m message skipped [] suppressed_detail) s)
          | inr miss ↦
              rw miss (rendered-suppressions message (render m.templates m.fallback message) s)
        ])
  ]

  module _ (to : Bytes) where
    confirmed-keeps :
        (e : Report) (answer : Confirmation × World) (s : Mailbox World)
        → suppressed m to s.suppressions ≡ true
        → suppressed m to (confirmed m e answer s).1.suppressions ≡ true
    confirmed-keeps e (refused, w) s h = h
    confirmed-keeps e (unreachable, w) s h = h
    confirmed-keeps e (answered false, w) s h = h
    confirmed-keeps e (answered true, w) s h = elim (Bool-cases m.has_database) [
      | inl there ↦ simp there (suppress-keeps e to s.suppressions h)
      | inr none_there ↦ simp none_there h
    ]

    apply_report-keeps :
        (e : Report) (s : Mailbox World)
        → suppressed m to s.suppressions ≡ true
        → suppressed m to (apply_report m e s).1.suppressions ≡ true
    unfolding apply_report
    apply_report-keeps e s h = elim (Bool-cases (is_blank (address m e.address))) [
      | inl blank ↦ rw blank h
      | inr filled ↦ rw filled (confirmed-keeps e (m.confirm e s.world) s h)
    ]

    act-keeps :
        (a : Act) (s : Mailbox World)
        → suppressed m to s.suppressions ≡ true
        → suppressed m to (act a s).suppressions ≡ true
    unfolding send_message
    act-keeps (send message) s h =
        rw (send_to-suppressions (record message { to = address m message.to }) s) h
    act-keeps (apply e) s h = apply_report-keeps e s h

    acts-keeps :
        (done : List Act) (s : Mailbox World)
        → suppressed m to s.suppressions ≡ true
        → suppressed m to (acts done s).suppressions ≡ true
    unfolding acts
    acts-keeps [] s h = h
    acts-keeps (a ∷ rest) s h = acts-keeps rest (act a s) (act-keeps a s h)

  confirmed-suppressed :
      (e : Report) (to : Bytes) (answer : Confirmation × World) (s : Mailbox World)
      → m.has_database ≡ true
      → answer.0 ≡ answered true
      → address m to ≡ address m e.address
      → suppressed m to (confirmed m e answer s).1.suppressions ≡ true
  confirmed-suppressed e to (refused, w) s there real same = absurd cc
  confirmed-suppressed e to (unreachable, w) s there real same = absurd cc
  confirmed-suppressed e to (answered false, w) s there real same = absurd cc
  confirmed-suppressed e to (answered true, w) s there real same =
      simp there (suppressed-suppress e to s.suppressions same)

  pub apply_report-suppressed :
      (e : Report) (to : Bytes) (s : Mailbox World)
      → m.has_database ≡ true
      → is_blank (address m e.address) ≡ false
      → (m.confirm e s.world).0 ≡ answered true
      → address m to ≡ address m e.address
      → suppressed m to (apply_report m e s).1.suppressions ≡ true
  unfolding apply_report
  apply_report-suppressed e to s there filled real same =
      rw filled (confirmed-suppressed e to (m.confirm e s.world) s there real same)

  send_to-skipped :
      (message : Message) (s : Mailbox World)
      → m.has_database ≡ true
      → is_blank message.to ≡ false
      → suppressed m message.to s.suppressions ≡ true
      → let line = line_of m message skipped [] suppressed_detail in
        send_to m message s ≡ (
          if m.records line s.world
          then (skipped, none, record s { lines = insert line s.lines })
          else (skipped, some not_recorded, s))
  send_to-skipped message s there filled hit = rw filled (
      rw (ap (λ b. b && suppressed m message.to s.suppressions) there ∙ hit) (
        let line = line_of m message skipped [] suppressed_detail in
        rw (record_line-there m line s there) (elim (Bool-cases (m.records line s.world)) [
          | inl taken ↦ rw taken refl
          | inr refused_line ↦ rw refused_line refl
        ])))

  -- Once a provider confirms a report of an address, in a process with a database, a message to any
  -- spelling of the address is skipped, whatever was sent and reported in between: the provider is not
  -- called and the suppressed addresses stay. Where the database takes the line that says so, the log
  -- gains it and there is no error; where it does not, that is the error and nothing is changed.
  pub send_message-suppressed :
      (e : Report) (message : Message) (done : List Act) (s : Mailbox World)
      → IsStored message.to
      → m.has_database ≡ true
      → is_blank (address m e.address) ≡ false
      → (m.confirm e s.world).0 ≡ answered true
      → address m message.to ≡ address m e.address
      → let s' : Mailbox World = acts done (apply_report m e s).1 in
        let stored : Message = record message { to = address m message.to } in
        let line : Line = line_of m stored skipped [] suppressed_detail in
        send_message m message s' ≡ (
          if m.records line s'.world
          then (skipped, none, record s' { lines = insert line s'.lines })
          else (skipped, some not_recorded, s'))
  unfolding send_message
  send_message-suppressed e message done s stored there filled real same =
      let to : Bytes = address m message.to in
      let s₀ : Mailbox World = (apply_report m e s).1 in
      let e₀ : address m to ≡ address m e.address = stored ∙ same in
      send_to-skipped (record message { to = to }) (acts done s₀) there (rw same filled)
        (acts-keeps to done s₀ (apply_report-suppressed e to s there filled real e₀))
