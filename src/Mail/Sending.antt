-- ===== src/Mail/Sending.antt =====
-- internal/platform/mail/mailer.go: what becomes of a message, and what is written down about it.
use marketplace.Base.{
  ◌≡◌, refl, sym, ap, ◌⊎◌, Bool, true, false, ◌&&◌, Option, none, some, [], Bytes, is_set, insert,
  Outcome, ok, err, Bool-cases, inl, inr, if◌then◌else◌,
}
use marketplace.Templates.{
  Message, Rendered, RenderError, Template, Templates, render, shared_variables, render_parts,
  render_text, render_html, split, with_variables, rendered_language,
}
use marketplace.Mail.{
  Mailer, Mailbox, SendState, sent, skipped, failed, Line, MailError, is_blank, address, suppressed,
  suppressed_detail, line_of, not_recorded, not_accepted, not_rendered, record_line, with_state,
  failed_with, rendered, handed, send_to, send_message,
}

abbrev pub is_failed : SendState → Bool
is_failed sent = false
is_failed skipped = false
is_failed failed = true

-- The message a rendering keeps, but for its language.
abbrev pub in_language : Message → Bytes → Message
in_language message language = record message { language = language }

render_html-message :
    (message : Message) (language : Bytes) (parts : Outcome RenderError (Bytes × Bytes))
    (html : Option Bytes) {r : Rendered}
    → render_html message language parts html ≡ ok r
    → r.message ≡ in_language message language
render_html-message message language (err e) html h = absurd cc
render_html-message message language (ok (subject, text)) none h = absurd cc
render_html-message message language (ok (subject, text)) (some markup) h = cc

render_text-message :
    (message : Message) (language : Bytes) (text html : Option Bytes) {r : Rendered}
    → render_text message language text html ≡ ok r
    → r.message ≡ in_language message language
render_text-message message language none html h = absurd cc
render_text-message message language (some body) html h =
    render_html-message message language (split body) html h

render_parts-message :
    (message : Message) (language : Bytes) (text html : Option Template) {r : Rendered}
    → render_parts message language text html ≡ ok r
    → r.message ≡ in_language message language
render_parts-message message language none html e = absurd cc
render_parts-message message language (some text) none e = absurd cc
render_parts-message message language (some text) (some html) e =
    let variables = with_variables message.variables (shared_variables message language) in
    render_text-message message language (text variables) (html variables) e

-- What is rendered is the message that was asked for, in one language or the other.
pub render-message :
    (t : Templates) (fallback : Bytes) (message : Message) {r : Rendered}
    → render t fallback message ≡ ok r
    → r.message ≡ in_language message (rendered_language t message fallback)
unfolding render
render-message t fallback message e =
    let language = rendered_language t message fallback in
    render_parts-message message language (t.text message.template language)
      (t.html message.template language) e

module _ {World : Type 0} (m : Mailer World) where
  -- A message's line: whose it is and what became of it.
  abbrev pub IsLineOf : Message → SendState → Line → Type 0
  IsLineOf message state line =
      (line.address ≡ address m message.to)
      × (line.template ≡ message.template)
      × (line.marketplace ≡ message.marketplace)
      × (line.state ≡ state)

  -- One line is to be written of a message, with the state that is answered. Where the database takes
  -- the line it is written, and an error is answered exactly where the message failed; where it does
  -- not, nothing is written and that is the error.
  abbrev pub IsNoted :
      Message → Mailbox World → SendState × Option MailError × Mailbox World → Type 0
  IsNoted message s (state, e, s') =
      ((line : Line) × IsLineOf message state line
        × (((m.records line s'.world ≡ true)
              × (s'.lines ≡ insert line s.lines)
              × (is_set e ≡ is_failed state))
            ⊎ ((m.records line s'.world ≡ false) × (s'.lines ≡ s.lines) × (e ≡ some not_recorded))))
      × (s'.suppressions ≡ s.suppressions)

  pub record_line-there :
      (line : Line) (s : Mailbox World)
      → m.has_database ≡ true
      → record_line m line s ≡ (
          if m.records line s.world
          then (none, record s { lines = insert line s.lines })
          else (some not_recorded, s))
  unfolding record_line
  record_line-there line s there = rw there refl

  -- A line that record is given, of a message that did not fail, and of one that did.
  record_line-IsNoted :
      (asked : Message) (state : SendState) (line : Line) (s : Mailbox World)
      → m.has_database ≡ true
      → is_failed state ≡ false
      → IsLineOf asked state line
      → IsNoted asked s (with_state m state (record_line m line s))
  record_line-IsNoted asked state line s there fine own =
      elim (Bool-cases (m.records line s.world)) [
        | inl taken ↦
            rw (record_line-there line s there, taken)
              ((line, own, inl (taken, refl, sym fine)), refl)
        | inr refused ↦
            rw (record_line-there line s there, refused)
              ((line, own, inr (refused, refl, refl)), refl)
      ]

  failed_with-IsNoted :
      (asked : Message) (e : MailError) (line : Line) (s : Mailbox World)
      → m.has_database ≡ true
      → IsLineOf asked failed line
      → IsNoted asked s (failed_with m e (record_line m line s))
  failed_with-IsNoted asked e line s there own = elim (Bool-cases (m.records line s.world)) [
    | inl taken ↦
        rw (record_line-there line s there, taken) ((line, own, inl (taken, refl, refl)), refl)
    | inr refused ↦
        rw (record_line-there line s there, refused) ((line, own, inr (refused, refl, refl)), refl)
  ]

  handed-IsNoted :
      (message asked : Message) (answer : Outcome Bytes Bytes × World) (s : Mailbox World)
      → m.has_database ≡ true
      → message.to ≡ asked.to
      → message.template ≡ asked.template
      → message.marketplace ≡ asked.marketplace
      → IsNoted asked s (handed m message answer s)
  handed-IsNoted message asked (ok id, w) s there to template marketplace =
      record_line-IsNoted asked sent (line_of m message sent id []) (record s { world = w }) there
        refl (ap (address m) to, template, marketplace, refl)
  handed-IsNoted message asked (err e, w) s there to template marketplace =
      failed_with-IsNoted asked (not_accepted e) (line_of m message failed [] e)
        (record s { world = w }) there (ap (address m) to, template, marketplace, refl)

  rendered-IsNoted :
      (asked : Message) (r : Outcome RenderError Rendered) (language : Bytes) (s : Mailbox World)
      → m.has_database ≡ true
      → ((x : Rendered) → r ≡ ok x → x.message ≡ in_language asked language)
      → IsNoted asked s (rendered m asked r s)
  rendered-IsNoted asked (ok r) language s there same =
      let e : r.message ≡ in_language asked language = same r refl in
      handed-IsNoted r.message asked (m.send r s.world) s there (ap (λ x. x.to) e)
        (ap (λ x. x.template) e) (ap (λ x. x.marketplace) e)
  rendered-IsNoted asked (err e) language s there same =
      failed_with-IsNoted asked (not_rendered e) (line_of m asked failed [] (m.error_text e)) s
        there (refl, refl, refl, refl)

  send_to-IsNoted :
      (asked : Message) (s : Mailbox World)
      → m.has_database ≡ true
      → is_blank asked.to ≡ false
      → IsNoted asked s (send_to m asked s)
  unfolding address
  send_to-IsNoted asked s there filled =
      rw filled (elim (Bool-cases (m.has_database && suppressed m asked.to s.suppressions)) [
        | inl hit ↦ rw hit (
            record_line-IsNoted asked skipped (line_of m asked skipped [] suppressed_detail) s there
              refl (refl, refl, refl, refl))
        | inr miss ↦ rw miss (
            rendered-IsNoted asked (render m.templates m.fallback asked)
              (rendered_language m.templates asked m.fallback) s there
              (λ x. render-message m.templates m.fallback asked))
      ])

  -- With a database, a message to an address that is not blank has exactly one line to be written at
  -- the end of the sending log, of its address, template and marketplace and with the state that is
  -- answered, whether it was sent, skipped, not rendered or not accepted. Where the database takes the
  -- line it is there, and an error is answered exactly where the state is failed; where it does not,
  -- the log is as it was and that error is answered, whatever the state. No address is suppressed or
  -- released.
  pub send_message-IsNoted :
      (message : Message) (s : Mailbox World)
      → m.has_database ≡ true
      → is_blank (address m message.to) ≡ false
      → IsNoted (record message { to = address m message.to }) s (send_message m message s)
  unfolding send_message
  send_message-IsNoted message s there filled =
      send_to-IsNoted (record message { to = address m message.to }) s there filled
