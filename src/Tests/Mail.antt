-- ===== src/Tests/Mail.antt =====
-- The theorems on the mail at concrete inputs.
use marketplace.Base.{
  ℕ, ◌+◌, ◌≡◌, refl, true, false, some, none, [], ◌∷◌, ◌++◌, Bytes, map, ok, leb, ◌&&◌,
  if◌then◌else◌, insert,
}
use marketplace.Credentials.{trim_space, trim_right, trim_left}
use marketplace.Templates.{Message, subject_prefix, newline}
use marketplace.Mail.{
  Mailer, Mailbox, Report, bounce, address, answered, is_blank, send_message, apply_report, skipped,
  Line, not_recorded, line_of, suppressed_detail,
}
use marketplace.Mail.Sending.{IsNoted, send_message-IsNoted}
use marketplace.Mail.Suppressed.{send, apply, acts, IsStored, send_message-suppressed}

abbrev to_lower : Bytes → Bytes
to_lower text = map (λ c. if leb b'A' c && leb c b'Z' then c + 32 else c) text

-- A provider that counts what it is asked, accepts every message and confirms every report.
abbrev pub a_mailer : Mailer ℕ
a_mailer = record {
  has_database = true;
  to_lower = to_lower;
  templates = record {
    text = λ name language. some (λ variables. some (subject_prefix ++ b'h' ∷ newline ∷ b'i' ∷ []));
    html = λ name language. some (λ variables. some (b'i' ∷ []));
  };
  fallback = b'e' ∷ b'n' ∷ [];
  error_text = λ e. [];
  send = λ r n. (ok (b'm' ∷ []), n + 1);
  confirm = λ e n. (answered true, n + 1);
  records = λ line n. true;
  read_message = λ payload. none;
  read_report = λ payload. none;
}

abbrev a_message : Message
a_message = record {
  template = b't' ∷ [];
  language = b'p' ∷ b't' ∷ [];
  to = b' ' ∷ b'A' ∷ b'@' ∷ b'b' ∷ [];
  from = [];
  marketplace = [];
  variables = [];
}

abbrev pub a_report : Report
a_report = record {
  provider = b'p' ∷ [];
  id = b'1' ∷ [];
  message = b'm' ∷ [];
  address = b'a' ∷ b'@' ∷ b'B' ∷ b' ' ∷ [];
  kind = bounce;
  reported = [];
  reason = [];
}

abbrev nothing_sent : Mailbox ℕ
nothing_sent = record { suppressions = []; lines = []; world = 0 }

address_filled : is_blank (address a_mailer a_message.to) ≡ false
unfolding address trim_space trim_right trim_left
address_filled = refl

report_filled : is_blank (address a_mailer a_report.address) ≡ false
unfolding address trim_space trim_right trim_left
report_filled = refl

same_address : address a_mailer a_message.to ≡ address a_mailer a_report.address
unfolding address trim_space trim_right trim_left
same_address = refl

address-IsStored : IsStored a_mailer a_message.to
unfolding address trim_space trim_right trim_left
address-IsStored = refl

send_message-IsNoted_example :
    IsNoted a_mailer
      (record a_message { to = address a_mailer a_message.to })
      nothing_sent
      (send_message a_mailer a_message nothing_sent)
send_message-IsNoted_example =
    send_message-IsNoted a_mailer a_message nothing_sent refl address_filled

send_message-suppressed_example :
    let s : Mailbox ℕ =
      acts a_mailer
        (send a_message ∷ apply a_report ∷ [])
        (apply_report a_mailer a_report nothing_sent).1 in
    let stored : Message = record a_message { to = address a_mailer a_message.to } in
    let line : Line = line_of a_mailer stored skipped [] suppressed_detail in
    send_message a_mailer a_message s ≡ (
      if a_mailer.records line s.world
      then (skipped, none, record s { lines = insert line s.lines })
      else (skipped, some not_recorded, s))
send_message-suppressed_example =
    send_message-suppressed a_mailer a_report a_message (send a_message ∷ apply a_report ∷ [])
      nothing_sent address-IsStored refl report_filled refl same_address
