-- ===== src/Tests/Webhook.antt =====
-- The theorem on the mail's webhook at a concrete call.
use marketplace.Base.{
  ℕ, ◌+◌, ◌≡◌, refl, true, false, some, none, [], ◌∷◌, ◌++◌, ok, same_bytes, if◌then◌else◌,
}
use marketplace.Outbox as Outbox
use marketplace.Credentials.{trim_space, trim_right, trim_left}
use marketplace.Mail.{Mailer, Mailbox, is_blank, address, answered, suppressed, mail_event}
use marketplace.Webhook.{Webhook, Post, Table, accepted, authentic, take_post}
use marketplace.Webhook.Reported.{IsWritten, mail_registry, take_post-suppressed}
use marketplace.Tests.Mail.{a_mailer, a_report}

-- A mailer that reads the JSON of the report that the webhook writes.
abbrev reading_mailer : Mailer ℕ
reading_mailer = record a_mailer {
  read_report = λ payload. if same_bytes payload (b'j' ∷ []) then some a_report else none;
}

abbrev a_webhook : Webhook
a_webhook = record {
  name = b'p' ∷ [];
  token = b's' ∷ [];
  events = λ body. if same_bytes body (b'o' ∷ []) then some (a_report ∷ a_report ∷ []) else none;
  write = λ e. b'j' ∷ [];
  id_text = λ n. (b'0' + n) ∷ [];
  commits = λ reports t. true;
}

-- The token stands in the query.
abbrev a_post : Post
a_post = record { provider = b'p' ∷ []; header = []; query = b's' ∷ []; body = some (b'o' ∷ []) }

abbrev no_rows : Table
no_rows = record { next_id = 1; rows = [] }

same_provider : same_bytes a_post.provider a_webhook.name ≡ true
unfolding same_bytes
same_provider = refl

token_authentic : authentic a_webhook a_post ≡ true
unfolding authentic same_bytes
token_authentic = refl

body_read : a_webhook.events (b'o' ∷ []) ≡ some ([] ++ a_report ∷ a_report ∷ [])
unfolding same_bytes
body_read = refl

json_read : reading_mailer.read_report (a_webhook.write a_report) ≡ some a_report
unfolding same_bytes
json_read = refl

address_filled : is_blank (address reading_mailer a_report.address) ≡ false
unfolding address trim_space trim_right trim_left
address_filled = refl

take_post-suppressed_example :
    ((take_post a_webhook a_post 7 no_rows).0 ≡ accepted)
    × ((event : Outbox.Event) × IsWritten a_webhook a_report 7 event
          (take_post a_webhook a_post 7 no_rows).1.rows
        × ((s : Outbox.State (Mailbox ℕ))
            → Outbox.is_claimed event.id mail_event s.deliveries ≡ false
            → (reading_mailer.confirm a_report s.world.world).0 ≡ answered true
            → ((Outbox.deliver (mail_registry reading_mailer) event s).0 ≡ ok tt)
              × (suppressed reading_mailer a_report.address
                    (Outbox.deliver (mail_registry reading_mailer) event s).1.world.suppressions
                  ≡ true)))
take_post-suppressed_example =
    take_post-suppressed reading_mailer a_webhook a_post (b'o' ∷ []) [] a_report (a_report ∷ []) 7
      no_rows same_provider token_authentic refl body_read refl json_read refl address_filled
