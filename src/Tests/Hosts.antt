-- ===== src/Tests/Hosts.antt =====
-- The theorems on the outbox, the languages and the seed at concrete inputs.
use marketplace.Base.{
  ℕ, Bool, ◌+◌, ◌≡◌, refl, false, true, none, some, List, [], ◌∷◌, Bytes, Outcome, ok, err, insert,
  find, same_bytes, same_bytes_refl, same_bytes_sound, subst,
}
use marketplace.Outbox.{
  Event, Consumer, Registry, State, on, deliver, deliver_one, deliver_all, claim,
}
use marketplace.Outbox.Once.{delivered, deliver-again}
use marketplace.I18n.{Resolver, Request, slash, default_language, follow}
use marketplace.I18n.Choosing.{IsFold, HasTags}
use marketplace.I18n.Following.{IsAnswered, follow-IsAnswered}
use marketplace.Credentials.{trim_space, trim_right, trim_left}
use marketplace.Tenancy.{Hosts, normalise, trim_dot}
use marketplace.Tenancy.Seed.{Spec, Tables, has_slug, row_of, seed_one}
use marketplace.Tenancy.Declared.{has_host, has_language, seed_one_lem}

-- A consumer that counts the events.
abbrev counter : Consumer ℕ
counter = record { name = b'c' ∷ []; handle = λ e n. (ok tt, n + 1) }

abbrev pub registry : Registry ℕ
registry = on ℕ (λ kind. []) (b'm' ∷ []) counter

abbrev pub a_mail : Event
a_mail = record { id = 1 ∷ []; kind = b'm' ∷ []; payload = [] }

abbrev next_mail : Event
next_mail = record { id = 2 ∷ []; kind = b'm' ∷ []; payload = [] }

abbrev unknown_mail : Event
unknown_mail = record { id = 3 ∷ []; kind = b'u' ∷ []; payload = [] }

abbrev untouched : State ℕ
untouched = record { deliveries = []; world = 0 }

first_delivered : (deliver registry a_mail untouched).0 ≡ ok tt
unfolding on deliver deliver_all deliver_one claim find insert same_bytes
first_delivered = refl

abbrev in_between : List Event
in_between = next_mail ∷ unknown_mail ∷ next_mail ∷ []

deliver-again_example :
    deliver registry a_mail (delivered registry in_between (deliver registry a_mail untouched).1)
    ≡ (ok tt, delivered registry in_between (deliver registry a_mail untouched).1)
deliver-again_example = deliver-again registry a_mail in_between untouched first_delivered

-- A catalogue of one language, and an exact comparison.
abbrev a_resolver : Resolver
a_resolver = record {
  catalogue = default_language ∷ [];
  country = λ client. none;
  equal_fold = same_bytes;
  location = λ path. path;
  exempt = [];
}

same_bytes-IsFold : IsFold a_resolver
same_bytes-IsFold = record {
  reflexive = same_bytes_refl;
  transitive = λ x y z h k. subst (λ w. same_bytes x w ≡ true) (same_bytes_sound y z k) h;
}

abbrev a_request : Request
a_request = record {
  path = slash ∷ b'h' ∷ slash ∷ b'i' ∷ [];
  cookie = none;
  client = [];
  languages = [];
  fallback = default_language;
}

a_request-HasTags : HasTags a_resolver a_request
a_request-HasTags = record { catalogue = (refl, tt); languages = tt; fallback = refl }

follow-IsAnswered_example : IsAnswered a_resolver a_request (follow a_resolver 2 a_request)
follow-IsAnswered_example =
    follow-IsAnswered a_resolver a_request (b'h' ∷ slash ∷ b'i' ∷ []) same_bytes-IsFold refl
      a_request-HasTags (λ tag h. refl) (λ head rest e tag h. refl)

abbrev pub some_hosts : Hosts
some_hosts = record { split_host_port = λ host. none; to_lower = λ host. host }

-- A marketplace that has the host `old`, declared with the host `new`.
abbrev declared : Spec
declared = record {
  slug = b's' ∷ [];
  name = b'n' ∷ [];
  market = b'm' ∷ [];
  revenue_model = b'r' ∷ [];
  state = [];
  default_language = [];
  languages = [];
  hosts = (b'n' ∷ b'e' ∷ b'w' ∷ []) ∷ [];
  detect_contact_data = true;
  reveal_contact = false;
}

abbrev seeded : Tables
seeded = record {
  marketplaces = row_of 4 declared ∷ [];
  languages = record { marketplace = 4; language = b'p' ∷ b't' ∷ [] } ∷ [];
  hosts =
      record { host = b'o' ∷ b'l' ∷ b'd' ∷ []; marketplace = 4 }
      ∷ record { host = b'n' ∷ b'e' ∷ b'w' ∷ []; marketplace = 6 }
      ∷ [];
}

abbrev tables_of : Outcome (Unit {0}) (Bool × Tables) → Tables
tables_of (ok (created, t)) = t
tables_of (err e) = seeded

abbrev reseeded : Tables
reseeded = tables_of (seed_one some_hosts 9 declared seeded)

seeded_again : seed_one some_hosts 9 declared seeded ≡ ok (false, reseeded)
unfolding seed_one same_bytes find
seeded_again = refl

abbrev new_host : Bytes
new_host = b'n' ∷ b'e' ∷ b'w' ∷ []

seed_one_lem_example :
    (find (has_slug (b's' ∷ [])) reseeded.marketplaces ≡ some (row_of 4 declared))
    × (has_host 6 new_host reseeded.hosts ≡ false)
    × (has_language 6 default_language reseeded.languages
        ≡ has_language 6 default_language seeded.languages)
unfolding find same_bytes normalise trim_space trim_right trim_left trim_dot
seed_one_lem_example =
    seed_one_lem some_hosts 9 declared seeded reseeded false 6 new_host default_language
      seeded_again
