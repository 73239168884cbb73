-- ===== src/Tenancy/Seed.antt =====
-- internal/tenancy/seed.go: the marketplaces that an environment declares are written into the
-- database. The reader of the JSON is a parameter of ParseSpecs and not modelled; an identifier is a
-- number, and a new row's is an argument. A statement on the database succeeds, but for one that would
-- write a host twice, which PostgreSQL refuses.
use marketplace.Base.{
  ℕ, Bool, true, false, not, ◌&&◌, ◌||◌, Option, none, some, List, [], ◌∷◌, ◌++◌, ◌==◌,
  if◌then◌else◌, Bytes, same_bytes, map, Outcome, ok, err, find, insert, update, delete, is_set,
}
use marketplace.Tenancy.{Hosts, normalise}

-- Spec
pub record Spec : Type 0 where
  pub slug : Bytes
  pub name : Bytes
  pub market : Bytes
  pub revenue_model : Bytes
  pub state : Bytes
  pub default_language : Bytes
  pub languages : List Bytes
  pub hosts : List Bytes
  pub detect_contact_data : Bool
  pub reveal_contact : Bool

abbrev is_empty {ℓ} : {A : Type ℓ} → List A → Bool
is_empty [] = true
is_empty (_ ∷ _) = false

-- (Spec).validate: whether it returns no error.
unfoldable pub validate : Spec → Bool
validate s = not (
    is_empty s.slug
    || is_empty s.name
    || is_empty s.market
    || is_empty s.revenue_model
    || is_empty s.hosts)

-- A row of the table marketplace, and the rows of marketplace_language and marketplace_host.
pub record Row : Type 0 where
  pub id : ℕ
  pub slug : Bytes
  pub name : Bytes
  pub market : Bytes
  pub revenue_model : Bytes
  pub state : Bytes
  pub detect_contact_data : Bool
  pub reveal_contact : Bool
  pub default_language : Bytes

pub record LanguageRow : Type 0 where
  pub marketplace : ℕ
  pub language : Bytes

pub record HostRow : Type 0 where
  pub host : Bytes
  pub marketplace : ℕ

pub record Tables : Type 0 where
  pub marketplaces : List Row
  pub languages : List LanguageRow
  pub hosts : List HostRow

-- slices.Contains
abbrev pub member : Bytes → List Bytes → Bool
member x [] = false
member x (y ∷ ys) = same_bytes y x || member x ys

-- The texts "active" and "en-US"
abbrev pub active : Bytes
active = b'a' ∷ b'c' ∷ b't' ∷ b'i' ∷ b'v' ∷ b'e' ∷ []

abbrev pub en_us : Bytes
en_us = b'e' ∷ b'n' ∷ b'-' ∷ b'U' ∷ b'S' ∷ []

abbrev or_text : Bytes → Bytes → Bytes
or_text text other = if is_empty text then other else text

abbrev pub language_of : Spec → Bytes
language_of s = or_text s.default_language en_us

-- The languages that are written: the declared ones, and the default where they lack it.
abbrev pub languages_of : Spec → List Bytes
languages_of s =
    if member (language_of s) s.languages then s.languages else s.languages ++ language_of s ∷ []

abbrev pub hosts_of : Hosts → Spec → List Bytes
hosts_of n s = map (normalise n) s.hosts

abbrev pub row_of : ℕ → Spec → Row
row_of id s = record {
  id = id;
  slug = s.slug;
  name = s.name;
  market = s.market;
  revenue_model = s.revenue_model;
  state = or_text s.state active;
  detect_contact_data = s.detect_contact_data;
  reveal_contact = s.reveal_contact;
  default_language = language_of s;
}

abbrev pub has_slug : Bytes → Row → Bool
has_slug slug r = same_bytes r.slug slug

abbrev id_or : ℕ → Option Row → ℕ
id_or fresh none = fresh
id_or fresh (some r) = r.id

-- The identifier that the upsert of the marketplace returns.
abbrev pub id_of : ℕ → Spec → Tables → ℕ
id_of fresh s t = id_or fresh (find (has_slug s.slug) t.marketplaces)

-- INSERT INTO marketplace … ON CONFLICT (slug) DO UPDATE
unfoldable pub write_marketplace : ℕ → Spec → List Row → List Row
write_marketplace fresh s rows =
    if is_set (find (has_slug s.slug) rows)
    then update (has_slug s.slug) (λ r. row_of r.id s) rows
    else insert (row_of fresh s) rows

abbrev pub is_language : ℕ → Bytes → LanguageRow → Bool
is_language id language r = r.marketplace == id && same_bytes r.language language

-- INSERT INTO marketplace_language … ON CONFLICT DO NOTHING, of one row and of a list of them
unfoldable pub put_language : ℕ → Bytes → List LanguageRow → List LanguageRow
put_language id language rows =
    if is_set (find (is_language id language) rows)
    then rows
    else insert (record { marketplace = id; language = language }) rows

unfoldable pub add_languages : ℕ → List Bytes → List LanguageRow → List LanguageRow
add_languages id [] rows = rows
add_languages id (l ∷ ls) rows = add_languages id ls (put_language id l rows)

unfoldable pub drop_languages : ℕ → List Bytes → List LanguageRow → List LanguageRow
drop_languages id languages rows =
    delete (λ r. r.marketplace == id && not (member r.language languages)) rows

abbrev pub is_host : Bytes → HostRow → Bool
is_host host r = same_bytes r.host host

-- INSERT INTO marketplace_host … ON CONFLICT (host) DO UPDATE, of one row and of a list of them
unfoldable pub put_host : ℕ → Bytes → List HostRow → List HostRow
put_host id host rows =
    if is_set (find (is_host host) rows)
    then update (is_host host) (λ r. record r { marketplace = id }) rows
    else insert (record { host = host; marketplace = id }) rows

unfoldable pub add_hosts : ℕ → List Bytes → List HostRow → List HostRow
add_hosts id [] rows = rows
add_hosts id (h ∷ hs) rows = add_hosts id hs (put_host id h rows)

unfoldable pub drop_hosts : ℕ → List Bytes → List HostRow → List HostRow
drop_hosts id hosts rows = delete (λ r. r.marketplace == id && not (member r.host hosts)) rows

-- Whether a list names something twice: an INSERT … ON CONFLICT DO UPDATE that meets a row for the
-- second time is an error.
abbrev pub repeats : List Bytes → Bool
repeats [] = false
repeats (x ∷ xs) = member x xs || repeats xs

-- seedOne: the tables and whether the marketplace was created.
unfoldable pub seed_one : Hosts → ℕ → Spec → Tables → Outcome (Unit {0}) (Bool × Tables)
seed_one n fresh s t =
    let id = id_of fresh s t in
    if repeats (hosts_of n s)
    then err tt
    else ok (
      not (is_set (find (has_slug s.slug) t.marketplaces)),
      record {
        marketplaces = write_marketplace fresh s t.marketplaces;
        languages =
            add_languages id (languages_of s) (drop_languages id (languages_of s) t.languages);
        hosts = add_hosts id (hosts_of n s) (drop_hosts id (hosts_of n s) t.hosts);
      },
    )

-- What the loop of Seed leaves behind a marketplace that was written, or was not.
abbrev then_seed :
    Outcome (Unit {0}) (Bool × Tables)
    → (Tables → Outcome (Unit {0}) (List Bool × Tables))
    → Outcome (Unit {0}) (List Bool × Tables)
then_seed (err e) next = err e
then_seed (ok (created, t)) next = elim (next t) [
  | err e ↦ err e
  | ok (more, t') ↦ ok (created ∷ more, t')
]

-- Seed, of each declared marketplace with the identifier that it would get: whether each was created.
unfoldable pub seed : Hosts → List (ℕ × Spec) → Tables → Outcome (Unit {0}) (List Bool × Tables)
seed n [] t = ok ([], t)
seed n ((fresh, s) ∷ specs) t = then_seed (seed_one n fresh s t) (seed n specs)
