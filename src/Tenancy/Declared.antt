-- ===== src/Tenancy/Declared.antt =====
-- internal/tenancy/seed.go: after seeding, a marketplace has the hosts and the languages that are
-- declared, and no other marketplace has lost any but the hosts that moved.
use marketplace.Base.{
  ℕ, ◌≡◌, refl, Bool, true, false, not, ◌&&◌, ◌||◌, some, List, [], ◌∷◌, ◌==◌, if◌then◌else◌, Bytes,
  Bool-cases, inl, inr, arith, same_bytes, same_bytes_sound, same_bytes_refl, ok, find, insert,
  update, delete, is_set, find-insert, find-update_hit,
}
use marketplace.Tenancy.{Hosts}
use marketplace.Tenancy.Seed.{
  Spec, LanguageRow, HostRow, Tables, member, hosts_of, languages_of, id_of, is_language, is_host,
  put_language, add_languages, drop_languages, put_host, add_hosts, drop_hosts, seed_one, has_slug,
  row_of, write_marketplace,
}

abbrev pub any {ℓ} : {R : Type ℓ} → (R → Bool) → List R → Bool
any p [] = false
any p (r ∷ rs) = p r || any p rs

is_set-find {ℓ} : {R : Type ℓ} (p : R → Bool) (rs : List R) → is_set (find p rs) ≡ any p rs
unfolding find
is_set-find p [] = refl
is_set-find p (r ∷ rs) = ground (arith, is_set-find p rs)

any-insert {ℓ} :
    {R : Type ℓ} (p : R → Bool) (r : R) (rs : List R) → any p (insert r rs) ≡ (any p rs || p r)
unfolding insert
any-insert p r [] = ground arith
any-insert p r (s ∷ rs) = ground (arith, any-insert p r rs)

-- Whether a marketplace has a host.
abbrev pub has_host : ℕ → Bytes → List HostRow → Bool
has_host m h rows = any (λ r. r.marketplace == m && is_host h r) rows

-- Whether a marketplace has a language.
abbrev pub has_language : ℕ → Bytes → List LanguageRow → Bool
has_language m l rows = any (is_language m l) rows

has_host-update :
    (id m : ℕ) (h k : Bytes) (rows : List HostRow)
    → has_host m k (update (is_host h) (λ r. record r { marketplace = id }) rows)
      ≡ (if same_bytes h k then id == m && any (is_host h) rows else has_host m k rows)
unfolding update
has_host-update id m h k [] = ground arith
has_host-update id m h k (r ∷ rs) = ground (
  arith,
  has_host-update id m h k rs,
  same_bytes_sound h k,
  same_bytes_sound r.host h,
  same_bytes_sound r.host k,
  same_bytes_refl h,
)

has_host-any :
    (m : ℕ) (h : Bytes) (rows : List HostRow)
    → any (is_host h) rows ≡ false
    → has_host m h rows ≡ false
has_host-any m h [] e = refl
has_host-any m h (r ∷ rs) e = ground (arith, has_host-any m h rs)

has_host-put_host :
    (id m : ℕ) (h k : Bytes) (rows : List HostRow)
    → has_host m k (put_host id h rows) ≡ (if same_bytes h k then id == m else has_host m k rows)
unfolding put_host
has_host-put_host id m h k rows = ground (
  arith,
  is_set-find (is_host h) rows,
  has_host-update id m h k rows,
  any-insert (λ r. r.marketplace == m && is_host k r) (record { host = h; marketplace = id }) rows,
  has_host-any m h rows,
  same_bytes_sound h k,
)

has_host-add_hosts :
    (id m : ℕ) (k : Bytes) (hs : List Bytes) (rows : List HostRow)
    → has_host m k (add_hosts id hs rows) ≡ (if member k hs then id == m else has_host m k rows)
unfolding add_hosts
has_host-add_hosts id m k [] rows = refl
has_host-add_hosts id m k (h ∷ hs) rows =
    ground
      (arith, has_host-add_hosts id m k hs (put_host id h rows), has_host-put_host id m h k rows)

has_host-drop_hosts :
    (id m : ℕ) (k : Bytes) (hs : List Bytes) (rows : List HostRow)
    → has_host m k (drop_hosts id hs rows)
      ≡ (has_host m k rows && not (m == id && not (member k hs)))
unfolding drop_hosts delete
has_host-drop_hosts id m k hs [] = refl
has_host-drop_hosts id m k hs (r ∷ rs) =
    ground (arith, has_host-drop_hosts id m k hs rs, same_bytes_sound r.host k)

has_language-put_language :
    (id m : ℕ) (k l : Bytes) (rows : List LanguageRow)
    → has_language m l (put_language id k rows)
      ≡ (if id == m && same_bytes k l then true else has_language m l rows)
unfolding put_language
has_language-put_language id m k l rows = elim (Bool-cases (id == m && same_bytes k l)) [
  | inl same ↦
      let e : id ≡ m = ground arith in
      let f : k ≡ l = same_bytes_sound k l (ground arith) in
      rw (same, ← e, ← f)
        (ground (
          arith,
          is_set-find (is_language id k) rows,
          any-insert (is_language id k) (record { marketplace = id; language = k }) rows,
          same_bytes_refl k,
        ))
  | inr other ↦
      ground (arith, any-insert (is_language m l) (record { marketplace = id; language = k }) rows)
]

has_language-add_languages :
    (id m : ℕ) (l : Bytes) (ls : List Bytes) (rows : List LanguageRow)
    → has_language m l (add_languages id ls rows)
      ≡ (has_language m l rows || (id == m && member l ls))
unfolding add_languages
has_language-add_languages id m l [] rows = ground arith
has_language-add_languages id m l (k ∷ ls) rows = ground (
  arith,
  has_language-add_languages id m l ls (put_language id k rows),
  has_language-put_language id m k l rows,
)

has_language-drop_languages :
    (id m : ℕ) (l : Bytes) (ls : List Bytes) (rows : List LanguageRow)
    → has_language m l (drop_languages id ls rows)
      ≡ (has_language m l rows && not (m == id && not (member l ls)))
unfolding drop_languages delete
has_language-drop_languages id m l ls [] = refl
has_language-drop_languages id m l ls (r ∷ rs) =
    ground (arith, has_language-drop_languages id m l ls rs, same_bytes_sound r.language l)

find-write_marketplace :
    (fresh : ℕ) (s : Spec) (t : Tables)
    → find (has_slug s.slug) (write_marketplace fresh s t.marketplaces)
      ≡ some (row_of (id_of fresh s t) s)
unfolding write_marketplace
find-write_marketplace fresh s t = ground (
  arith,
  same_bytes_refl s.slug,
  find-insert (has_slug s.slug) (row_of fresh s) t.marketplaces,
  find-update_hit (has_slug s.slug) (λ r. row_of r.id s) t.marketplaces
      (λ r _. same_bytes_refl s.slug),
)

-- Seeding makes the database what is declared: the marketplace of the slug has what the declaration
-- says, a host that is declared is its own and nobody else's, a host of its own that is not declared
-- is gone, it has exactly the languages that are declared and its default one; and every other
-- marketplace keeps its languages, and its hosts but for those that are declared.
pub seed_one_lem :
    (n : Hosts) (fresh : ℕ) (s : Spec) (t t' : Tables) (created : Bool) (m : ℕ)
    (host language : Bytes)
    → seed_one n fresh s t ≡ ok (created, t')
    → (find (has_slug s.slug) t'.marketplaces ≡ some (row_of (id_of fresh s t) s))
      × (has_host m host t'.hosts ≡ (
          if member host (hosts_of n s)
          then id_of fresh s t == m
          else has_host m host t.hosts && not (m == id_of fresh s t)))
      × (has_language m language t'.languages ≡ (
          if m == id_of fresh s t
          then member language (languages_of s)
          else has_language m language t.languages))
unfolding seed_one
seed_one_lem n fresh s t t' created m host language h =
    let id = id_of fresh s t in
    let marketplaces = find-write_marketplace fresh s t in
    let added =
      has_host-add_hosts id m host (hosts_of n s) (drop_hosts id (hosts_of n s) t.hosts) in
    let dropped = has_host-drop_hosts id m host (hosts_of n s) t.hosts in
    let more =
      has_language-add_languages id m language (languages_of s)
        (drop_languages id (languages_of s) t.languages) in
    let fewer = has_language-drop_languages id m language (languages_of s) t.languages in
    (ground arith, ground arith, ground arith)
