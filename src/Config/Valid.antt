-- ===== src/Config/Valid.antt =====
-- internal/platform/config/config.go: what holds of a configuration that Load gives.
use marketplace.Base.{
  ◌≤◌, ◌≡◌, ◌⊎◌, inl, inr, Bool, true, false, ◌||◌, Option, none, some, List, [], ◌∷◌, Bytes,
  length, ltb, ok, err, same_bytes, Bool-cases, arith,
}
use marketplace.Credentials.{is_nil}
use marketplace.Config.{
  ℤ, pos, negsuc, Key, port_key, indexable_key, log_level_key, providers_mode_key, database_url,
  database_instance, database_name, database_user, database_password, database_app_user,
  trusted_proxy_hops, tasks_project, tasks_location, tasks_invoker, tasks_audience, service_url,
  platform_host_key, console_host_key, bootstrap_token_key, mail_from, mail_api_key, mail_directory,
  mail_webhook_token, audit_key, audit_local_key, seed_marketplaces_key, Config, Database,
  fake_providers, Problem, Readers, min_bootstrap_token, max_port, host_name,
}
use marketplace.Config.Loading.{
  Setting, set, set_port, set_indexable, set_level, set_hops, set_mode, set_token, assign,
  read_value, read, read_all,
}

-- What each value is alone.
abbrev pub IsInRange : Config → Type 0
IsInRange c =
    (1 ≤ c.port)
    × (c.port ≤ max_port)
    × ((is_nil c.bootstrap_token ≡ true) ⊎ (min_bootstrap_token ≤ length c.bootstrap_token))

-- A database is reached by an address, by an instance with a name and a user, or not at all.
abbrev pub IsReached : Database → Type 0
IsReached d =
    ((is_nil d.url ≡ false) × (is_nil d.instance_name ≡ true))
    ⊎ (((is_nil d.url ≡ true)
          × (is_nil d.instance_name ≡ false)
          × (is_nil d.name ≡ false)
          × (is_nil d.user ≡ false))
        ⊎ ((is_nil d.url ≡ true)
            × (is_nil d.instance_name ≡ true)
            × (is_nil d.name ≡ true)
            × (is_nil d.user ≡ true)
            × (is_nil d.password ≡ true)
            × (is_nil d.app_user ≡ true)))

-- With the real providers a message can be sent and the audit's keys are kept by the key manager.
abbrev pub IsEquipped : Config → Type 0
IsEquipped c =
    (c.providers_mode ≡ fake_providers)
    ⊎ ((is_nil c.mail.key ≡ false)
        × (is_nil c.mail.from ≡ false)
        × (is_nil c.audit.key ≡ false)
        × (is_nil c.audit.local_key ≡ true))

-- The console has a host of its own, or there is no console and no first run.
abbrev pub IsApart : Readers → Config → Type 0
IsApart r c =
    ((is_nil c.console_host ≡ true) × (is_nil c.bootstrap_token ≡ true))
    ⊎ ((is_nil c.console_host ≡ false)
        × (same_bytes (host_name r c.console_host) (host_name r c.platform_host) ≡ false))

-- What a setting does to the values that are alone.
unfoldable Keeps : Setting → Type 0
Keeps (err fault) = Unit {0}
Keeps (ok change) = (c : Config) → IsInRange c → IsInRange (change c)

set_port-Keeps : (n : Option ℤ) → Keeps (set_port n)
unfolding Keeps
set_port-Keeps none = tt
set_port-Keeps (some (negsuc n)) = tt
set_port-Keeps (some (pos n)) = elim (Bool-cases (ltb n 1 || ltb max_port n)) [
  | inl out ↦ rw out tt
  | inr fits ↦ rw fits (λ c h. (ground arith, ground arith, h.2))
]

set_indexable-Keeps : (b : Option Bool) → Keeps (set_indexable b)
unfolding Keeps
set_indexable-Keeps none = tt
set_indexable-Keeps (some b) = λ c h. h

set_level-Keeps : (n : Option ℤ) → Keeps (set_level n)
unfolding Keeps
set_level-Keeps none = tt
set_level-Keeps (some n) = λ c h. h

set_hops-Keeps : (n : Option ℤ) → Keeps (set_hops n)
unfolding Keeps
set_hops-Keeps none = tt
set_hops-Keeps (some (negsuc n)) = tt
set_hops-Keeps (some (pos n)) = λ c h. h

set_mode-Keeps : (v : Bytes) → Keeps (set_mode v)
unfolding Keeps
set_mode-Keeps v = elim (Bool-cases (same_bytes v (b'f' ∷ b'a' ∷ b'k' ∷ b'e' ∷ []))) [
  | inl fake ↦ rw fake (λ c h. h)
  | inr other ↦ elim (Bool-cases (same_bytes v (b'r' ∷ b'e' ∷ b'a' ∷ b'l' ∷ []))) [
    | inl real ↦ rw (other, real) (λ c h. h)
    | inr neither ↦ rw (other, neither) tt
  ]
]

set_token-Keeps : (v : Bytes) → Keeps (set_token v)
unfolding Keeps
set_token-Keeps v = elim (Bool-cases (ltb (length v) min_bootstrap_token)) [
  | inl short ↦ rw short tt
  | inr long ↦ rw long (λ c h. (h.0, h.1, inr (ground arith)))
]

module _ (r : Readers) where
  set-Keeps : (key : Key) (v : Bytes) → Keeps (set r key v)
  unfolding Keeps set
  set-Keeps port_key v = set_port-Keeps (r.atoi v)
  set-Keeps indexable_key v = set_indexable-Keeps (r.parse_bool v)
  set-Keeps log_level_key v = set_level-Keeps (r.level v)
  set-Keeps providers_mode_key v = set_mode-Keeps v
  set-Keeps trusted_proxy_hops v = set_hops-Keeps (r.atoi v)
  set-Keeps bootstrap_token_key v = set_token-Keeps v
  set-Keeps database_url v = λ c h. h
  set-Keeps database_instance v = λ c h. h
  set-Keeps database_name v = λ c h. h
  set-Keeps database_user v = λ c h. h
  set-Keeps database_password v = λ c h. h
  set-Keeps database_app_user v = λ c h. h
  set-Keeps tasks_project v = λ c h. h
  set-Keeps tasks_location v = λ c h. h
  set-Keeps tasks_invoker v = λ c h. h
  set-Keeps tasks_audience v = λ c h. h
  set-Keeps service_url v = λ c h. h
  set-Keeps platform_host_key v = λ c h. h
  set-Keeps console_host_key v = λ c h. h
  set-Keeps mail_from v = λ c h. h
  set-Keeps mail_api_key v = λ c h. h
  set-Keeps mail_directory v = λ c h. h
  set-Keeps mail_webhook_token v = λ c h. h
  set-Keeps audit_key v = λ c h. h
  set-Keeps audit_local_key v = λ c h. h
  set-Keeps seed_marketplaces_key v = λ c h. h

module _ (r : Readers) (lookup : Key → Option Bytes) where
  assign-IsInRange :
      (key : Key) (change : Setting) (s : Config × List Problem)
      → Keeps change
      → IsInRange s.0
      → IsInRange (assign r lookup key change s).0
  unfolding Keeps
  assign-IsInRange key (err fault) s keeps h = h
  assign-IsInRange key (ok change) s keeps h = keeps s.0 h

  read_value-IsInRange :
      (key : Key) (v : Option Bytes) (s : Config × List Problem)
      → IsInRange s.0
      → IsInRange (read_value r lookup key v s).0
  read_value-IsInRange key none s h = h
  read_value-IsInRange key (some []) s h = h
  read_value-IsInRange key (some (b ∷ bs)) s h =
      assign-IsInRange key (set r key (b ∷ bs)) s (set-Keeps r key (b ∷ bs)) h

  pub read_all-IsInRange :
      (ks : List Key) (s : Config × List Problem)
      → IsInRange s.0
      → IsInRange (read_all r lookup ks s).0
  unfolding read_all read
  read_all-IsInRange [] s h = h
  read_all-IsInRange (key ∷ rest) s h =
      read_all-IsInRange rest (read r lookup key s) (read_value-IsInRange key (lookup key) s h)
