-- ===== src/Config/Complaints.antt =====
-- internal/platform/config/config.go: what Load says of the variables that it cannot use.
use marketplace.Base.{
  ℕ, zero, suc, ◌≡◌, ◌⊎◌, inl, inr, refl, ap, sym, ◌∙◌, Option, none, some, List, [], ◌∷◌, ◌++◌,
  append_assoc, append-nil, Bytes, ok, err,
}
use marketplace.Config.{
  Key, port_key, indexable_key, log_level_key, providers_mode_key, database_url, database_instance,
  database_name, database_user, database_password, database_app_user, trusted_proxy_hops,
  tasks_project, tasks_location, tasks_invoker, tasks_audience, service_url, platform_host_key,
  console_host_key, bootstrap_token_key, mail_from, mail_api_key, mail_directory,
  mail_webhook_token, audit_key, audit_local_key, seed_marketplaces_key, Config, Problem, empty,
  unreadable, Fault, Readers,
}
use marketplace.Config.Loading.{
  defaults, Setting, set, keys, assign, read_value, read, read_all, problems_of, judged, load,
}

-- The place of a variable in the order of the code.
abbrev index_of : Key → ℕ
index_of port_key = 0
index_of indexable_key = 1
index_of log_level_key = 2
index_of providers_mode_key = 3
index_of database_url = 4
index_of database_instance = 5
index_of database_name = 6
index_of database_user = 7
index_of database_password = 8
index_of database_app_user = 9
index_of trusted_proxy_hops = 10
index_of tasks_project = 11
index_of tasks_location = 12
index_of tasks_invoker = 13
index_of tasks_audience = 14
index_of service_url = 15
index_of platform_host_key = 16
index_of console_host_key = 17
index_of bootstrap_token_key = 18
index_of mail_from = 19
index_of mail_api_key = 20
index_of mail_directory = 21
index_of mail_webhook_token = 22
index_of audit_key = 23
index_of audit_local_key = 24
index_of seed_marketplaces_key = 25

abbrev key_at : List Key → ℕ → Option Key
key_at [] n = none
key_at (key ∷ rest) zero = some key
key_at (key ∷ rest) (suc n) = key_at rest n

index_of-keys : (key : Key) → key_at keys (index_of key) ≡ some key
index_of-keys port_key = refl
index_of-keys indexable_key = refl
index_of-keys log_level_key = refl
index_of-keys providers_mode_key = refl
index_of-keys database_url = refl
index_of-keys database_instance = refl
index_of-keys database_name = refl
index_of-keys database_user = refl
index_of-keys database_password = refl
index_of-keys database_app_user = refl
index_of-keys trusted_proxy_hops = refl
index_of-keys tasks_project = refl
index_of-keys tasks_location = refl
index_of-keys tasks_invoker = refl
index_of-keys tasks_audience = refl
index_of-keys service_url = refl
index_of-keys platform_host_key = refl
index_of-keys console_host_key = refl
index_of-keys bootstrap_token_key = refl
index_of-keys mail_from = refl
index_of-keys mail_api_key = refl
index_of-keys mail_directory = refl
index_of-keys mail_webhook_token = refl
index_of-keys audit_key = refl
index_of-keys audit_local_key = refl
index_of-keys seed_marketplaces_key = refl

-- `all` with p among the problems.
abbrev pub HasProblem : Problem → List Problem → Type 0
HasProblem p all = (before after : List Problem) × (all ≡ before ++ p ∷ after)

module _ (r : Readers) (lookup : Key → Option Bytes) where
  -- A variable that is set to nothing, or to what its reader refuses, with the problem this is.
  abbrev pub IsFaulty : Key → Problem → Type 0
  IsFaulty key p =
      ((lookup key ≡ some []) × (p ≡ empty key))
      ⊎ ((b : ℕ) × (bs : Bytes) × (fault : Fault) × (lookup key ≡ some (b ∷ bs))
          × (set r key (b ∷ bs) ≡ err fault)
          × (p ≡ unreadable key fault))

  assign-adds :
      (key : Key) (change : Setting) (s : Config × List Problem)
      → (more : List Problem) × ((assign r lookup key change s).1 ≡ s.1 ++ more)
  assign-adds key (err fault) s = (unreadable key fault ∷ [], refl)
  assign-adds key (ok change) s = ([], sym (append-nil s.1))

  read_value-adds :
      (key : Key) (v : Option Bytes) (s : Config × List Problem)
      → (more : List Problem) × ((read_value r lookup key v s).1 ≡ s.1 ++ more)
  read_value-adds key none s = ([], sym (append-nil s.1))
  read_value-adds key (some []) s = (empty key ∷ [], refl)
  read_value-adds key (some (b ∷ bs)) s = assign-adds key (set r key (b ∷ bs)) s

  read_all-adds :
      (ks : List Key) (s : Config × List Problem)
      → (more : List Problem) × ((read_all r lookup ks s).1 ≡ s.1 ++ more)
  unfolding read_all read
  read_all-adds [] s = ([], sym (append-nil s.1))
  read_all-adds (key ∷ rest) s =
      let (more, same) = read_value-adds key (lookup key) s in
      let (others, after) = read_all-adds rest (read r lookup key s) in
      (more ++ others, after ∙ ap (λ ps. ps ++ others) same ∙ append_assoc s.1 more others)

  read-reports :
      (key : Key) (p : Problem) (s : Config × List Problem)
      → IsFaulty key p
      → (read r lookup key s).1 ≡ s.1 ++ p ∷ []
  unfolding read
  read-reports key p s (inl (unset, is)) = rw (unset, is) refl
  read-reports key p s (inr (b, bs, fault, there, refused, is)) = rw (there, refused, is) refl

  read_all-reports :
      (ks : List Key) (n : ℕ) (key : Key) (p : Problem) (s : Config × List Problem)
      → key_at ks n ≡ some key
      → IsFaulty key p
      → HasProblem p (read_all r lookup ks s).1
  unfolding read_all
  read_all-reports [] n key p s found faulty = absurd cc
  read_all-reports (k ∷ rest) zero key p s found faulty =
      let same : k ≡ key = cc in
      let said = ap (λ k. (read r lookup k s).1) same ∙ read-reports key p s faulty in
      let (more, after) = read_all-adds rest (read r lookup k s) in
      (s.1, more, after ∙ ap (λ ps. ps ++ more) said ∙ append_assoc s.1 (p ∷ []) more)
  read_all-reports (k ∷ rest) (suc n) key p s found faulty =
      read_all-reports rest n key p (read r lookup k s) found faulty

  judged-reports :
      (c : Config) (p : Problem) (before after : List Problem)
      → judged r lookup c (before ++ p ∷ after) ≡ err (before ++ p ∷ after)
  judged-reports c p [] after = refl
  judged-reports c p (q ∷ before) after = refl

  -- Whatever else is wrong, Load fails on a variable that is set to nothing or that its reader refuses,
  -- and names it among the problems that it gives.
  pub load-reports :
      (key : Key) (p : Problem)
      → IsFaulty key p
      → (all : List Problem) × (load r lookup ≡ err all) × HasProblem p all
  unfolding load
  load-reports key p faulty =
      let s = read_all r lookup keys (defaults, []) in
      let (before, after, same) =
        read_all-reports keys (index_of key) key p (defaults, []) (index_of-keys key) faulty in
      let others = problems_of r lookup s.0 in
      let whole = ap (λ ps. ps ++ others) same ∙ append_assoc before (p ∷ after) others in
      (
        before ++ p ∷ (after ++ others),
        ap (judged r lookup s.0) whole ∙ judged-reports s.0 p before (after ++ others),
        (before, after ++ others, refl),
      )
