-- ===== src/Config/Loading.antt =====
-- Load of internal/platform/config/config.go. Each variable is read in the order of the code; a problem
-- with one does not stop the reading of the next.
use marketplace.Base.{
  Bool, false, ◌||◌, Option, none, some, List, [], ◌∷◌, ◌++◌, if◌then◌else◌, Bytes, length, ltb,
  Outcome, ok, err, same_bytes,
}
use marketplace.Config.{
  ℤ, pos, negsuc, Key, port_key, indexable_key, log_level_key, providers_mode_key, database_url,
  database_instance, database_name, database_user, database_password, database_app_user,
  trusted_proxy_hops, tasks_project, tasks_location, tasks_invoker, tasks_audience, service_url,
  platform_host_key, console_host_key, bootstrap_token_key, mail_from, mail_api_key, mail_directory,
  mail_webhook_token, audit_key, audit_local_key, seed_marketplaces_key, Config, fake_providers,
  real_providers, Problem, empty, unreadable, Fault, not_number, out_of_range, not_boolean,
  not_level, not_mode, not_count, too_short, Readers, min_bootstrap_token, max_port,
  database_problems, mail_problems, audit_problems, console_problems,
}

-- The configuration of an empty environment.
abbrev pub defaults : Config
defaults = record {
  port = 8080;
  indexable = false;
  log_level = pos 0;
  providers_mode = fake_providers;
  database = record {
    url = [];
    instance_name = [];
    name = [];
    user = [];
    password = [];
    app_user = [];
  };
  platform_host = [];
  console_host = [];
  bootstrap_token = [];
  proxy_hops = 2;
  tasks = record { project = []; location = []; url = []; invoker = []; audience = [] };
  mail = record { from = []; key = []; directory = []; webhook_token = [] };
  audit = record { key = []; local_key = [] };
  seed_marketplaces = [];
}

-- What a value does: it is assigned, or something is wrong with it.
abbrev pub Setting : Type 0
Setting = Outcome Fault (Config → Config)

abbrev pub set_port : Option ℤ → Setting
set_port none = err not_number
set_port (some (negsuc n)) = err out_of_range
set_port (some (pos n)) =
    if ltb n 1 || ltb max_port n
    then err out_of_range
    else ok (λ (c : Config). record c { port = n })

abbrev pub set_indexable : Option Bool → Setting
set_indexable none = err not_boolean
set_indexable (some b) = ok (λ (c : Config). record c { indexable = b })

abbrev pub set_level : Option ℤ → Setting
set_level none = err not_level
set_level (some n) = ok (λ (c : Config). record c { log_level = n })

abbrev pub set_hops : Option ℤ → Setting
set_hops none = err not_count
set_hops (some (negsuc n)) = err not_count
set_hops (some (pos n)) = ok (λ (c : Config). record c { proxy_hops = n })

abbrev pub set_mode : Bytes → Setting
set_mode v =
    if same_bytes v (b'f' ∷ b'a' ∷ b'k' ∷ b'e' ∷ [])
    then ok (λ (c : Config). record c { providers_mode = fake_providers })
    else if same_bytes v (b'r' ∷ b'e' ∷ b'a' ∷ b'l' ∷ [])
    then ok (λ (c : Config). record c { providers_mode = real_providers })
    else err not_mode

abbrev pub set_token : Bytes → Setting
set_token v =
    if ltb (length v) min_bootstrap_token
    then err too_short
    else ok (λ (c : Config). record c { bootstrap_token = v })

module _ (r : Readers) where
  -- The functions that Load gives to read.
  unfoldable pub set : Key → Bytes → Setting
  set port_key v = set_port (r.atoi v)
  set indexable_key v = set_indexable (r.parse_bool v)
  set log_level_key v = set_level (r.level v)
  set providers_mode_key v = set_mode v
  set trusted_proxy_hops v = set_hops (r.atoi v)
  set bootstrap_token_key v = set_token v
  set database_url v = ok (λ (c : Config). record c { database = record c.database { url = v } })
  set database_instance v =
      ok (λ (c : Config). record c { database = record c.database { instance_name = v } })
  set database_name v = ok (λ (c : Config). record c { database = record c.database { name = v } })
  set database_user v = ok (λ (c : Config). record c { database = record c.database { user = v } })
  set database_password v =
      ok (λ (c : Config). record c { database = record c.database { password = v } })
  set database_app_user v =
      ok (λ (c : Config). record c { database = record c.database { app_user = v } })
  set tasks_project v = ok (λ (c : Config). record c { tasks = record c.tasks { project = v } })
  set tasks_location v = ok (λ (c : Config). record c { tasks = record c.tasks { location = v } })
  set tasks_invoker v = ok (λ (c : Config). record c { tasks = record c.tasks { invoker = v } })
  set tasks_audience v = ok (λ (c : Config). record c { tasks = record c.tasks { audience = v } })
  set service_url v = ok (λ (c : Config). record c { tasks = record c.tasks { url = v } })
  set mail_from v = ok (λ (c : Config). record c { mail = record c.mail { from = v } })
  set mail_api_key v = ok (λ (c : Config). record c { mail = record c.mail { key = v } })
  set mail_directory v = ok (λ (c : Config). record c { mail = record c.mail { directory = v } })
  set mail_webhook_token v =
      ok (λ (c : Config). record c { mail = record c.mail { webhook_token = v } })
  set audit_key v = ok (λ (c : Config). record c { audit = record c.audit { key = v } })
  set audit_local_key v = ok (λ (c : Config). record c { audit = record c.audit { local_key = v } })
  set platform_host_key v = ok (λ (c : Config). record c { platform_host = v })
  set console_host_key v = ok (λ (c : Config). record c { console_host = v })
  set seed_marketplaces_key v = ok (λ (c : Config). record c { seed_marketplaces = v })

-- Every variable, in the order in which Load reads them.
abbrev pub keys : List Key
keys =
    port_key ∷ indexable_key ∷ log_level_key ∷ providers_mode_key ∷ database_url ∷ database_instance
    ∷ database_name ∷ database_user ∷ database_password ∷ database_app_user ∷ trusted_proxy_hops
    ∷ tasks_project ∷ tasks_location ∷ tasks_invoker ∷ tasks_audience ∷ service_url
    ∷ platform_host_key ∷ console_host_key ∷ bootstrap_token_key ∷ mail_from ∷ mail_api_key
    ∷ mail_directory ∷ mail_webhook_token ∷ audit_key ∷ audit_local_key ∷ seed_marketplaces_key ∷ []

module _ (r : Readers) (lookup : Key → Option Bytes) where
  abbrev pub assign : Key → Setting → Config × List Problem → Config × List Problem
  assign key (err fault) (c, ps) = (c, ps ++ unreadable key fault ∷ [])
  assign key (ok change) (c, ps) = (change c, ps)

  abbrev pub read_value : Key → Option Bytes → Config × List Problem → Config × List Problem
  read_value key none s = s
  read_value key (some []) (c, ps) = (c, ps ++ empty key ∷ [])
  read_value key (some (b ∷ bs)) s = assign key (set r key (b ∷ bs)) s

  -- read
  unfoldable pub read : Key → Config × List Problem → Config × List Problem
  read key s = read_value key (lookup key) s

  unfoldable pub read_all : List Key → Config × List Problem → Config × List Problem
  read_all [] s = s
  read_all (key ∷ rest) s = read_all rest (read key s)

  -- What does not fit together.
  unfoldable pub problems_of : Config → List Problem
  problems_of c =
      database_problems c.database
      ++ (console_problems r c
          ++ (mail_problems c.mail c.providers_mode ++ audit_problems c.audit c.providers_mode))

  abbrev pub judged : Config → List Problem → Outcome (List Problem) Config
  judged c [] = ok c
  judged c (p ∷ ps) = err (p ∷ ps)

  -- Load
  unfoldable pub load : Outcome (List Problem) Config
  load = let (c, ps) = read_all keys (defaults, []) in judged c (ps ++ problems_of c)
