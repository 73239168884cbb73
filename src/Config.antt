-- ===== src/Config.antt =====
-- internal/platform/config/config.go: the configuration of a process, read from its environment. A
-- variable is named by a constructor in the place of its text, a problem by what it says of which
-- variable. The readers of the standard library and the case of letters are parameters; the number
-- behind slog.Level is LogLevel.
pub mod Loading
pub mod Valid
pub mod Accepted
pub mod Complaints
use marketplace.Base.{
  ℕ, ◌≡◌, Bool, true, false, not, ◌&&◌, ◌||◌, Option, none, some, List, [], ◌∷◌, ◌++◌,
  if◌then◌else◌, Bytes, length, ltb, leb, Outcome, ok, err, same_bytes,
}
use marketplace.Credentials.{is_nil, trim_space}

-- A Go int.
pub data ℤ : Type 0 where
  pos negsuc : ℕ → ℤ

pub data ProvidersMode : Type 0 where
  fake_providers real_providers : ProvidersMode

-- Database
pub record Database : Type 0 where
  pub url : Bytes
  pub instance_name : Bytes
  pub name : Bytes
  pub user : Bytes
  pub password : Bytes
  pub app_user : Bytes

-- Tasks
pub record Tasks : Type 0 where
  pub project : Bytes
  pub location : Bytes
  pub url : Bytes
  pub invoker : Bytes
  pub audience : Bytes

-- Mail
pub record Mail : Type 0 where
  pub from : Bytes
  pub key : Bytes
  pub directory : Bytes
  pub webhook_token : Bytes

-- Audit
pub record Audit : Type 0 where
  pub key : Bytes
  pub local_key : Bytes

-- Config. A proxy count that is stored is not negative, nor is a port.
pub record Config : Type 0 where
  pub port : ℕ
  pub indexable : Bool
  pub log_level : ℤ
  pub providers_mode : ProvidersMode
  pub database : Database
  pub platform_host : Bytes
  pub console_host : Bytes
  pub bootstrap_token : Bytes
  pub proxy_hops : ℕ
  pub tasks : Tasks
  pub mail : Mail
  pub audit : Audit
  pub seed_marketplaces : Bytes

-- The variables.
pub data Key : Type 0 where
  port_key indexable_key log_level_key providers_mode_key : Key
  database_url database_instance database_name database_user database_password : Key
  database_app_user trusted_proxy_hops : Key
  tasks_project tasks_location tasks_invoker tasks_audience service_url : Key
  platform_host_key console_host_key bootstrap_token_key : Key
  mail_from mail_api_key mail_directory mail_webhook_token : Key
  audit_key audit_local_key seed_marketplaces_key : Key

-- What is wrong with a value.
pub data Fault : Type 0 where
  not_number out_of_range not_boolean not_level not_mode not_count too_short : Fault

pub data Problem : Type 0 where
  empty : Key → Problem
  unreadable : Key → Fault → Problem
  -- set together
  both : Key → Key → Problem
  -- the first is set, or is real, and the second is not
  lacks_with : Key → Key → Problem
  -- set without a database
  unused : Key → Problem
  same_host : Problem

pub record Readers : Type 0 where
  pub atoi : Bytes → Option ℤ
  pub parse_bool : Bytes → Option Bool
  pub level : Bytes → Option ℤ
  pub to_lower : Bytes → Bytes

-- Configured
unfoldable pub configured : Database → Bool
configured d = not (is_nil d.url) || not (is_nil d.instance_name)

unfoldable pub tasks_configured : Tasks → Bool
tasks_configured t =
    not (is_nil t.project)
    && not (is_nil t.location)
    && not (is_nil t.url)
    && not (is_nil t.invoker)

abbrev pub min_bootstrap_token : ℕ
min_bootstrap_token = 32

abbrev pub max_port : ℕ
max_port = 65535

abbrev pub problem_if : Bool → Problem → List Problem
problem_if false p = []
problem_if true p = p ∷ []

-- (Database).problems: the code ranges over a map, so the unused ones come in any order.
unfoldable pub database_problems : Database → List Problem
database_problems d =
    problem_if (not (is_nil d.url) && not (is_nil d.instance_name))
      (both database_url database_instance)
    ++ (problem_if (not (is_nil d.instance_name) && is_nil d.name)
          (lacks_with database_instance database_name)
        ++ (problem_if (not (is_nil d.instance_name) && is_nil d.user)
              (lacks_with database_instance database_user)
            ++ (problem_if (not (configured d) && not (is_nil d.name)) (unused database_name)
                ++ (problem_if (not (configured d) && not (is_nil d.user)) (unused database_user)
                    ++ (problem_if (not (configured d) && not (is_nil d.password))
                          (unused database_password)
                        ++ problem_if (not (configured d) && not (is_nil d.app_user))
                            (unused database_app_user))))))

unfoldable pub mail_problems : Mail → ProvidersMode → List Problem
mail_problems m fake_providers = []
mail_problems m real_providers =
    problem_if (is_nil m.key) (lacks_with providers_mode_key mail_api_key)
    ++ problem_if (is_nil m.from) (lacks_with providers_mode_key mail_from)

unfoldable pub audit_problems : Audit → ProvidersMode → List Problem
audit_problems a fake_providers = []
audit_problems a real_providers =
    if is_nil a.key
    then lacks_with providers_mode_key audit_key ∷ []
    else problem_if (not (is_nil a.local_key)) (both audit_key audit_local_key)

-- strings.TrimSuffix(host, ".")
unfoldable pub trim_dot : Bytes → Bytes
trim_dot [] = []
trim_dot (c ∷ []) = if same_bytes (c ∷ []) (b'.' ∷ []) then [] else c ∷ []
trim_dot (c ∷ d ∷ cs) = c ∷ trim_dot (d ∷ cs)

module _ (r : Readers) where
  abbrev pub host_name : Bytes → Bytes
  host_name host = trim_dot (r.to_lower (trim_space host))

  unfoldable pub console_problems : Config → List Problem
  console_problems c =
      if is_nil c.console_host
      then problem_if (not (is_nil c.bootstrap_token))
          (lacks_with bootstrap_token_key console_host_key)
      else problem_if (same_bytes (host_name c.console_host) (host_name c.platform_host)) same_host
