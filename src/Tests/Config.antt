-- ===== src/Tests/Config.antt =====
-- The theorems on the configuration at concrete environments.
use marketplace.Base.{
  ◌-◌, ◌≡◌, inr, refl, Option, some, none, List, [], ◌∷◌, Bytes, ok, err, same_bytes,
}
use marketplace.Credentials.{trim_space, trim_right, trim_left}
use marketplace.Config.{
  ℤ, pos, Key, Config, Problem, unreadable, out_of_range, Readers, database_url, port_key,
  console_host_key, platform_host_key, mail_from, database_problems, configured, mail_problems,
  audit_problems, console_problems, trim_dot,
}
use marketplace.Config.Loading.{defaults, set, read, read_all, problems_of, load}
use marketplace.Config.Valid.{IsInRange, IsReached, IsEquipped, IsApart}
use marketplace.Config.Accepted.{load-IsValid}
use marketplace.Config.Complaints.{HasProblem, load-reports}

-- A number is one digit here.
abbrev digit_of : Bytes → Option ℤ
digit_of (c ∷ []) = some (pos (c - 48))
digit_of _ = none

abbrev some_readers : Readers
some_readers = record {
  atoi = digit_of;
  parse_bool = λ v. none;
  level = λ v. none;
  to_lower = λ v. v;
}

-- A console beside the platform, a database, and the port 8.
abbrev an_environment : Key → Option Bytes
an_environment port_key = some (b'8' ∷ [])
an_environment database_url = some (b'u' ∷ [])
an_environment platform_host_key = some (b'p' ∷ [])
an_environment console_host_key = some (b'c' ∷ b'.' ∷ b'p' ∷ [])
an_environment _ = none

abbrev a_config : Config
a_config = record defaults {
  port = 8;
  database = record defaults.database { url = b'u' ∷ [] };
  platform_host = b'p' ∷ [];
  console_host = b'c' ∷ b'.' ∷ b'p' ∷ [];
}

loaded : load some_readers an_environment ≡ ok a_config
unfolding load read_all read set problems_of database_problems configured mail_problems
    audit_problems console_problems trim_dot trim_space trim_right trim_left same_bytes
loaded = refl

load-IsValid_example :
    IsInRange a_config
    × IsReached a_config.database
    × IsEquipped a_config
    × IsApart some_readers a_config
load-IsValid_example = load-IsValid some_readers an_environment a_config loaded

-- The port is not one, and the sender is set to nothing.
abbrev a_wrong_environment : Key → Option Bytes
a_wrong_environment port_key = some (b'0' ∷ [])
a_wrong_environment mail_from = some []
a_wrong_environment _ = none

port_refused : set some_readers port_key (b'0' ∷ []) ≡ err out_of_range
unfolding set
port_refused = refl

load-reports_example :
    (all : List Problem) × (load some_readers a_wrong_environment ≡ err all)
    × HasProblem (unreadable port_key out_of_range) all
load-reports_example =
    load-reports some_readers a_wrong_environment port_key (unreadable port_key out_of_range)
      (inr (b'0', [], out_of_range, refl, port_refused, refl))
