-- ===== src/Tests/Data.antt =====
-- The data of the tests: a service whose primitives are concrete functions, a marketplace's tables
-- with a buyer who has an app, and what a transaction that ran left.
use marketplace.Base.{ℕ, ◌*◌, ◌+◌, true, false, none, some, [], ◌∷◌, Bytes, Outcome, ok, err}
use marketplace.Crypto.{Crypto}
use marketplace.Policy.{buyer, Method, app, factors}
use marketplace.Totp.{second}
use marketplace.Store.{Db, Account, Factor, Challenge}
use marketplace.Service.{Service, Sealer}
use marketplace.Challenge.{Answer}
use marketplace.Answering.{Session}
use marketplace.Tx.{Error, Visit, World}

abbrev pub zeros : Bytes
zeros = 0 ∷ 0 ∷ 0 ∷ 0 ∷ 0 ∷ 0 ∷ 0 ∷ 0 ∷ 0 ∷ 0 ∷ 0 ∷ 0 ∷ 0 ∷ 0 ∷ 0 ∷ 0 ∷ 0 ∷ 0 ∷ 0 ∷ 0 ∷ []

abbrev pub six_zeros : Bytes
six_zeros = (b'0' ∷ b'0' ∷ b'0' ∷ b'0' ∷ b'0' ∷ b'0' ∷ [])

abbrev pub some_token : Bytes
some_token = b't' ∷ []

abbrev pub fresh_token : Bytes
fresh_token = b'f' ∷ []

abbrev pub newer_token : Bytes
newer_token = b'n' ∷ []

abbrev pub some_crypto : Crypto
some_crypto = record {
  sha256 = λ text. text;
  hmac_sha1 = λ key text. zeros;
  id_text = λ id. id ∷ [];
}

abbrev pub some_sealer : Sealer
some_sealer = record { seal_for = λ account text. some text; open_for = λ account text. some text }

abbrev pub some_service : Service
some_service = record {
  crypto = some_crypto;
  sealer = some some_sealer;
  has_host = λ url. true;
  parse_login = λ text. none;
  read_ceremony = λ text. some text;
  validate_login = λ keys ceremony text. none;
  normalise = λ text. text;
  verify = λ text secret. some (true, false);
  hash_password = λ salt text. text;
  breached = λ text. some false;
  parse_address = λ text. some ([], text);
  lower_other = λ point. point;
}

abbrev pub some_visit : Visit
some_visit = record {
  marketplace = 7;
  platform = false;
  marketplace_name = (b'S' ∷ b'h' ∷ b'o' ∷ []);
  language = (b'e' ∷ b'n' ∷ []);
  ip = (b'1' ∷ b'9' ∷ b'2' ∷ []);
  user_agent = (b'B' ∷ b'r' ∷ b'o' ∷ []);
  base_url = (b'h' ∷ b't' ∷ b't' ∷ []);
}

abbrev pub ana : Account
ana = record {
  id = 1;
  kind = buyer;
  email = (b'a' ∷ b'n' ∷ b'a' ∷ []);
  normalised = (b'a' ∷ b'n' ∷ b'a' ∷ []);
  name = (b'A' ∷ b'n' ∷ b'a' ∷ []);
  verified_at = some 5;
}

abbrev pub her_app : Factor
her_app = record {
  id = 3;
  account = 1;
  method = app;
  label = (b'P' ∷ b'h' ∷ b'o' ∷ []);
  secret = (b's' ∷ b'e' ∷ b'c' ∷ []);
  last_step = some 0;
  credential_id = [];
  public_key = [];
  sign_count = 0;
  flags = 0;
  created_at = 5;
  last_used_at = none;
}

abbrev pub some_db : Db
some_db = record {
  next_id = 10;
  accounts = ana ∷ [];
  credentials = record { account = 1; secret = (b'h' ∷ b'a' ∷ b's' ∷ []) } ∷ [];
  verifications = [];
  sessions = [];
  second_factors = her_app ∷ [];
  recovery_codes =
      record { account = 1; code_hash = 1 ∷ (b'C' ∷ b'O' ∷ b'D' ∷ []); used_at = none } ∷ [];
  enrolments = [];
  challenges = [];
  email_codes = [];
  failures = record { account = 1; failures = 9 } ∷ [];
  roles = [];
  user_roles = [];
  bootstrap = [];
  outbox = [];
  audit = [];
}

abbrev pub some_world : World
some_world = record { scopes = λ scope. some_db; last_sweep = 0 }

abbrev pub noon : ℕ
noon = 90 * second

abbrev pub some_session : Session
some_session = record {
  id = 4;
  account = ana;
  second_factor = true;
  stepped_up_at = none;
  email_confirmed_at = some noon;
}

abbrev pub step_up_challenge : Challenge
step_up_challenge = record {
  hash = some_token;
  account = 1;
  session = 4;
  action = factors;
  attempts = 0;
  ceremony = [];
  expires_at = noon + noon;
  used_at = none;
}

abbrev pub answer_by : Method → Answer
answer_by method = record { method = method; code = six_zeros; key = [] }

-- The tables that a transaction left.
abbrev pub left_by : {A : Type 0} → Outcome Error (A × Db) → Db
left_by (ok (a, db)) = db
left_by (err e) = some_db
