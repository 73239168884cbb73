-- ===== src/Service.antt =====
-- What internal/identity calls and does not implement, as one parameter of its flows (the fields of
-- Service in identity.go): the primitives of Crypto, the sealing of secrets (Sealer in factors.go),
-- the WebAuthn library (key.go), argon2id and NFKC (password.go), the breach check, and the parser
-- of addresses (net/mail).
use marketplace.Base.{ℕ, Bool, Option, List, Bytes}
use marketplace.Crypto.{Crypto}
use marketplace.Store.{Factor}

-- `none` is the error of SealFor and OpenFor. The number is the person's account.
pub record Sealer : Type 0 where
  pub seal_for : ℕ → Bytes → Option Bytes
  pub open_for : ℕ → Bytes → Option Bytes

-- What ValidateLogin gives back: the credential, its new counter and flags, the counter that was
-- presented, and whether it fell.
pub record KeyLogin : Type 0 where
  pub credential_id : Bytes
  pub sign_count : ℕ
  pub flags : ℕ
  pub presented : ℕ
  pub clone_warning : Bool

pub record Service : Type 0 where
  pub crypto : Crypto
  pub sealer : Option Sealer
  -- relyingParty succeeds for the visit's address
  pub has_host : Bytes → Bool
  -- ParseCredentialRequestResponseBytes
  pub parse_login : Bytes → Option Bytes
  -- json.Unmarshal of a stored ceremony
  pub read_ceremony : Bytes → Option Bytes
  -- ValidateLogin: the keys, the ceremony and the answer
  pub validate_login : List Factor → Bytes → Bytes → Option KeyLogin
  -- norm.NFKC
  pub normalise : Bytes → Bytes
  -- (*Hasher).Verify on a password and a stored hash: whether it matches, and whether the hash was
  -- made with other parameters
  pub verify : Bytes → Bytes → Option (Bool × Bool)
  -- (*Hasher).Hash, with a fresh salt
  pub hash_password : Bytes → Bytes → Bytes
  -- Breached: `none` when the check could not run
  pub breached : Bytes → Option Bool
  -- mail.ParseAddress: the name and the address
  pub parse_address : Bytes → Option (Bytes × Bytes)
  -- unicode.ToLower of a code point outside ASCII
  pub lower_other : ℕ → ℕ
