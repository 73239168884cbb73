-- ===== src/Crypto.antt =====
-- The primitives that internal/identity calls and does not implement: SHA-256 (crypto/sha256),
-- HMAC-SHA-1 (crypto/hmac with crypto/sha1) and the text of a database identifier. They are a
-- parameter of the definitions that use them.
mod Decimal
unfoldable pub use Decimal.*
use marketplace.Base.{ℕ, Bytes}

pub record Crypto : Type 0 where
  pub sha256 : Bytes → Bytes
  -- the key, then the message
  pub hmac_sha1 : Bytes → Bytes → Bytes
  -- the bytes of an identifier's text form
  pub id_text : ℕ → Bytes
