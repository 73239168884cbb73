-- ===== src/Audit.antt =====
-- internal/platform/audit/audit.go: a record of the audit trail, what its hash covers, and what an
-- entry must say. An identifier is the bytes of its text, empty for none (NULL in the database); a
-- moment is in microseconds since 1970.
pub mod Keys
pub mod Log
pub mod Verify
pub mod Digest
pub mod Tampering
pub mod Sorted
pub mod Whole
pub mod Appending
pub mod Written
pub mod Erasure
use marketplace.Base.{
  ℕ, zero, suc, ◌+◌, ◌/◌, ◌%◌, Bool, true, false, not, ◌&&◌, Option, none, some, List, [], ◌∷◌,
  ◌++◌, if◌then◌else◌, Bytes, same_bytes, length,
}
use marketplace.Crypto.{Crypto}

abbrev pub is_empty : Bytes → Bool
is_empty [] = true
is_empty (_ ∷ _) = false

-- Kind: the text "system"
abbrev pub system_kind : Bytes
system_kind = b's' ∷ b'y' ∷ b's' ∷ b't' ∷ b'e' ∷ b'm' ∷ []

-- Actor, Subject and Entry; a state that is absent is empty.
pub record Entry : Type 0 where
  pub marketplace : Bytes
  pub actor_id : Bytes
  pub actor_kind : Bytes
  pub action : Bytes
  pub subject_kind : Bytes
  pub subject_id : Bytes
  pub person : Bytes
  pub from : Bytes
  pub before : Bytes
  pub after : Bytes

-- A row, as it is written and as it is read back for verification.
pub record Record : Type 0 where
  pub marketplace : Bytes
  pub sequence : ℕ
  pub recorded_at : ℕ
  pub actor_id : Bytes
  pub actor_kind : Bytes
  pub action : Bytes
  pub subject_kind : Bytes
  pub subject_id : Bytes
  pub actor_secret : Bytes
  pub subject_secret : Bytes
  pub previous_hash : Bytes
  pub hash : Bytes

-- The errors that the package returns.
pub data Refusal : Type 0 where
  action_missing subject_kind_missing actor_kind_missing actor_id_missing : Refusal
  key_destroyed keeper_failed cannot_seal cannot_open unreadable : Refusal
  no_record not_personal platform_key_kept : Refusal

-- The last `width` bytes of a number, the highest first (binary.BigEndian).
unfoldable pub big_endian : ℕ → ℕ → Bytes
big_endian zero n = []
big_endian (suc width) n = big_endian width (n / 256) ++ (n % 256) ∷ []

-- `number` of digest
abbrev pub number : ℕ → Bytes
number n = big_endian 8 n

-- `write` of digest: the length, then the value.
abbrev pub field : Bytes → Bytes
field value = number (length value) ++ value

-- The bytes that digest hashes, in the order in which it writes them.
unfoldable pub digest_input : Bytes → Record → Bytes
digest_input previous r =
    field previous
    ++ (field r.marketplace
        ++ (number r.sequence
            ++ (number r.recorded_at
                ++ (field r.actor_id
                    ++ (field r.actor_kind
                        ++ (field r.action
                            ++ (field r.subject_kind
                                ++ (field r.subject_id
                                    ++ (field r.actor_secret
                                        ++ (field r.subject_secret ++ []))))))))))

unfoldable pub digest : Crypto → Bytes → Record → Bytes
digest c previous r = c.sha256 (digest_input previous r)

zeros : ℕ → Bytes
zeros zero = []
zeros (suc n) = 0 ∷ zeros n

-- Genesis
unfoldable pub genesis : Bytes
unfolding zeros
genesis = zeros 32

-- (Entry).valid: `none` is no error.
unfoldable pub valid : Entry → Option Refusal
valid e =
    if is_empty e.action
    then some action_missing
    else if is_empty e.subject_kind
    then some subject_kind_missing
    else if is_empty e.actor_kind
    then some actor_kind_missing
    else if not (same_bytes e.actor_kind system_kind) && is_empty e.actor_id
    then some actor_id_missing
    else none

-- (Entry).keyFor, over the identifier Platform
unfoldable pub key_for : Bytes → Entry → Bytes
key_for platform e =
    if not (is_empty e.person)
    then e.person
    else if not (is_empty e.actor_id)
    then e.actor_id
    else platform

-- (Entry).actorKey
unfoldable pub actor_key : Bytes → Entry → Bytes
actor_key platform e = if not (is_empty e.actor_id) then e.actor_id else platform
