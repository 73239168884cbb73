-- ===== src/Audit/Log.antt =====
-- internal/platform/audit/log.go up to insert, and open.go: a record is appended to its chain in the
-- transaction that performs the operation, and read back with what its keys still open.
use marketplace.Base.{
  ℕ, ◌+◌, Bool, not, ◌&&◌, Option, none, some, [], ◌==◌, if◌then◌else◌, is_set, Bytes, same_bytes,
  ok, err, find, insert, update,
}
use marketplace.Crypto.{Crypto}
use marketplace.Audit.{
  Entry, Record, no_record, key_destroyed, unreadable, cannot_seal, cannot_open, is_empty, valid,
  key_for, actor_key, genesis, digest,
}
use marketplace.Audit.Keys.{
  Vault, Row, Chain, Tables, Step, ◌>>=◌, ◌>>◌, or_fail, seal_with, open_with, open_key,
}

-- What one appending draws and reads: a fresh key and a nonce for each of the two parts, and the
-- clock.
pub record Draws : Type 0 where
  pub actor_fresh : Bytes
  pub actor_nonce : Bytes
  pub subject_fresh : Bytes
  pub subject_nonce : Bytes
  pub now : ℕ

-- (*Log).seal
unfoldable pub seal : Vault → Bytes → Bytes → Bytes → Bytes → Bool → Step Bytes
seal v user fresh nonce plaintext carries =
    if carries
    then (do key ← open_key v user fresh; or_fail (seal_with v key nonce plaintext) cannot_seal)
    else (λ t. ok ([], t))

abbrev pub is_chain : Bytes → Chain → Bool
is_chain marketplace chain = same_bytes chain.marketplace marketplace

abbrev pub new_chain : Bytes → Chain
new_chain marketplace = record { marketplace = marketplace; last_hash = genesis; length = 0 }

abbrev pub open_chain : Bytes → Option Chain → Tables → Chain × Tables
open_chain marketplace (some chain) t = (chain, t)
open_chain marketplace none t = (
  new_chain marketplace,
  record t { audit_chains = insert (new_chain marketplace) t.audit_chains },
)

-- (*Log).head: the chain's row, inserted the first time.
unfoldable pub head : Bytes → Step Chain
head marketplace t = ok (open_chain marketplace (find (is_chain marketplace) t.audit_chains) t)

-- keyOf
abbrev pub key_of : Bytes → Bytes → Option Bytes
key_of sealed user = if is_empty sealed then none else some user

-- The record that Append writes behind the chain's last one.
unfoldable pub written : Crypto → Entry → ℕ → Bytes → Bytes → Chain → Record
written c e now actor_secret subject_secret chain =
    let unhashed : Record = record {
      marketplace = e.marketplace;
      sequence = chain.length + 1;
      recorded_at = now;
      actor_id = e.actor_id;
      actor_kind = e.actor_kind;
      action = e.action;
      subject_kind = e.subject_kind;
      subject_id = e.subject_id;
      actor_secret = actor_secret;
      subject_secret = subject_secret;
      previous_hash = chain.last_hash;
      hash = [];
    } in
    record unhashed { hash = digest c chain.last_hash unhashed }

-- (*Log).insert
unfoldable pub insert_row : Vault → Entry → Record → Step (Unit {0})
insert_row v e r t = ok (
  tt,
  record t {
    audit_log =
        insert
          (record {
            entry = r;
            actor_key = key_of r.actor_secret (actor_key v.platform e);
            subject_key = key_of r.subject_secret (key_for v.platform e);
          })
          t.audit_log;
  },
)

-- The UPDATE that ends Append.
unfoldable pub advance : Record → Step (Unit {0})
advance r t = ok (
  tt,
  record t {
    audit_chains =
        update (is_chain r.marketplace)
          (λ chain. record chain { last_hash = r.hash; length = r.sequence }) t.audit_chains;
  },
)

-- Append, once both parts are sealed.
unfoldable pub append_sealed : Crypto → Vault → Entry → ℕ → Bytes → Bytes → Step (Unit {0})
append_sealed c v e now actor_secret subject_secret = do
  chain ← head e.marketplace
  let r = written c e now actor_secret subject_secret chain
  insert_row v e r
  advance r

-- The two parts that Append seals.
abbrev pub seal_origin : Vault → Draws → Entry → Step Bytes
seal_origin v d e =
    seal v (actor_key v.platform e) d.actor_fresh d.actor_nonce (v.origin_json e.from)
      (not (is_empty e.from))

abbrev pub seal_state : Vault → Draws → Entry → Step Bytes
seal_state v d e =
    seal v (key_for v.platform e) d.subject_fresh d.subject_nonce (v.state_json e.before e.after)
      (not (is_empty e.before && is_empty e.after))

-- (*Log).Append
unfoldable pub append : Crypto → Vault → Draws → Entry → Step (Unit {0})
append c v d e t = elim (valid e) [
  | some refusal ↦ err refusal
  | none ↦
      (do
        actor_secret ← seal_origin v d e
        subject_secret ← seal_state v d e
        append_sealed c v e d.now actor_secret subject_secret)
        t
]

-- Opened: what a record says of the operation, and whether a part's key was destroyed.
pub record Opened : Type 0 where
  pub entry : Record
  pub from : Bytes
  pub before : Bytes
  pub after : Bytes
  pub origin_erased : Bool
  pub state_erased : Bool

-- (*Log).open: `none` says that the key is gone.
unfoldable pub open_part :
    {A : Type 0} → Vault → (Bytes → Option A) → Bytes → Bytes → Bytes → Step (Option A)
open_part v read user fresh sealed t = elim (open_key v user fresh t) [
  | err key_destroyed ↦ ok (none, t)
  | err e ↦ err e
  | ok (key, t') ↦
      (do
        plaintext ← or_fail (open_with v key sealed) cannot_open
        content ← or_fail (read plaintext) unreadable
        λ t. ok (some content, t))
        t'
]

-- The row of a sequence in a marketplace's log.
abbrev pub is_at : Bytes → ℕ → Row → Bool
is_at marketplace sequence r =
    same_bytes r.entry.marketplace marketplace && r.entry.sequence == sequence

abbrev pub user_of : Option Bytes → Bytes
user_of none = []
user_of (some user) = user

-- A part that was not written is neither read nor erased.
abbrev pub origin_of : Option Bytes → Bytes
origin_of none = []
origin_of (some from) = from

abbrev pub state_of : Option (Bytes × Bytes) → Bytes × Bytes
state_of none = ([], [])
state_of (some content) = content

abbrev pub is_erased {ℓ} : {A : Type ℓ} → Bool → Option A → Bool
is_erased written content = written && not (is_set content)

-- A part of a row, opened where it was written.
abbrev pub open_written :
    {A : Type 0} → Vault → (Bytes → Option A) → Option Bytes → Bytes → Bytes → Step (Option A)
open_written v read key fresh sealed =
    if is_empty sealed then (λ t. ok (none, t)) else open_part v read (user_of key) fresh sealed

-- What Open answers with, once both parts were opened.
abbrev pub opened : Row → Option Bytes → Option (Bytes × Bytes) → Opened
opened r origin content = record {
  entry = r.entry;
  from = origin_of origin;
  before = (state_of content).0;
  after = (state_of content).1;
  origin_erased = is_erased (not (is_empty r.entry.actor_secret)) origin;
  state_erased = is_erased (not (is_empty r.entry.subject_secret)) content;
}

-- What Open makes of a row that was found.
unfoldable pub open_row : Vault → Bytes → Row → Step Opened
open_row v fresh r = do
  origin ← open_written v v.read_origin r.actor_key fresh r.entry.actor_secret
  content ← open_written v v.read_state r.subject_key fresh r.entry.subject_secret
  λ t. ok (opened r origin content, t)

-- (*Log).Open
unfoldable pub open_record : Vault → Bytes → Bytes → ℕ → Step Opened
open_record v fresh marketplace sequence t = elim (find (is_at marketplace sequence) t.audit_log) [
  | none ↦ err no_record
  | some r ↦ open_row v fresh r t
]
