-- ===== src/Tx.antt =====
-- Transactions and flows (internal/identity/identity.go, internal/platform/db/db.go). A statement of
-- a transaction takes the tables and returns them changed, or an error, and then nothing of the
-- transaction is kept. A flow keeps what its committed transactions wrote, also when it fails.
mod Errors
pub mod Scope
pub mod After
pub mod Flows
pub use Errors.*
use marketplace.Base.{
  ℕ, Bool, true, false, Option, none, some, List, [], ◌∷◌, ◌==◌, if◌then◌else◌, Bytes, Outcome, ok,
  err, insert, ◌++◌, String, ◌≡◌, refl,
}
use marketplace.Store.{
  Db, Mail, Audit, Actor, system, staff_member, buyer_account, Detail, user_agent, name, Account,
}

abbrev pub Tx : Type 0 → Type 0
Tx A = Db → Outcome Error (A × Db)

infixl 5 ◌>>=◌ ◌>>◌
abbrev pub ◌>>=◌ : {A B : Type 0} → Tx A → (A → Tx B) → Tx B
◌>>=◌ m f db = elim (m db) [ ok (a, db') ↦ f a db' | err e ↦ err e ]

abbrev pub ◌>>◌ : {A B : Type 0} → Tx A → Tx B → Tx B
m >> k = m >>= λ _. k

abbrev pub pure : {A : Type 0} → A → Tx A
pure a db = ok (a, db)

abbrev pub fail : {A : Type 0} → Error → Tx A
fail e db = err e

abbrev pub gets : {A : Type 0} → (Db → A) → Tx A
gets f db = ok (f db, db)

abbrev pub modify : (Db → Db) → Tx (Unit {0})
modify f db = ok (tt, f db)

abbrev pub or_fail : {A : Type 0} → Option A → Error → Tx A
or_fail none e = fail e
or_fail (some a) e = pure a

-- The request that a flow runs for (Visit).
pub record Visit : Type 0 where
  pub marketplace : ℕ
  pub platform : Bool
  pub marketplace_name : Bytes
  pub language : Bytes
  pub ip : Bytes
  pub user_agent : Bytes
  pub base_url : Bytes

-- Every scope's tables, 0 the platform's, and the process's memory of its last sweep.
pub record World : Type 0 where
  pub scopes : ℕ → Db
  pub last_sweep : ℕ

abbrev pub Flow : Type 0 → Type 0
Flow A = World → Outcome Error A × World

-- What a transaction of one scope leaves: its tables when it commits, and nothing otherwise.
commit : {A : Type 0} → ℕ → World → Outcome Error (A × Db) → Outcome Error A × World
commit scope w (ok (a, db)) =
    (ok a, record w { scopes = λ s. if s == scope then db else w.scopes s })
commit scope w (err e) = (err e, w)

-- (*Service).within over db.Pool's InTx and InTxFor.
unfoldable pub within : {A : Type 0} → Visit → Tx A → Flow A
unfolding commit
within v f w =
    if v.platform
    then if v.marketplace == 0 then commit 0 w (f (w.scopes 0)) else (err visit_scope, w)
    else if v.marketplace == 0
    then (err marketplace_missing, w)
    else commit v.marketplace w (f (w.scopes v.marketplace))

-- The actor of an account's own act (Visit.actorKind).
abbrev actor_of : Visit → ℕ → Actor
actor_of v account = if v.platform then staff_member account else buyer_account account

-- (*Service).recordWith: the account is the actor, the subject and the person.
unfoldable pub record_with : Visit → ℕ → String → List Detail → Tx (Unit {0})
record_with v account action details = modify λ db. record db {
  audit =
      insert
        (record {
          marketplace = v.marketplace;
          actor = actor_of v account;
          action = action;
          subject = account;
          person = account;
          from = v.ip;
          details = Detail.user_agent v.user_agent ∷ details;
        })
        db.audit;
}

-- (*Service).refusalWith: the platform is the actor, the account only the subject.
unfoldable pub refusal_with : Visit → ℕ → String → List Detail → Tx (Unit {0})
refusal_with v account action details = modify λ db. record db {
  audit =
      insert
        (record {
          marketplace = v.marketplace;
          actor = system;
          action = action;
          subject = account;
          person = 0;
          from = v.ip;
          details = Detail.user_agent v.user_agent ∷ details;
        })
        db.audit;
}

-- mail.Request: the message is written into the outbox by the transaction that asks for it.
unfoldable pub request : Visit → String → Bytes → List Detail → Tx (Unit {0})
request v template to variables = modify λ db. record db {
  outbox =
      insert
        (record {
          template = template;
          language = v.language;
          to = to;
          from = v.marketplace_name;
          marketplace = v.marketplace;
          variables = variables;
        })
        db.outbox;
}

-- notify.go
unfoldable pub notify : Visit → Account → String → List Detail → Tx (Unit {0})
unfolding request
notify v account template variables =
    request v template account.email (Detail.name account.name ∷ variables)
