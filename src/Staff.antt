-- ===== src/Staff.antt =====
-- internal/staff: staff.go and bootstrap.go. The first run creates the owner, with the token of this
-- deployment; an account may do in the console what its roles say. subtle.ConstantTimeCompare is an
-- equality. A statement of a transaction succeeds, but for the index that allows one owner role.
pub mod Claims
pub mod FirstRun
use marketplace.Base.{
  ℕ, ◌+◌, Bool, true, false, not, ◌&&◌, ◌||◌, Option, none, some, List, [], ◌∷◌, ◌==◌,
  if◌then◌else◌, Bytes, is_set, same_bytes, find, insert, Outcome, ok, err,
}
use marketplace.Store.{Db, RoleRow, UserRole, BootstrapRow, Detail, owner_role}
use marketplace.Service.{Service}
use marketplace.Accounts.{create_staff}
use marketplace.Tx.{
  Error, outside, address_taken, setup_closed, token_wrong, Tx, Flow, Visit, World, ◌>>=◌, ◌>>◌,
  pure, fail, gets, modify, record_with,
}

-- EXISTS (SELECT 1 FROM user_role u JOIN role r ON r.id = u.role_id WHERE … AND r.owner)
abbrev pub is_owner_role : ℕ → RoleRow → Bool
is_owner_role id r = r.id == id && r.owner

abbrev pub holds_owner : List RoleRow → UserRole → Bool
holds_owner roles u = is_set (find (is_owner_role u.role) roles)

abbrev pub owns : ℕ → List RoleRow → UserRole → Bool
owns account roles u = u.account == account && holds_owner roles u

-- isOwner
unfoldable pub is_owner : ℕ → Db → Bool
is_owner account db = is_set (find (owns account db.roles) db.user_roles)

-- ownerExists
unfoldable pub owner_exists : Db → Bool
owner_exists db =
    is_set (find (λ (b : BootstrapRow). true) db.bootstrap)
    || is_set (find (holds_owner db.roles) db.user_roles)

-- Permission, and (Owners).Allows
pub data Permission : Type 0 where
  console_view console_version : Permission

unfoldable pub allows : ℕ → Permission → Option ℕ → World → Bool
allows account permission marketplace w = is_owner account (w.scopes 0)

-- Bootstrap: the token's hash and whether there is one.
pub record Bootstrap : Type 0 where
  pub hash : Bytes
  pub set : Bool

abbrev pub is_blank : Bytes → Bool
is_blank [] = true
is_blank (_ ∷ _) = false

-- NewBootstrap
unfoldable pub new_bootstrap : Service → Bytes → Bootstrap
new_bootstrap s token = record { hash = s.crypto.sha256 token; set = not (is_blank token) }

-- (*Bootstrap).Open
unfoldable pub is_open : Bootstrap → World → Bool
is_open b w = if not b.set then false else not (owner_exists (w.scopes 0))

-- INSERT INTO role … RETURNING id, under role_one_owner
unfoldable pub insert_owner_role : Tx ℕ
insert_owner_role db =
    if is_set (find (λ (r : RoleRow). r.owner) db.roles)
    then err outside
    else ok (
      db.next_id,
      record db {
        next_id = db.next_id + 1;
        roles = insert (record { id = db.next_id; name = "owner"; owner = true }) db.roles;
      },
    )

-- INSERT INTO bootstrap … ON CONFLICT (singleton) DO NOTHING, and whether a row was written
unfoldable pub insert_bootstrap : BootstrapRow → Tx Bool
insert_bootstrap row db =
    if is_set (find (λ (b : BootstrapRow). true) db.bootstrap)
    then ok (false, db)
    else ok (true, record db { bootstrap = insert row db.bootstrap })

-- The rest of claim, once the first run is its own.
unfoldable pub make_owner : Visit → ℕ → ℕ → Tx (Unit {0})
make_owner v now account = do
  role ← insert_owner_role
  modify λ db. record db {
    user_roles =
        insert
          (record {
            account = account;
            role = role;
            marketplace = none;
            assigned_by = none;
            assigned_at = now;
          })
          db.user_roles;
  }
  record_with v account "staff.owner_created" (owner_role role ∷ [])

-- (*Bootstrap).claim
unfoldable pub claim : Bootstrap → Visit → ℕ → ℕ → Tx (Unit {0})
claim b v now account = do
  written ← insert_bootstrap (record { token_hash = b.hash; used_at = now; owner = account })
  if not written then fail setup_closed else make_owner v now account

abbrev pub is_taken : Error → Bool
is_taken address_taken = true
is_taken _ = false

-- What Setup does with an address that is taken.
abbrev pub taken_or : Bootstrap → Outcome Error Bytes × World → Outcome Error Bytes × World
taken_or b (ok session, w) = (ok session, w)
taken_or b (err e, w) =
    if is_taken e && not (is_open b w) then (err setup_closed, w) else (err e, w)

-- What a first run is asked with: the visit, the form, and what is drawn for it.
pub record Form : Type 0 where
  pub visit : Visit
  pub token : Bytes
  pub name : Bytes
  pub email : Bytes
  pub typed : Bytes
  pub salt : Bytes
  pub session : Bytes
  pub now : ℕ

-- (*Bootstrap).Setup: `seen` is the world that Open reads, before the transaction of CreateStaff.
unfoldable pub setup_seen : Service → Bootstrap → Form → World → Flow Bytes
setup_seen s b f seen w =
    if not (is_open b seen)
    then (err setup_closed, w)
    else if not (same_bytes (s.crypto.sha256 f.token) b.hash)
    then (err token_wrong, w)
    else taken_or b (
        create_staff s f.visit f.name f.email f.typed f.salt f.session (claim b f.visit f.now) f.now
          w)

unfoldable pub setup : Service → Bootstrap → Form → Flow Bytes
setup s b f w = setup_seen s b f w w
