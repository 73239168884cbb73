-- ===== src/Staff/Claims.antt =====
-- internal/staff/bootstrap.go: what the transaction of a first run leaves.
use marketplace.Base.{
  ℕ, ◌≡◌, refl, sym, ◌∙◌, Bool, true, false, ◌&&◌, not, [], ◌∷◌, ◌==◌, arith, Bytes, is_set,
  is_set-insert, delete, find, insert, Outcome, ok, err, Bool-cases, inl, inr, same_bytes,
  same_bytes_refl, if◌then◌else◌,
}
use marketplace.Credentials.{trim_space}
use marketplace.Policy.{UserKind, staff}
use marketplace.Store.{Db, Account, Credential, RoleRow, BootstrapRow, SessionRow}
use marketplace.Service.{Service}
use marketplace.AccountStore.{insert_staff, set_password, insert_session, is_held}
use marketplace.Accounts.{create_staff_tx, staff_inserted, sign_staff_in}
use marketplace.Tx.{Error, Visit, fail, setup_closed, record_with}
use marketplace.Tx.After.{After, After-bind, After-map}
use marketplace.Staff.{
  Bootstrap, is_owner, is_owner_role, owns, insert_owner_role, insert_bootstrap, make_owner, claim,
}

-- The row that the first run of an account leaves.
abbrev pub first_row : Bootstrap → ℕ → ℕ → BootstrapRow
first_row b now account = record { token_hash = b.hash; used_at = now; owner = account }

-- The first run is done: nobody was before, and the account is the owner.
abbrev pub IsFirst : Bootstrap → ℕ → ℕ → Db → Db → Type 0
IsFirst b now account db db' =
    (db.bootstrap ≡ [])
    × (db'.bootstrap ≡ first_row b now account ∷ [])
    × (is_owner account db' ≡ true)

abbrev is_staff : UserKind → Bool
is_staff staff = true
is_staff _ = false

-- The rows of an account: one of the staff with the address, and one of its password.
abbrev pub is_staff_of : ℕ → Bytes → Account → Bool
is_staff_of account email a = (a.id == account) && is_staff a.kind && same_bytes a.email email

abbrev pub is_password_of : ℕ → Bytes → Credential → Bool
is_password_of account secret r = (r.account == account) && same_bytes r.secret secret

-- A table whose accounts and passwords are those of another.
abbrev Kept : Db → Db → Type 0
Kept db db' = (db'.accounts ≡ db.accounts) × (db'.credentials ≡ db.credentials)

insert_staff-IsInserted :
    (email normalised name : Bytes) (now : ℕ) (db : Db)
    → After
        (λ id db'.
          (db'.bootstrap ≡ db.bootstrap)
          × (is_set (find (is_staff_of id email) db'.accounts) ≡ true))
        (insert_staff email normalised name now db)
unfolding insert_staff
insert_staff-IsInserted email normalised name now db =
    elim (Bool-cases
      (is_set (find (λ (a : Account). same_bytes a.normalised normalised) db.accounts))) [
        | inl taken ↦ rw taken tt
        | inr free ↦ rw free (
          refl,
          is_set-insert (is_staff_of db.next_id email) _ db.accounts
              (inr (ground (arith, same_bytes_refl email))),
        )
      ]

insert_owner_role-owner :
    (db : Db)
    → After
        (λ role mid.
          (mid.bootstrap ≡ db.bootstrap)
          × Kept db mid
          × (is_set (find (is_owner_role role) mid.roles) ≡ true))
        (insert_owner_role db)
unfolding insert_owner_role
insert_owner_role-owner db = elim (Bool-cases (is_set (find (λ (r : RoleRow). r.owner) db.roles))) [
  | inl there ↦ rw there tt
  | inr free ↦
      rw free (
        refl,
        (refl, refl),
        is_set-insert (is_owner_role db.next_id) _ db.roles (inr (ground arith)),
      )
]

-- The owner's role and its assignment.
make_owner-is_owner :
    (v : Visit) (now account : ℕ) (db : Db)
    → After
        (λ t db'. (db'.bootstrap ≡ db.bootstrap) × Kept db db' × (is_owner account db' ≡ true))
        (make_owner v now account db)
unfolding make_owner is_owner record_with
make_owner-is_owner v now account db =
    After-bind _ _ insert_owner_role _ db (insert_owner_role-owner db) λ role mid h.
      let (same, kept, owner) = h in
      (
        same,
        kept,
        is_set-insert (owns account mid.roles) _ mid.user_roles (inr (ground (arith, owner))),
      )

insert_bootstrap-once :
    (row : BootstrapRow) (db : Db)
    → After
        (λ written mid.
          (written ≡ true → (db.bootstrap ≡ []) × (mid.bootstrap ≡ row ∷ [])) × Kept db mid)
        (insert_bootstrap row db)
unfolding insert_bootstrap find insert
insert_bootstrap-once row db =
    elim (db.bootstrap)
      as (λ rows.
        After
          (λ written mid. (written ≡ true → (rows ≡ []) × (mid.bootstrap ≡ row ∷ [])) × Kept db mid)
          (insert_bootstrap row (record db { bootstrap = rows }))) [
            | [] ↦ (λ h. (refl, refl), (refl, refl))
            | r ∷ rows ↦ (λ h. absurd cc, (refl, refl))
          ]

claim-IsFirst :
    (b : Bootstrap) (v : Visit) (now account : ℕ) (db : Db)
    → After (λ t db'. IsFirst b now account db db' × Kept db db') (claim b v now account db)
unfolding claim
claim-IsFirst b v now account db =
    After-bind _ _ (insert_bootstrap (first_row b now account)) _ db
      (insert_bootstrap-once (first_row b now account) db)
      λ written mid (once, written_kept).
        elim written
            as (λ w.
              (w ≡ true → (db.bootstrap ≡ []) × (mid.bootstrap ≡ first_row b now account ∷ []))
              → After (λ t db'. IsFirst b now account db db' × Kept db db')
                  ((if not w then fail setup_closed else make_owner v now account) mid)) [
                    | false ↦ λ h. tt
                    | true ↦ λ h.
                        After-map _ _ (make_owner v now account mid)
                          (make_owner-is_owner v now account mid)
                          λ t db' k.
                            let (same, kept, owner) = k in
                            (
                              ((h refl).0, same ∙ (h refl).1, owner),
                              (kept.0 ∙ written_kept.0, kept.1 ∙ written_kept.1),
                            )
                  ]
          once

-- The session of a token is the account's.
abbrev pub is_session_of : ℕ → Bytes → SessionRow → Bool
is_session_of account hash r = r.account == account && is_held hash r

abbrev pub IsSignedIn : ℕ → Bytes → Db → Type 0
IsSignedIn account hash db = is_set (find (is_session_of account hash) db.sessions) ≡ true

-- What the transaction of a first run leaves where it commits: the token, an account of the staff with
-- the address and the password's hash, which is the owner, and its session.
abbrev pub IsMade : Service → Bootstrap → Bytes → Bytes → Bytes → ℕ → Db → Bytes → Db → Type 0
IsMade s b email secret token now db t db' =
    (t ≡ token)
    × ((account : ℕ) × IsFirst b now account db db'
        × (is_set (find (is_staff_of account email) db'.accounts) ≡ true)
        × (is_set (find (is_password_of account secret) db'.credentials) ≡ true)
        × IsSignedIn account (s.crypto.sha256 token) db')

sign_staff_in-IsMade :
    (s : Service) (b : Bootstrap) (v : Visit) (email secret token : Bytes) (now account : ℕ)
    (before db : Db)
    → IsFirst b now account before db
    → is_set (find (is_staff_of account email) db.accounts) ≡ true
    → is_set (find (is_password_of account secret) db.credentials) ≡ true
    → After (IsMade s b email secret token now before) (sign_staff_in s v token now account db)
unfolding sign_staff_in record_with insert_session is_owner
sign_staff_in-IsMade s b v email secret token now account before db h row password = (
  refl,
  (
    account,
    h,
    row,
    password,
    is_set-insert (is_session_of account (s.crypto.sha256 token)) _ db.sessions
        (inr (ground (arith, same_bytes_refl (s.crypto.sha256 token)))),
  ),
)

staff_inserted-IsMade :
    (s : Service) (b : Bootstrap) (v : Visit) (email secret token : Bytes) (now : ℕ) (db : Db)
    (inserted : Outcome Error (ℕ × Db))
    → After
        (λ id mid.
          (mid.bootstrap ≡ db.bootstrap)
          × (is_set (find (is_staff_of id email) mid.accounts) ≡ true))
        inserted
    → After
        (IsMade s b email secret token now db)
        (staff_inserted s v secret token (claim b v now) now inserted)
unfolding set_password
staff_inserted-IsMade s b v email secret token now db (err e) h = tt
staff_inserted-IsMade s b v email secret token now db (ok (id, mid)) h =
    let left : Db = record mid {
      credentials =
          insert (record { account = id; secret = secret })
            (delete (λ (r : Credential). r.account == id) mid.credentials);
    } in
    let own : is_password_of id secret (record { account = id; secret = secret }) ≡ true =
      ground (arith, same_bytes_refl secret) in
    let password : is_set (find (is_password_of id secret) left.credentials) ≡ true =
      is_set-insert (is_password_of id secret) _ _ (inr own) in
    After-bind (λ t db'. IsFirst b now id left db' × Kept left db') _ (claim b v now id) _ left
      (claim-IsFirst b v now id left)
      λ t db' (first, kept).
        sign_staff_in-IsMade s b v email secret token now id db db'
          (sym h.0 ∙ first.0, first.1, first.2) (rw kept.0 h.1) (rw kept.1 password)

pub create_staff_tx-IsMade :
    (s : Service) (b : Bootstrap) (v : Visit) (name email normalised secret token : Bytes) (now : ℕ)
    (db : Db)
    → After
        (IsMade s b (trim_space email) secret token now db)
        (create_staff_tx s v name email normalised secret token (claim b v now) now db)
unfolding create_staff_tx
create_staff_tx-IsMade s b v name email normalised secret token now db =
    staff_inserted-IsMade s b v (trim_space email) secret token now db
      (insert_staff (trim_space email) normalised name now db)
      (insert_staff-IsInserted (trim_space email) normalised name now db)
