-- ===== src/Enrolling/Removing.antt =====
-- internal/identity/factors.go: what removing a factor leaves.
use marketplace.Base.{
  ℕ, ◌≤◌, ◌<◌, ◌≡◌, ◌≢◌, refl, Bool, true, false, List, [], ◌∷◌, arith, Bool-cases, ◌⊎◌, inl, inr,
  ok, is_set, ◌==◌, find, count, delete,
}
use marketplace.Policy.{required}
use marketplace.Store.{Db, Factor, RecoveryCode}
use marketplace.Answering.{Session}
use marketplace.FactorStore.{is_factor, delete_factor, count_factors, delete_recovery_codes}
use marketplace.Enrolling.{remove_tx}
use marketplace.Tx.{Visit, record_with, notify}

-- A factor of the account.
abbrev pub is_of : ℕ → Factor → Bool
is_of account f = f.account == account

factors-delete :
    (account id : ℕ) (rows : List Factor)
    → count (is_of account) (delete (is_factor account id) rows) ≤ count (is_of account) rows
unfolding count delete
factors-delete account id [] = omega arith
factors-delete account id (r ∷ rs) = ground (arith, factors-delete account id rs)

factors-removed :
    (account id : ℕ) (rows : List Factor)
    → is_set (find (is_factor account id) rows) ≡ true
    → count (is_of account) (delete (is_factor account id) rows) < count (is_of account) rows
unfolding count delete find
factors-removed account id [] h = cc h
factors-removed account id (r ∷ rs) h =
    ground (arith, factors-removed account id rs, factors-delete account id rs)

codes-deleted :
    (account : ℕ) (rows : List RecoveryCode)
    → count (λ r. r.account == account) (delete (λ r. r.account == account) rows) ≡ 0
unfolding count delete
codes-deleted account [] = refl
codes-deleted account (r ∷ rs) = ground (arith, codes-deleted account rs)

-- A committed removal leaves the account with fewer factors than it had; a kind that must have a
-- factor keeps at least one, and an account that has none left has no recovery code either.
pub remove_tx_lem :
    (v : Visit) (session : Session) (id : ℕ) (db db' : Db) (u : Unit {0})
    → remove_tx v session id db ≡ ok (u, db')
    → (count (is_of session.account.id) db'.second_factors
        < count (is_of session.account.id) db.second_factors)
      × ((count (is_of session.account.id) db'.second_factors ≢ 0)
          ⊎ ((required session.account.kind ≡ false)
              × (count (λ r. r.account == session.account.id) db'.recovery_codes ≡ 0)))
unfolding remove_tx delete_factor count_factors delete_recovery_codes record_with notify
remove_tx_lem v session id db db' u h =
    elim (Bool-cases (is_set (find (is_factor session.account.id id) db.second_factors))) [
      | inl there ↦
          let less = factors-removed session.account.id id db.second_factors there in
          let none_left = codes-deleted session.account.id db.recovery_codes in ground arith
      | inr missing ↦ ground arith
    ]
