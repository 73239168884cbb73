-- ===== src/Challenge/Locked.antt =====
-- internal/identity/failures.go and challenge.go: a hundred wrong second factors lock the typed codes.
use marketplace.Base.{
  ℕ, ◌≤◌, ◌≡◌, refl, ◌∙◌, ap, Bool, true, false, not, ◌&&◌, ◌||◌, List, [], ◌∷◌, ◌++◌, arith, ok,
  if◌then◌else◌, ltb, leb, ◌==◌, some, find, select, count, is_set,
}
use marketplace.Policy.{Method, email, staff, Action, contains, same_method, permits, step_up_for}
use marketplace.Policy.Strength.{rank, strongest_lem}
use marketplace.Store.{Db, Account, Challenge, Factor, Failure}
use marketplace.FactorStore.{factors_of, recovery_codes}
use marketplace.Service.{Service}
use marketplace.Failures.{
  Offer, is_typed, locks, failures_locked, failures_in, second_factor_failures,
}
use marketplace.Challenge.{Answer, permitted, has_any, is_nothing, offer_of, offers, check_offered}
use marketplace.Tx.{Visit}

permitted-locked :
    (account : Account) (factors : List Factor) (m : Method)
    → is_typed m ≡ true
    → contains (permitted account true factors) m ≡ false
unfolding permitted contains same_method locks
permitted-locked account [] m typed = refl
permitted-locked account (f ∷ fs) m typed = ground (arith, permitted-locked account fs m typed)

permitted-staff :
    (account : Account) (locked : Bool) (factors : List Factor)
    → account.kind ≡ staff
    → contains (permitted account locked factors) email ≡ false
unfolding permitted contains same_method locks permits
permitted-staff account locked [] k = refl
permitted-staff account locked (f ∷ fs) k = ground (arith, permitted-staff account locked fs k)

contains-append :
    (xs ys : List Method) (m : Method) → contains (xs ++ ys) m ≡ (contains xs m || contains ys m)
unfolding contains
contains-append [] ys m = refl
contains-append (x ∷ xs) ys m = ground (arith, contains-append xs ys m)

-- Whether a challenge offers an e-mail code although it is not a factor.
abbrev by_mail : Account → Action → List Factor → Bool → List Method
by_mail account action factors locked =
    if not (is_nothing action)
      && (step_up_for account.kind action (has_any factors)).email
      && not locked
    then email ∷ []
    else []

-- A method that a challenge offers is among the permitted ones of the account, or it is the e-mail.
offer_of-contains :
    (account : Account) (action : Action) (factors : List Factor) (failures left : ℕ) (m : Method)
    → contains (offer_of account action factors failures left).methods m ≡ (
        ltb (rank m) 3
        && (contains (permitted account (leb failures_locked failures) factors) m
            || contains (by_mail account action factors (leb failures_locked failures)) m))
unfolding offer_of
offer_of-contains account action factors failures left m =
    let locked = leb failures_locked failures in
    (strongest_lem (permitted account locked factors ++ by_mail account action factors locked)).1 m
    ∙ ap (λ b. ltb (rank m) 3 && b)
        (contains-append (permitted account locked factors) (by_mail account action factors locked)
          m)

locked-by_mail :
    (account : Account) (action : Action) (factors : List Factor) (m : Method)
    → contains (by_mail account action factors true) m ≡ false
unfolding contains
locked-by_mail account action factors m = ground arith

staff-by_mail :
    (account : Account) (action : Action) (factors : List Factor) (locked : Bool)
    → account.kind ≡ staff
    → contains (by_mail account action factors locked) email ≡ false
unfolding contains step_up_for permits
staff-by_mail account action factors locked k = ground arith

locked-offer_of :
    (account : Account) (action : Action) (factors : List Factor) (failures left : ℕ) (m : Method)
    → failures_locked ≤ failures
    → is_typed m ≡ true
    → contains (offer_of account action factors failures left).methods m ≡ false
locked-offer_of account action factors failures left m le typed =
    let locked : leb failures_locked failures ≡ true = ground arith in
    rw
      (
        offer_of-contains account action factors failures left m,
        locked,
        permitted-locked account factors m typed,
        locked-by_mail account action factors m,
      )
      (ground arith)

-- Once an account's run of wrong second factors has come to a hundred, as its row says, its challenges
-- are offered with their codes locked and offer neither an app's code nor a mailed one, and the check
-- of an answer with either refuses it without a look at the code and writes nothing itself.
pub locked-check_offered :
    (s : Service) (v : Visit) (account : Account) (ch : Challenge) (run : Failure) (answer : Answer)
    (now : ℕ) (db : Db)
    → find (λ f. f.account == account.id) db.failures ≡ some run
    → failures_locked ≤ run.failures
    → is_typed answer.method ≡ true
    → (o : Offer) × (offers account ch.action db ≡ ok (o, db))
      × (o.codes_locked ≡ true)
      × (contains o.methods answer.method ≡ false)
      × (check_offered s v account ch o answer now db ≡ ok (false, db))
unfolding check_offered same_method offers factors_of second_factor_failures failures_in
    recovery_codes offer_of
locked-check_offered s v account ch run answer now db there le typed =
    let factors = select (λ (f : Factor). f.account == account.id) db.second_factors in
    let left = count (λ r. (r.account == account.id) && not (is_set r.used_at)) db.recovery_codes in
    let o = offer_of account ch.action factors run.failures left in
    let refused =
      locked-offer_of account ch.action factors run.failures left answer.method le typed in
    (o, rw there refl, ground arith, refused, ground (arith, refused))

-- No challenge of a staff account offers a code sent by e-mail, whatever its factors and the action.
pub staff-offer_of :
    (account : Account) (action : Action) (factors : List Factor) (failures left : ℕ)
    → account.kind ≡ staff
    → contains (offer_of account action factors failures left).methods email ≡ false
staff-offer_of account action factors failures left k =
    let locked = leb failures_locked failures in
    rw (
      offer_of-contains account action factors failures left email,
      permitted-staff account locked factors k,
      staff-by_mail account action factors locked k,
    )
