-- ===== src/Config/Accepted.antt =====
-- internal/platform/config/config.go: the configurations in which nothing is found wrong.
use marketplace.Base.{
  ◌≡◌, ◌⊎◌, inl, inr, refl, subst, Bool, true, false, not, ◌&&◌, ◌||◌, Option, List, [], ◌∷◌, ◌++◌,
  Bytes, ok, Bool-cases, arith,
}
use marketplace.Credentials.{is_nil}
use marketplace.Config.{
  Key, Config, Database, fake_providers, real_providers, ProvidersMode, Problem, problem_if, Mail,
  Audit, Readers, database_problems, configured, mail_problems, audit_problems, console_problems,
}
use marketplace.Config.Loading.{defaults, keys, read_all, problems_of, judged, load}
use marketplace.Config.Valid.{IsInRange, IsReached, IsEquipped, IsApart, read_all-IsInRange}

append-nil_parts : {A : Type 0} → (xs ys : List A) → xs ++ ys ≡ [] → (xs ≡ []) × (ys ≡ [])
append-nil_parts [] ys h = (refl, h)
append-nil_parts (x ∷ xs) ys h = absurd cc

problem_if-nil : (b : Bool) (p : Problem) → problem_if b p ≡ [] → b ≡ false
problem_if-nil false p h = refl
problem_if-nil true p h = absurd cc

first_fine :
    (b : Bool) (p : Problem) (rest : List Problem)
    → problem_if b p ++ rest ≡ []
    → (b ≡ false) × (rest ≡ [])
first_fine b p rest h =
    let (a, c) = append-nil_parts (problem_if b p) rest h in (problem_if-nil b p a, c)

-- The conditions of the problems of a database, on what is empty of it.
reached :
    (url inst name user password app_user : Bool)
    → (not url && not inst) ≡ false
    → (not inst && name) ≡ false
    → (not inst && user) ≡ false
    → (not (not url || not inst) && not name) ≡ false
    → (not (not url || not inst) && not user) ≡ false
    → (not (not url || not inst) && not password) ≡ false
    → (not (not url || not inst) && not app_user) ≡ false
    → ((url ≡ false) × (inst ≡ true))
      ⊎ (((url ≡ true) × (inst ≡ false) × (name ≡ false) × (user ≡ false))
          ⊎ ((url ≡ true)
              × (inst ≡ true)
              × (name ≡ true)
              × (user ≡ true)
              × (password ≡ true)
              × (app_user ≡ true)))
reached false inst name user password app_user two a b c d e f = inl (refl, ground arith)
reached true false name user password app_user two a b c d e f =
    inr (inl (refl, refl, ground arith, ground arith))
reached true true name user password app_user two a b c d e f =
    inr (inr (refl, refl, ground arith, ground arith, ground arith, ground arith))

database_problems-IsReached : (d : Database) → database_problems d ≡ [] → IsReached d
unfolding database_problems configured
database_problems-IsReached d h =
    let (two, h1) = first_fine _ _ _ h in
    let (name, h2) = first_fine _ _ _ h1 in
    let (user, h3) = first_fine _ _ _ h2 in
    let (a, h4) = first_fine _ _ _ h3 in
    let (b, h5) = first_fine _ _ _ h4 in
    let (c, h6) = first_fine _ _ _ h5 in
    reached (is_nil d.url) (is_nil d.instance_name) (is_nil d.name) (is_nil d.user)
      (is_nil d.password) (is_nil d.app_user) two name user a b c (problem_if-nil _ _ h6)

providers-IsEquipped :
    (m : Mail) (a : Audit) (mode : ProvidersMode)
    → mail_problems m mode ≡ []
    → audit_problems a mode ≡ []
    → (mode ≡ fake_providers)
      ⊎ ((is_nil m.key ≡ false)
          × (is_nil m.from ≡ false)
          × (is_nil a.key ≡ false)
          × (is_nil a.local_key ≡ true))
unfolding mail_problems audit_problems
providers-IsEquipped m a fake_providers h k = inl refl
providers-IsEquipped m a real_providers h k =
    let (key, h1) = first_fine _ _ _ h in
    let from = problem_if-nil _ _ h1 in
    elim (Bool-cases (is_nil a.key)) [
      | inl missing ↦ absurd (let odd = rw missing at k in cc)
      | inr there ↦
          let apart = problem_if-nil _ _ (rw there at k) in inr (key, from, there, ground arith)
    ]

console_problems-IsApart : (r : Readers) (c : Config) → console_problems r c ≡ [] → IsApart r c
unfolding console_problems
console_problems-IsApart r c h = elim (Bool-cases (is_nil c.console_host)) [
  | inl missing ↦ let unset = problem_if-nil _ _ (rw missing at h) in inl (missing, ground arith)
  | inr there ↦ inr (there, problem_if-nil _ _ (rw there at h))
]

module _ (r : Readers) (lookup : Key → Option Bytes) where
  judged-ok :
      (c given : Config) (ps : List Problem)
      → judged r lookup c ps ≡ ok given
      → (ps ≡ []) × (c ≡ given)
  judged-ok c given [] h = (refl, cc)
  judged-ok c given (p ∷ ps) h = absurd cc

  -- A configuration that Load gives is one that the process can start with: its port is a port, its
  -- first run's token is not short, it says one way to its database, with all that this way needs, or
  -- nothing of one, with the real providers it has what the mail and the audit trail need, and its
  -- console has a host apart from the platform's, without which there is no first run.
  pub load-IsValid :
      (c : Config)
      → load r lookup ≡ ok c
      → IsInRange c × IsReached c.database × IsEquipped c × IsApart r c
  unfolding load problems_of
  load-IsValid c h =
      let s = read_all r lookup keys (defaults, []) in
      let (clean, same) = judged-ok s.0 c (s.1 ++ problems_of r lookup s.0) h in
      let (_, fits) = append-nil_parts s.1 (problems_of r lookup s.0) clean in
      let (reached, fits1) = append-nil_parts (database_problems s.0.database) _ fits in
      let (apart, fits2) = append-nil_parts (console_problems r s.0) _ fits1 in
      let (mail, audit) = append-nil_parts (mail_problems s.0.mail s.0.providers_mode) _ fits2 in
      subst (λ c. IsInRange c × IsReached c.database × IsEquipped c × IsApart r c) same
        (
          read_all-IsInRange r lookup keys (defaults, []) (omega arith, omega arith, inl refl),
          database_problems-IsReached s.0.database reached,
          providers-IsEquipped s.0.mail s.0.audit s.0.providers_mode mail audit,
          console_problems-IsApart r s.0 apart,
        )
