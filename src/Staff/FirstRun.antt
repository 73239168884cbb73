-- ===== src/Staff/FirstRun.antt =====
-- internal/staff/bootstrap.go: what a first run does, and first runs that race.
use marketplace.Base.{
  ℕ, ◌+◌, ◌≤◌, ◌≡◌, refl, sym, subst, ◌∙◌, true, not, Option, none, some, List, [], ◌∷◌, arith,
  Bytes, same_bytes, find, Outcome, ok, err, ◌&&◌, Bool-cases, inl, inr, ◌==◌, ==_iff,
}
use marketplace.Credentials.{check_name, check_new, normalise_email, trim_space}
use marketplace.Store.{Db, BootstrapRow}
use marketplace.Service.{Service}
use marketplace.Accounts.{create_staff, create_staff_tx, and_then, unless}
use marketplace.Tx.{Error, setup_closed, Tx, Flow, World, within}
use marketplace.Tx.Scope.{put}
use marketplace.Tx.After.{After}
use marketplace.Tx.Flows.{Ends, Ends-map, within-Ends}
use marketplace.Staff.{
  Bootstrap, Form, owner_exists, is_open, is_taken, claim, taken_or, setup_seen, setup,
}
use marketplace.Staff.Claims.{first_row, IsMade, create_staff_tx-IsMade}

and_then-Ends :
    {A B : Type 0} (P : B → World → Type 0) (o : Outcome Error A) (f : A → Flow B) (w : World)
    → ((a : A) → Ends P w (f a w))
    → Ends P w (and_then o f w)
and_then-Ends P (ok a) f w h = h a
and_then-Ends P (err e) f w h = refl

unless-Ends :
    {B : Type 0} (P : B → World → Type 0) (o : Option Error) (f : Flow B) (w : World)
    → Ends P w (f w)
    → Ends P w (unless o f w)
unless-Ends P none f w h = h
unless-Ends P (some e) f w h = refl

-- One for a flow that succeeds.
abbrev is_ok : Outcome Error Bytes → ℕ
is_ok (ok _) = 1
is_ok (err _) = 0

module _ (s : Service) (b : Bootstrap) where
  -- What a first run that succeeds has made of the platform's tables.
  abbrev pub IsSetUp : Form → World → Bytes → World → Type 0
  IsSetUp f w t w' =
      IsMade s b (trim_space f.email) (s.hash_password f.salt f.typed) f.session f.now (w.scopes 0)
        t (w'.scopes 0)

  platform-scope :
      (f : Form) (w : World) (scope : ℕ) (r : Outcome Error (Bytes × Db))
      → scope ≡ 0
      → After
          (IsMade s b
            (trim_space f.email)
            (s.hash_password f.salt f.typed)
            f.session
            f.now
            (w.scopes scope))
          r
      → After (λ t db. IsSetUp f w t (put w scope db)) r
  platform-scope f w scope r zero =
      subst
        (λ n.
          After
            (IsMade s b (trim_space f.email) (s.hash_password f.salt f.typed) f.session f.now
              (w.scopes n))
            r
          → After (λ t db. IsSetUp f w t (put w n db)) r)
        (sym zero) λ h. h

  created-Ends :
      (f : Form) (name normalised : Bytes) (w : World)
      → f.visit.platform ≡ true
      → Ends (IsSetUp f w) w (
          within f.visit
            (create_staff_tx s f.visit name f.email normalised
              (s.hash_password f.salt f.typed)
              f.session
              (claim b f.visit f.now)
              f.now)
            w)
  unfolding within
  created-Ends f name normalised w platform =
      let secret = s.hash_password f.salt f.typed in
      let tx : Tx Bytes =
        create_staff_tx s f.visit name f.email normalised secret f.session (claim b f.visit f.now)
          f.now in
      elim (Bool-cases (f.visit.marketplace == 0)) [
        | inl zero ↦ within-Ends (IsSetUp f w) f.visit tx w (
            platform-scope f w f.visit.marketplace (tx (w.scopes f.visit.marketplace))
              ((==_iff f.visit.marketplace 0).0 zero)
              (create_staff_tx-IsMade s b f.visit name f.email normalised secret f.session f.now
                (w.scopes f.visit.marketplace)))
        | inr other ↦ simp (platform, other) refl
      ]

  create_staff-Ends :
      (f : Form) (w : World)
      → Ends (IsSetUp f w) w (
          create_staff s f.visit f.name f.email f.typed f.salt f.session
            (claim b f.visit f.now)
            f.now
            w)
  unfolding create_staff
  create_staff-Ends f w = elim (Bool-cases f.visit.platform) [
    | inr tenant ↦ simp tenant refl
    | inl platform ↦ simp platform (
        and_then-Ends (IsSetUp f w) (check_name f.name) _ w λ name.
          and_then-Ends (IsSetUp f w) (normalise_email s f.email) _ w λ normalised.
            unless-Ends (IsSetUp f w) (check_new s f.typed) _ w
              (created-Ends f name normalised w platform))
  ]

  taken_or-Ends :
      (P : Bytes → World → Type 0) (w : World) (out : Outcome Error Bytes × World)
      → Ends P w out
      → Ends P w (taken_or b out)
  taken_or-Ends P w (ok t, w') h = h
  taken_or-Ends P w (err e, w') h = elim (Bool-cases (is_taken e && not (is_open b w'))) [
    | inl closed ↦ rw closed h
    | inr other ↦ rw other h
  ]

  -- What a first run that succeeds has found and made.
  abbrev pub IsRun : Form → World → World → Bytes → World → Type 0
  IsRun f seen w t w' =
      (is_open b seen ≡ true)
      × (same_bytes (s.crypto.sha256 f.token) b.hash ≡ true)
      × IsSetUp f w t w'

  pub setup_seen-Ends :
      (f : Form) (seen w : World) → Ends (IsRun f seen w) w (setup_seen s b f seen w)
  unfolding setup_seen
  setup_seen-Ends f seen w = elim (Bool-cases (is_open b seen)) [
    | inr closed ↦ rw closed refl
    | inl opened ↦ rw opened (elim (Bool-cases (same_bytes (s.crypto.sha256 f.token) b.hash)) [
      | inr wrong ↦ rw wrong refl
      | inl right ↦ rw right (
          taken_or-Ends (IsRun f seen w) w _ (
            Ends-map (IsSetUp f w) (IsRun f seen w) w _ (create_staff-Ends f w)
              λ t w' h. (opened, right, h)))
    ])
  ]

  -- First runs in the order of their transactions, each with the world that its first check read.
  unfoldable pub successes : List (Form × World) → World → ℕ
  successes [] w = 0
  successes ((f, seen) ∷ rest) w = let r = setup_seen s b f seen w in is_ok r.0 + successes rest r.1

  -- Where a first run is done, there is no other.
  abbrev IsDone : World → Type 0
  IsDone w =
      (row : BootstrapRow) × (rows : List BootstrapRow) × ((w.scopes 0).bootstrap ≡ row ∷ rows)

  Ends-IsDone :
      (f : Form) (seen w : World) (r : Outcome Error Bytes × World)
      → IsDone w
      → Ends (IsRun f seen w) w r
      → (is_ok r.0 ≡ 0) × (r.1 ≡ w)
  Ends-IsDone f seen w (err e, w') done h = (refl, h)
  Ends-IsDone f seen w (ok t, w') (row, rows, e) h =
      let (same, (account, first, _, _, _)) = h.2 in
      let k : [] ≡ row ∷ rows = sym first.0 ∙ e in absurd cc

  successes-done : (runs : List (Form × World)) (w : World) → IsDone w → successes runs w ≡ 0
  unfolding successes
  successes-done [] w done = refl
  successes-done ((f, seen) ∷ rest) w done =
      let (failed, same) =
        Ends-IsDone f seen w (setup_seen s b f seen w) done (setup_seen-Ends f seen w) in
      rw (failed, same) (let rest_none = successes-done rest w done in omega arith)

  successes-next :
      (f : Form) (seen w : World) (rest : List (Form × World)) (r : Outcome Error Bytes × World)
      → successes rest w ≤ 1
      → Ends (IsRun f seen w) w r
      → is_ok r.0 + successes rest r.1 ≤ 1
  successes-next f seen w rest (err e, w') few h = rw h (omega arith)
  successes-next f seen w rest (ok t, w') few h =
      let (same, (account, first, _, _, _)) = h.2 in
      rw (successes-done rest w' (first_row b f.now account, [], first.1)) (omega arith)

  -- However the transactions of any number of first runs are ordered, and whatever the first check of
  -- each has read, at most one of them succeeds.
  pub successes-le : (runs : List (Form × World)) (w : World) → successes runs w ≤ 1
  unfolding successes
  successes-le [] w = omega arith
  successes-le ((f, seen) ∷ rest) w =
      successes-next f seen w rest (setup_seen s b f seen w) (successes-le rest w)
        (setup_seen-Ends f seen w)

  setup-IsDone : (f : Form) (w : World) → IsDone w → setup s b f w ≡ (err setup_closed, w)
  unfolding setup setup_seen is_open owner_exists find
  setup-IsDone f w (row, rows, e) = elim (Bool-cases b.set) [
    | inl token ↦ rw (token, e) refl
    | inr none_given ↦ rw none_given refl
  ]

  -- A first run either fails and changes nothing, or there was a token and no first run before it, the
  -- token was presented, there is an account of the staff with the form's address and the hash of its
  -- password, that account is the owner and signed in with the session's token, the first run is
  -- written down as that account's, and every later one is closed and changes nothing.
  pub setup-Ends :
      (f : Form) (w : World)
      → Ends
          (λ t w'.
            (is_open b w ≡ true)
            × (same_bytes (s.crypto.sha256 f.token) b.hash ≡ true)
            × IsSetUp f w t w'
            × ((g : Form) → setup s b g w' ≡ (err setup_closed, w')))
          w
          (setup s b f w)
  unfolding setup
  setup-Ends f w =
      Ends-map (IsRun f w w) _ w (setup_seen s b f w w) (setup_seen-Ends f w w) λ t w' h.
        let (same, (account, first, _, _, _)) = h.2 in
        (h.0, h.1, h.2, λ g. setup-IsDone g w' (first_row b f.now account, [], first.1))
