-- ===== src/Pipeline/Guarded.antt =====
-- internal/platform/httpx/httpx.go: which requests reach no handler, and what a client's own header
-- entries change.
use marketplace.Base.{
  ◌≤◌, ◌≡◌, refl, false, Option, none, some, List, [], ◌∷◌, ◌++◌, Bytes, length, Outcome, ok, err,
  Bool-cases, inl, inr,
}
use marketplace.Csrf as Csrf
use marketplace.Csrf.Tokens.{Changes, IsGenuine, csrf-forged}
use marketplace.RateLimit.{Decision}
use marketplace.Origin.{chain_of}
use marketplace.Origin.Spoofing.{with_written, client_ip-written}
use marketplace.Pipeline.{
  Request, Context, Headers, Handler, Pipeline, is_one_of, exempt, token_or_forbidden, decided,
  limited, limited_by, protected, secured, with_origin, wrap, tasks_path, health_path, general,
  ip_or,
}

module _ {S : Type 0} (p : Pipeline S) where
  -- Two handlers that do the same with two requests.
  abbrev pub Same : Handler S → Handler S → Request → Request → Type 0
  Same g g' r r' = (c : Context) (h : Headers) (s : S) → g c r h s ≡ g' c r' h s

  decided-Same :
      (x : Outcome (Unit {0}) Decision × S) (g g' : Handler S) (c : Context) (r r' : Request)
      (h : Headers)
      → Same g g' r r'
      → decided x g c r h ≡ decided x g' c r' h
  decided-Same (err _, s) g g' c r r' h same = refl
  decided-Same (ok (some wait), s) g g' c r r' h same = refl
  decided-Same (ok none, s) g g' c r r' h same = same c h s

  limited_by-Same :
      (allow : Option (Bytes → S → Outcome (Unit {0}) Decision × S)) (g g' : Handler S)
      (r r' : Request)
      → r.path ≡ r'.path
      → Same g g' r r'
      → Same (limited_by allow g) (limited_by allow g') r r'
  unfolding exempt limited
  limited_by-Same none g g' r r' path same c h s = same c h s
  limited_by-Same (some allow) g g' r r' path same c h s =
      elim (Bool-cases (is_one_of r'.path (health_path ∷ tasks_path ∷ []))) [
        | inl outside ↦ simp (path, outside) (same c h s)
        | inr inside ↦
            simp (path, inside) (decided-Same (allow (general ++ ip_or c.ip) s) g g' c r r' h same)
      ]

  protected-Same :
      (g g' : Handler S) (r r' : Request)
      → r.path ≡ r'.path
      → r.fields ≡ r'.fields
      → Same g g' r r'
      → Same
          (exempt (protected p) (tasks_path ∷ p.callbacks) g)
          (exempt (protected p) (tasks_path ∷ p.callbacks) g')
          r
          r'
  unfolding exempt protected
  protected-Same g g' r r' path fields same c h s =
      elim (Bool-cases (is_one_of r'.path (tasks_path ∷ p.callbacks))) [
        | inl outside ↦ simp (path, outside) (same c h s)
        | inr inside ↦
            simp (path, inside, fields) (token (Csrf.csrf p.primitives p.fresh p.seed r'.fields))
      ]
    where
      token : (t : Option Bytes) → token_or_forbidden t g c r h s ≡ token_or_forbidden t g' c r' h s
      token none = refl
      token (some t) = same (record c { token = some t }) h s

  -- A request whose method changes state and that carries no token of its browser's secret, which is a
  -- seed of sixteen bytes with its HMAC under the secret, reaches no handler, on any path but those that
  -- a machine calls: whatever the handler is, the answer and what is left are the same. The browser's
  -- secret is the one of its cookie, or the fresh one where the cookie holds none.
  pub wrap-forged :
      (g g' : Handler S) (c : Context) (r : Request) (h : Headers) (s : S)
      → is_one_of r.path (tasks_path ∷ p.callbacks) ≡ false
      → Changes r.fields.method
      → ¬ IsGenuine p.primitives
          (Csrf.csrf_secret p.primitives p.fresh r.fields)
          (Csrf.token_of p.primitives r.fields)
      → wrap p g c r h s ≡ wrap p g' c r h s
  unfolding wrap with_origin secured exempt protected
  wrap-forged g g' c r h s path changes forged =
      let refused = csrf-forged p.primitives p.fresh p.seed r.fields changes forged in
      limited_by-Same p.general (exempt (protected p) (tasks_path ∷ p.callbacks) g)
        (exempt (protected p) (tasks_path ∷ p.callbacks) g') r r refl
        (λ c h s. rw (path, refused) refl) _ _ s

  -- Whatever a client writes into X-Forwarded-For before the front end's own entries, which are at
  -- least as many as the hops, a request is limited, refused and served as it would be without, where
  -- the handler does not read that header itself.
  pub wrap-written :
      (g : Handler S) (c : Context) (r : Request) (h : Headers) (s : S) (values : List Bytes)
      (text appended : Bytes) (rest : List Bytes)
      → ((x y : List Bytes) → Same g g (record r { forwarded = x }) (record r { forwarded = y }))
      → p.hops ≤ length (chain_of (appended ∷ rest))
      → wrap p g c (record r { forwarded = with_written values text appended rest }) h s
        ≡ wrap p g c (record r { forwarded = appended ∷ rest }) h s
  unfolding wrap with_origin secured
  wrap-written g c r h s values text appended rest blind enough =
      let there : Request = record r { forwarded = with_written values text appended rest } in
      let plain : Request = record r { forwarded = appended ∷ rest } in
      let ip = client_ip-written p.addresses p.hops r.remote values text appended rest enough in
      rw ip (
        limited_by-Same p.general _ _ there plain refl
          (protected-Same g g there plain refl refl (blind there.forwarded plain.forwarded)) _ _ s)
