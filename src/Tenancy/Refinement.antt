-- ===== src/Tenancy/Refinement.antt =====
-- internal/tenancy/tenancy.go: in any history of requests and invalidations, the resolver answers as
-- one that reads the map each time, on a map of not long ago.
use marketplace.Base.{ℕ, ◌≤◌, ◌≡◌, refl, ◌∙◌, List, [], ◌∷◌, arith, Bytes, Outcome, ok, err}
use marketplace.Tenancy.{Hosts, HostMap, Resolver, Resolution, new_resolver, invalidate}
use marketplace.Tenancy.Fresh.{
  Request, Happening, asked, forgotten, ask, happened, clock, since, IsQuery, IsTimed, IsHeld,
  IsCurrent, IsStep, resolve-IsStep,
}

module _ (n : Hosts) (rows : ℕ → HostMap) (took : ℕ) where
  -- A resolver with the names it was made with, which holds a map of the repository's.
  abbrev IsWell : ℕ → ℕ → Resolver → Resolver → Type 0
  IsWell start moment made r =
      (start ≤ moment)
      × IsHeld n rows took start moment r.hosts
      × (r.platform ≡ made.platform)
      × (r.console ≡ made.console)

  happened-IsWell :
      (made : Resolver) (past : List Happening) (start moment : ℕ) (r : Resolver)
      → IsTimed took moment past
      → IsWell start moment made r
      → IsWell (since start past) (clock moment past) made (happened n rows took past r)
  unfolding happened IsStep invalidate
  happened-IsWell made [] start moment r timed h = h
  happened-IsWell made (asked q ∷ rest) start moment r (query, timed) (order, held, p, c) =
      let (current, held', p', c') = resolve-IsStep n rows took start moment q r order held query in
      let (a, b, e, f) = query in
      happened-IsWell made rest start q.after (ask n rows took q r).1 timed
        (omega arith, held', p' ∙ p, c' ∙ c)
  happened-IsWell made (forgotten m ∷ rest) start moment r (later, timed) (order, held, p, c) =
      happened-IsWell made rest m m (invalidate r) timed (omega arith, tt, p, c)

  IsCurrent-made :
      (start : ℕ) (made r : Resolver) (q : Request) (out : Outcome (Unit {0}) Resolution)
      → r.platform ≡ made.platform
      → r.console ≡ made.console
      → IsCurrent n rows took start r q out
      → IsCurrent n rows took start made q out
  IsCurrent-made start made r q (ok x) p c (t, from, to, recent, same) =
      (t, from, to, recent, same ∙ rw (p, c) refl)
  IsCurrent-made start made r q (err _) p c h = h

  -- In any history of requests and invalidations, the answer of the resolver to a host is what a
  -- resolver that reads the map on every request says on the map that the repository held at some
  -- moment: not before the last invalidation, and less than the time to live and the longest time of
  -- a query before the request; and an error is answered only where the repository cannot be read.
  -- Requests follow each other, and each query sees the map between its two readings of the clock.
  pub resolve-IsCurrent :
      (platform console : Bytes) (past : List Happening) (q : Request)
      → IsTimed took 0 past
      → IsQuery took (clock 0 past) q
      → IsCurrent n rows took
          (since 0 past)
          (new_resolver n platform console)
          q
          (ask n rows took q (happened n rows took past (new_resolver n platform console))).0
  unfolding new_resolver IsStep
  resolve-IsCurrent platform console past q timed query =
      let made = new_resolver n platform console in
      let r = happened n rows took past made in
      let (order, held, p, c) =
        happened-IsWell made past 0 0 made timed (omega arith, tt, refl, refl) in
      let (current, h, a, b) =
        resolve-IsStep n rows took (since 0 past) (clock 0 past) q r order held query in
      IsCurrent-made (since 0 past) made r q (ask n rows took q r).0 p c current
