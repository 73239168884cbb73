-- ===== src/I18n/Following.antt =====
-- internal/platform/i18n/resolve.go: a visitor who follows the redirects is served in a language.
use marketplace.Base.{
  ℕ, zero, suc, ◌≡◌, refl, sym, ap, ◌∙◌, subst, true, false, Option, none, some, ◌∷◌, ◌++◌,
  if◌then◌else◌, Bytes, arith, Bool-cases, Option-cases, inl, inr, same_bytes, same_bytes_refl,
}
use marketplace.I18n.{
  Resolver, Request, Answer, left_alone, served, moved, slash, split_language, match_language,
  spoken, choose, in_address, resolve, target, follow, follow_answer, is_exempt,
}
use marketplace.I18n.Choosing.{
  is_tag, split_language-tag, split_language-slash, IsFold, HasTags, IsChoice, match-IsChoice,
  choose-IsChoice, match_language-again,
}

-- An answer that is no redirect: the path is exempt, or served in a language that is spoken.
abbrev pub IsAnswered : Resolver → Request → Answer → Type 0
IsAnswered rs r left_alone = Unit {0}
IsAnswered rs r (served tag rest) = match_language rs tag (spoken rs r) ≡ some tag
IsAnswered rs r (moved permanent tag path) = ⊥

-- A path that http.Redirect leaves as it is behind a language.
abbrev pub IsKept : Resolver → Bytes → Type 0
IsKept rs path =
    (tag : Bytes) → is_tag tag ≡ true → rs.location (slash ∷ (tag ++ path)) ≡ slash ∷ (tag ++ path)

-- An answer that is no redirect is not followed further.
follow-settled :
    (rs : Resolver) (r s : Request) (n : ℕ)
    → IsAnswered rs r (resolve rs s)
    → IsAnswered rs r (follow rs n s)
unfolding follow
follow-settled rs r s zero h = h
follow-settled rs r s (suc n) h = go (resolve rs s) h
  where
    go : (a : Answer) → IsAnswered rs r a → IsAnswered rs r (follow_answer rs (follow rs n) s a)
    go left_alone h = tt
    go (served tag rest) h = h
    go (moved permanent tag path) h = absurd h

module _ (rs : Resolver) (fold : IsFold rs) (r : Request) where
  -- The request that a redirect leads to.
  abbrev next : Bytes → Bytes → Request
  next tag path = record r { path = target rs tag path }

  split_language-next :
      (tag q : Bytes)
      → is_tag tag ≡ true
      → IsKept rs (slash ∷ q)
      → split_language (target rs tag (slash ∷ q)) ≡ some (tag, slash ∷ q)
  split_language-next tag q h kept = ap split_language (kept tag h) ∙ split_language-tag tag q h

  -- What a spoken language's address is answered with.
  in_address-next :
      (tag canonical q : Bytes)
      → match_language rs tag (spoken rs r) ≡ some canonical
      → in_address rs (next tag (slash ∷ q)) (some (tag, slash ∷ q)) ≡ (
          if same_bytes canonical tag
          then served canonical (slash ∷ q)
          else moved true canonical (slash ∷ q))
  in_address-next tag canonical q h = ground arith

  -- A language's own spelling is served.
  resolve-canonical :
      (tag q : Bytes)
      → is_tag tag ≡ true
      → match_language rs tag (spoken rs r) ≡ some tag
      → IsKept rs (slash ∷ q)
      → IsAnswered rs r (resolve rs (next tag (slash ∷ q)))
  unfolding resolve
  resolve-canonical tag q h m kept =
      elim (Bool-cases (is_exempt rs.exempt (target rs tag (slash ∷ q)))) [
        | inl exempt ↦ rw exempt tt
        | inr not_exempt ↦
            rw
              (
                not_exempt,
                split_language-next tag q h kept,
                in_address-next tag tag q m,
                same_bytes_refl tag,
              )
              m
      ]

  -- Any spelling of it is served after one redirect more.
  follow-choice :
      (tag q : Bytes)
      → HasTags rs r
      → IsChoice rs r tag
      → IsKept rs (slash ∷ q)
      → IsAnswered rs r (follow rs 1 (next tag (slash ∷ q)))
  unfolding follow resolve
  follow-choice tag q tags (h, (canonical, m)) kept =
      let spelling = match-IsChoice rs fold r tags tag canonical m in
      let last =
        resolve-canonical canonical q spelling.0
          (match_language-again rs fold tag canonical (spoken rs r) m) kept in
      elim (Bool-cases (is_exempt rs.exempt (target rs tag (slash ∷ q)))) [
        | inl exempt ↦ rw exempt tt
        | inr not_exempt ↦ elim (Bool-cases (same_bytes canonical tag)) [
          | inl same ↦
              rw
                (
                  not_exempt,
                  split_language-next tag q h kept,
                  in_address-next tag canonical q m,
                  same,
                )
                (match_language-again rs fold tag canonical (spoken rs r) m)
          | inr other ↦
              rw
                (
                  not_exempt,
                  split_language-next tag q h kept,
                  in_address-next tag canonical q m,
                  other,
                )
                last
        ]
      ]

  -- A path that names no language that is spoken.
  follow-chosen :
      (p : Bytes)
      → r.path ≡ slash ∷ p
      → HasTags rs r
      → IsKept rs r.path
      → IsAnswered rs r (follow rs 1 (next (choose rs r) r.path))
  follow-chosen p e tags kept =
      subst (λ path. IsAnswered rs r (follow rs 1 (next (choose rs r) path))) (sym e)
        (follow-choice (choose rs r) p tags (choose-IsChoice rs fold r tags)
          (subst (IsKept rs) e kept))

  -- A path that names one, in some spelling.
  follow-known :
      (head rest canonical q : Bytes)
      → match_language rs head (spoken rs r) ≡ some canonical
      → rest ≡ slash ∷ q
      → HasTags rs r
      → IsKept rs rest
      → IsAnswered rs r (follow rs 1 (next canonical rest))
  follow-known head rest canonical q m e tags kept =
      let spelling = match-IsChoice rs fold r tags head canonical m in
      let again = match_language-again rs fold head canonical (spoken rs r) m in
      let there = resolve-canonical canonical q spelling.0 again (subst (IsKept rs) e kept) in
      subst (λ path. IsAnswered rs r (follow rs 1 (next canonical path))) (sym e)
        (follow-settled rs r (next canonical (slash ∷ q)) 1 there)

  follow-from :
      (o : Option (Bytes × Bytes)) (a : Answer)
      → in_address rs r o ≡ a
      → IsAnswered rs r (follow_answer rs (follow rs 1) r a)
      → IsAnswered rs r (follow_answer rs (follow rs 1) r (in_address rs r o))
  follow-from o a e h = subst (λ a. IsAnswered rs r (follow_answer rs (follow rs 1) r a)) (sym e) h

  follow-in_address :
      (p : Bytes) (o : Option (Bytes × Bytes))
      → r.path ≡ slash ∷ p
      → split_language r.path ≡ o
      → HasTags rs r
      → IsKept rs r.path
      → ((head rest : Bytes) → split_language r.path ≡ some (head, rest) → IsKept rs rest)
      → IsAnswered rs r (follow_answer rs (follow rs 1) r (in_address rs r o))
  follow-in_address p none e h tags kept kept_rest = follow-chosen p e tags kept
  follow-in_address p (some (head, rest)) e h tags kept kept_rest =
      elim (Option-cases (match_language rs head (spoken rs r))) [
        | inl unknown ↦
            follow-from (some (head, rest)) (moved false (choose rs r) r.path) (ground arith)
              (follow-chosen p e tags kept)
        | inr (canonical, m) ↦
            let (q, slashed) = split_language-slash r.path h in
            let further =
              follow-known head rest canonical q m slashed tags (kept_rest head rest h) in
            elim (Bool-cases (same_bytes canonical head)) [
              | inl same ↦
                  follow-from (some (head, rest)) (served canonical rest) (ground arith)
                    (match_language-again rs fold head canonical (spoken rs r) m)
              | inr other ↦
                  follow-from (some (head, rest)) (moved true canonical rest) (ground arith) further
            ]
      ]

-- Whatever a request's path, cookie and address are, a visitor who follows the redirects is served
-- after two of them at most, in a language that is spoken for the request and in that language's own
-- spelling, or comes to a path that is exempt: where the path begins with a slash, the languages, the
-- catalogue's and the fallback are tags of letters, digits and hyphens, and http.Redirect leaves the
-- path, and its rest behind its first segment, as they are.
pub follow-IsAnswered :
    (rs : Resolver) (r : Request) (p : Bytes)
    → IsFold rs
    → r.path ≡ slash ∷ p
    → HasTags rs r
    → IsKept rs r.path
    → ((head rest : Bytes) → split_language r.path ≡ some (head, rest) → IsKept rs rest)
    → IsAnswered rs r (follow rs 2 r)
unfolding follow resolve
follow-IsAnswered rs r p fold e tags kept kept_rest =
    elim (Bool-cases (is_exempt rs.exempt r.path)) [
      | inl exempt ↦ rw exempt tt
      | inr not_exempt ↦
          rw not_exempt
            (follow-in_address rs fold r p (split_language r.path) e refl tags kept kept_rest)
    ]
