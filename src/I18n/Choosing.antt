-- ===== src/I18n/Choosing.antt =====
-- internal/platform/i18n/resolve.go: the language that a visitor is sent to is one that is spoken.
use marketplace.Base.{
  ℕ, ◌≡◌, refl, sym, subst, Bool, true, false, ◌&&◌, ◌||◌, Option, none, some, List, [], ◌∷◌, ◌++◌,
  ◌==◌, leb, Bytes, arith, Bool-cases, Option-cases, inl, inr, all, All,
}
use marketplace.I18n.{
  Resolver, Request, slash, cut, trim_slash, split_at, split_language, match_language, contains,
  spoken_of, or_all, spoken, first_spoken, fallback_of, choose, default_language, speaks_tag,
  or_default, by_country, bind, value_or, or_else, is_given, language_of,
}

-- A letter, a digit or a hyphen.
abbrev pub is_tag_byte : ℕ → Bool
is_tag_byte c =
    (leb b'a' c && leb c b'z')
    || (leb b'A' c && leb c b'Z')
    || (leb b'0' c && leb c b'9')
    || c == b'-'

-- A language's tag: not empty, and of such bytes.
abbrev pub is_tag : Bytes → Bool
is_tag [] = false
is_tag (c ∷ cs) = is_tag_byte c && all is_tag_byte cs

cut-tag :
    (tag rest : Bytes) → all is_tag_byte tag ≡ true → cut (tag ++ slash ∷ rest) ≡ (tag, some rest)
unfolding cut
cut-tag [] rest h = refl
cut-tag (c ∷ cs) rest h = ground (arith, cut-tag cs rest)

pub split_language-tag :
    (tag rest : Bytes)
    → is_tag tag ≡ true
    → split_language (slash ∷ (tag ++ slash ∷ rest)) ≡ some (tag, slash ∷ rest)
unfolding split_language
split_language-tag [] rest h = cc
split_language-tag (c ∷ cs) rest h = rw (cut-tag (c ∷ cs) rest h)

split_at-slash :
    (p : Bytes × Option Bytes) {head rest : Bytes}
    → split_at p ≡ some (head, rest)
    → (q : Bytes) × (rest ≡ slash ∷ q)
split_at-slash ([], o) h = cc
split_at-slash (c ∷ head, none) h = ([], ground arith)
split_at-slash (c ∷ head, some rest) h = (rest, ground arith)

-- The rest of a path begins with a slash.
pub split_language-slash :
    (path : Bytes) {head rest : Bytes}
    → split_language path ≡ some (head, rest)
    → (q : Bytes) × (rest ≡ slash ∷ q)
unfolding split_language
split_language-slash path h = split_at-slash (cut (trim_slash path)) h

-- strings.EqualFold, as far as it matters here.
pub record IsFold (rs : Resolver) : Type 0 where
  pub reflexive : (x : Bytes) → rs.equal_fold x x ≡ true
  pub transitive :
      (x y z : Bytes)
      → rs.equal_fold x y ≡ true
      → rs.equal_fold y z ≡ true
      → rs.equal_fold x z ≡ true

module _ (rs : Resolver) (fold : IsFold rs) where
  match_language-fold :
      (tag : Bytes) (languages : List Bytes) {canonical : Bytes}
      → match_language rs tag languages ≡ some canonical
      → rs.equal_fold tag canonical ≡ true
  unfolding match_language
  match_language-fold tag [] h = cc
  match_language-fold tag (l ∷ ls) {canonical} h = elim (Bool-cases (rs.equal_fold tag l)) [
    | inl here ↦ let e : l ≡ canonical = ground arith in rw (← e) here
    | inr later ↦ match_language-fold tag ls (ground arith)
  ]

  -- What was matched is matched by itself.
  pub match_language-again :
      (tag canonical : Bytes) (languages : List Bytes)
      → match_language rs tag languages ≡ some canonical
      → match_language rs canonical languages ≡ some canonical
  unfolding match_language
  match_language-again tag canonical [] h = cc
  match_language-again tag canonical (l ∷ ls) h = elim (Bool-cases (rs.equal_fold tag l)) [
    | inl here ↦ let e : l ≡ canonical = ground arith in rw e (rw (fold.reflexive canonical))
    | inr later ↦
        let ih = match_language-again tag canonical ls (ground arith) in
        elim (Bool-cases (rs.equal_fold canonical l)) [
          | inr no_match ↦ rw no_match ih
          | inl again ↦
              let far =
                fold.transitive tag canonical l (match_language-fold tag ls (ground arith)) again in
              cc
        ]
  ]

  match_language-is_tag :
      (tag : Bytes) (languages : List Bytes) {canonical : Bytes}
      → All (λ l. is_tag l ≡ true) languages
      → match_language rs tag languages ≡ some canonical
      → is_tag canonical ≡ true
  unfolding match_language
  match_language-is_tag tag [] tags h = cc
  match_language-is_tag tag (l ∷ ls) {canonical} tags h = elim (Bool-cases (rs.equal_fold tag l)) [
    | inl here ↦ let e : l ≡ canonical = ground arith in rw (← e) tags.0
    | inr later ↦ match_language-is_tag tag ls {canonical = canonical} tags.1 (ground arith)
  ]

  contains-match :
      (languages : List Bytes) (tag : Bytes)
      → contains rs languages tag ≡ true
      → (canonical : Bytes) × (match_language rs tag languages ≡ some canonical)
  unfolding contains
  contains-match languages tag h = elim (Option-cases (match_language rs tag languages)) [
    | inl nothing ↦ let k : false ≡ true = rw (nothing, contains) at h in cc k
    | inr found ↦ found
  ]

spoken_of-is_tag :
    (rs : Resolver) (tags : List Bytes)
    → All (λ l. is_tag l ≡ true) tags
    → All (λ l. is_tag l ≡ true) (spoken_of rs tags)
unfolding spoken_of
spoken_of-is_tag rs [] h = tt
spoken_of-is_tag rs (t ∷ ts) h = elim (Bool-cases (speaks_tag rs.catalogue t)) [
  | inl kept ↦ rw kept (h.0, spoken_of-is_tag rs ts h.1)
  | inr dropped ↦ rw dropped (spoken_of-is_tag rs ts h.1)
]

-- The tags that a request's marketplace and the catalogue name.
pub record HasTags (rs : Resolver) (r : Request) : Type 0 where
  pub catalogue : All (λ l. is_tag l ≡ true) rs.catalogue
  pub languages : All (λ l. is_tag l ≡ true) r.languages
  pub fallback : is_tag r.fallback ≡ true

or_all-is_tag :
    (rs : Resolver) (ls : List Bytes)
    → All (λ l. is_tag l ≡ true) rs.catalogue
    → All (λ l. is_tag l ≡ true) ls
    → All (λ l. is_tag l ≡ true) (or_all rs ls)
or_all-is_tag rs [] h k = h
or_all-is_tag rs (l ∷ ls) h k = k

or_default-is_tag :
    (ls : List Bytes)
    → All (λ l. is_tag l ≡ true) ls
    → All (λ l. is_tag l ≡ true) ((or_default ls).0 ∷ (or_default ls).1)
or_default-is_tag [] h = (refl, tt)
or_default-is_tag (l ∷ ls) h = h

spoken-is_tag :
    (rs : Resolver) (r : Request) → HasTags rs r → All (λ l. is_tag l ≡ true) (spoken rs r)
spoken-is_tag rs r h =
    or_default-is_tag _
      (spoken_of-is_tag rs _ (or_all-is_tag rs r.languages h.catalogue h.languages))

-- A language that the request is redirected to: a tag, and spoken in some spelling.
abbrev pub IsChoice : Resolver → Request → Bytes → Type 0
IsChoice rs r tag =
    (is_tag tag ≡ true)
    × ((canonical : Bytes) × (match_language rs tag (spoken rs r) ≡ some canonical))

bind-some :
    {A B : Type 0} (o : Option A) (f : A → Option B) {b : B}
    → bind o f ≡ some b
    → (a : A) × (o ≡ some a) × (f a ≡ some b)
bind-some none f h = cc
bind-some (some a) f h = (a, refl, h)

value_or-all {ℓ} :
    (P : Bytes → Type ℓ) (o p : Option Bytes) (d : Bytes)
    → ((a : Bytes) → o ≡ some a → P a)
    → ((a : Bytes) → p ≡ some a → P a)
    → P d
    → P (value_or (or_else o p) d)
value_or-all P (some a) p d h k e = h a refl
value_or-all P none (some a) d h k e = k a refl
value_or-all P none none d h k e = e

module _ (rs : Resolver) (fold : IsFold rs) (r : Request) (tags : HasTags rs r) where
  first-IsChoice : IsChoice rs r (first_spoken rs r).0
  unfolding match_language
  first-IsChoice = (
    (spoken-is_tag rs r tags).0,
    ((first_spoken rs r).0, rw (fold.reflexive (first_spoken rs r).0)),
  )

  fallback_of-IsChoice : IsChoice rs r (fallback_of rs r)
  unfolding fallback_of
  fallback_of-IsChoice = elim (Bool-cases (contains rs (spoken rs r) r.fallback)) [
    | inl own ↦
        let e : fallback_of rs r ≡ r.fallback = rw own in
        subst (IsChoice rs r) (sym e)
          (tags.fallback, contains-match rs fold (spoken rs r) r.fallback own)
    | inr other ↦ elim (Bool-cases (contains rs (spoken rs r) default_language)) [
      | inl official ↦
          let e : fallback_of rs r ≡ default_language = rw (other, official) in
          subst (IsChoice rs r) (sym e)
            (refl, contains-match rs fold (spoken rs r) default_language official)
      | inr nothing ↦
          let e : fallback_of rs r ≡ (first_spoken rs r).0 = rw (other, nothing) in
          subst (IsChoice rs r) (sym e) first-IsChoice
    ]
  ]

  pub match-IsChoice :
      (value canonical : Bytes)
      → match_language rs value (spoken rs r) ≡ some canonical
      → IsChoice rs r canonical
  match-IsChoice value canonical h = (
    match_language-is_tag rs fold value (spoken rs r) (spoken-is_tag rs r tags) h,
    (canonical, match_language-again rs fold value canonical (spoken rs r) h),
  )

  by_country-IsChoice : (a : Bytes) → by_country rs r ≡ some a → IsChoice rs r a
  by_country-IsChoice a h =
      let (country, _, k) = bind-some (rs.country r.client) _ h in
      let (language, _, l) = bind-some (language_of country) _ k in match-IsChoice language a l

  cookie-IsChoice :
      (a : Bytes)
      → bind r.cookie (λ value. match_language rs value (spoken rs r)) ≡ some a
      → IsChoice rs r a
  cookie-IsChoice a h = let (value, _, k) = bind-some r.cookie _ h in match-IsChoice value a k

  pub choose-IsChoice : IsChoice rs r (choose rs r)
  unfolding choose
  choose-IsChoice =
      value_or-all (IsChoice rs r) _ _ _ cookie-IsChoice
        (λ a h. elim (Bool-cases (is_given r.client)) [
          | inl given ↦ by_country-IsChoice a (rw given at h)
          | inr missing ↦ let k : none ≡ some a = rw missing at h in cc k
        ])
        fallback_of-IsChoice
