-- ===== src/I18n.antt =====
-- internal/platform/i18n/resolve.go: the language that a request is served in. A text is its bytes.
-- strings.EqualFold, the locator of addresses and what http.Redirect makes of a target are
-- parameters.
pub mod Choosing
pub mod Following
use marketplace.Base.{
  ℕ, zero, suc, Bool, true, false, not, Option, none, some, List, [], ◌∷◌, ◌++◌, ◌==◌,
  if◌then◌else◌, Bytes, same_bytes,
}

-- What the resolver is made of and calls.
pub record Resolver : Type 0 where
  -- (*Catalogue).Languages, which are the tags that it Speaks
  pub catalogue : List Bytes
  -- the locator's Country
  pub country : Bytes → Option Bytes
  -- strings.EqualFold
  pub equal_fold : Bytes → Bytes → Bool
  -- the path that a redirect to a path leads to
  pub location : Bytes → Bytes
  -- the paths that Resolve leaves alone
  pub exempt : List Bytes

-- What Resolve reads of a request: its path, the language cookie, the client's address, and what
-- Enabled answers for it.
pub record Request : Type 0 where
  pub path : Bytes
  pub cookie : Option Bytes
  pub client : Bytes
  pub languages : List Bytes
  pub fallback : Bytes

-- Default: "en-US"
abbrev pub default_language : Bytes
default_language = b'e' ∷ b'n' ∷ b'-' ∷ b'U' ∷ b'S' ∷ []

abbrev pub slash : ℕ
slash = b'/'

-- strings.Cut at the first slash
unfoldable pub cut : Bytes → Bytes × Option Bytes
cut [] = ([], none)
cut (c ∷ cs) = let (head, rest) = cut cs in if c == slash then ([], some cs) else (c ∷ head, rest)

-- strings.TrimPrefix(path, "/")
abbrev pub trim_slash : Bytes → Bytes
trim_slash [] = []
trim_slash (c ∷ cs) = if c == slash then cs else c ∷ cs

abbrev pub split_at : Bytes × Option Bytes → Option (Bytes × Bytes)
split_at ([], rest) = none
split_at (c ∷ head, none) = some (c ∷ head, slash ∷ [])
split_at (c ∷ head, some rest) = some (c ∷ head, slash ∷ rest)

-- splitLanguage: the first segment of a path, and the rest.
unfoldable pub split_language : Bytes → Option (Bytes × Bytes)
unfolding cut
split_language path = split_at (cut (trim_slash path))

-- (*Catalogue).Speaks: a printer of exactly that tag
abbrev pub speaks_tag : List Bytes → Bytes → Bool
speaks_tag [] tag = false
speaks_tag (t ∷ tags) tag = if same_bytes t tag then true else speaks_tag tags tag

abbrev pub or_default : List Bytes → Bytes × List Bytes
or_default [] = (default_language, [])
or_default (tag ∷ tags) = (tag, tags)

abbrev pub or_else {ℓ} : {A : Type ℓ} → Option A → Option A → Option A
or_else none o = o
or_else (some a) o = some a

-- the map countries
abbrev pub language_of : Bytes → Option Bytes
language_of country =
    if same_bytes country (b'B' ∷ b'R' ∷ [])
    then some (b'p' ∷ b't' ∷ b'-' ∷ b'B' ∷ b'R' ∷ [])
    else none

abbrev pub bind {ℓ} : {A B : Type ℓ} → Option A → (A → Option B) → Option B
bind none f = none
bind (some a) f = f a

abbrev pub value_or {ℓ} : {A : Type ℓ} → Option A → A → A
value_or none a = a
value_or (some b) a = b

abbrev pub is_given : Bytes → Bool
is_given [] = false
is_given (_ ∷ _) = true

-- What Resolve does with a request: it leaves it alone, serves the rest of its path in a language,
-- or sends the visitor to a path in a language, permanently or not.
pub data Answer : Type 0 where
  left_alone : Answer
  served : Bytes → Bytes → Answer
  moved : Bool → Bytes → Bytes → Answer

abbrev pub is_exempt : List Bytes → Bytes → Bool
is_exempt [] path = false
is_exempt (p ∷ ps) path = if same_bytes path p then true else is_exempt ps path

module _ (rs : Resolver) where
  -- match
  unfoldable pub match_language : Bytes → List Bytes → Option Bytes
  match_language tag [] = none
  match_language tag (language ∷ languages) =
      if rs.equal_fold tag language then some language else match_language tag languages

  unfoldable pub contains : List Bytes → Bytes → Bool
  contains languages tag = elim (match_language tag languages) [ none ↦ false | some _ ↦ true ]

  unfoldable pub spoken_of : List Bytes → List Bytes
  spoken_of [] = []
  spoken_of (tag ∷ tags) =
      let rest = spoken_of tags in if speaks_tag rs.catalogue tag then tag ∷ rest else rest

  abbrev pub or_all : List Bytes → List Bytes
  or_all [] = rs.catalogue
  or_all (tag ∷ tags) = tag ∷ tags

  -- speaks: the first of the languages that the request may be served in and the others of them, and
  -- the one to fall back to.
  abbrev pub first_spoken : Request → Bytes × List Bytes
  first_spoken r = or_default (spoken_of (or_all r.languages))

  abbrev pub spoken : Request → List Bytes
  spoken r = (first_spoken r).0 ∷ (first_spoken r).1

  unfoldable pub fallback_of : Request → Bytes
  fallback_of r =
      if contains (spoken r) r.fallback
      then r.fallback
      else if contains (spoken r) default_language
      then default_language
      else (first_spoken r).0

  abbrev pub by_country : Request → Option Bytes
  by_country r =
      bind (rs.country r.client)
        λ country. bind (language_of country) λ language. match_language language (spoken r)

  -- choose
  unfoldable pub choose : Request → Bytes
  choose r =
      value_or
        (or_else (bind r.cookie λ value. match_language value (spoken r))
          (if is_given r.client then by_country r else none))
        (fallback_of r)

  -- What the first segment asks for: nothing that is known, or a language.
  abbrev pub in_address : Request → Option (Bytes × Bytes) → Answer
  in_address r none = moved false (choose r) r.path
  in_address r (some (head, rest)) = elim (match_language head (spoken r)) [
    | none ↦ moved false (choose r) r.path
    | some canonical ↦
        if same_bytes canonical head then served canonical rest else moved true canonical rest
  ]

  -- (*Resolver).Resolve
  unfoldable pub resolve : Request → Answer
  resolve r =
      if is_exempt rs.exempt r.path then left_alone else in_address r (split_language r.path)

  -- redirect: the path that it sends the visitor to.
  abbrev pub target : Bytes → Bytes → Bytes
  target tag path = rs.location (slash ∷ (tag ++ path))

  -- A browser that follows the redirects, as often as the fuel allows.
  abbrev pub follow_answer : (Request → Answer) → Request → Answer → Answer
  follow_answer next r left_alone = left_alone
  follow_answer next r (served tag rest) = served tag rest
  follow_answer next r (moved permanent tag path) = next (record r { path = target tag path })

  unfoldable pub follow : ℕ → Request → Answer
  follow zero r = resolve r
  follow (suc redirects) r = follow_answer (follow redirects) r (resolve r)
