-- ===== src/Csrf/Tokens.antt =====
-- internal/platform/httpx/csrf.go: whose tokens are accepted.
use marketplace.Base.{
  ◌≡◌, refl, ap, ◌∙◌, ◌⊎◌, inl, inr, true, false, not, ◌||◌, Option, none, some, [], ◌∷◌, ◌++◌,
  ◌==◌, ==_iff, Bytes, arith, same_bytes, same_bytes_sound, length, is_set, all, Bool-cases,
}
use marketplace.Csrf.{
  Primitives, Method, post, put, patch, delete, Request, with_byte, check_sum, check_seed,
  check_parts, secret_bytes, token_bytes, safe_method, cut_dot, csrf_secret, mint_csrf, token_of,
  valid_csrf, csrf,
}

-- What base64.RawURLEncoding does: it decodes what it encodes, and its texts have no dot.
pub record IsEncoding (p : Primitives) : Type 0 where
  pub decode-encode : (x : Bytes) → p.decode (p.encode x) ≡ some x
  pub no_dot : (x : Bytes) → all (λ c. not (c == b'.')) (p.encode x) ≡ true

cut_dot-append :
    (front back : Bytes)
    → all (λ c. not (c == b'.')) front ≡ true
    → cut_dot (front ++ b'.' ∷ back) ≡ some (front, back)
unfolding cut_dot
cut_dot-append [] back h = refl
cut_dot-append (c ∷ cs) back h = ground (arith, cut_dot-append cs back)

-- A token that was made for one secret, sent with another.
valid_csrf-mint_csrf :
    (p : Primitives) (r : Request) (secret other seed : Bytes)
    → IsEncoding p
    → length seed ≡ token_bytes
    → token_of p r ≡ mint_csrf p secret seed
    → valid_csrf p r other ≡ same_bytes (p.hmac_sha256 secret seed) (p.hmac_sha256 other seed)
unfolding valid_csrf mint_csrf
valid_csrf-mint_csrf p r secret other seed e size sent =
    rw
      (
        sent,
        cut_dot-append (p.encode seed) (p.encode (p.hmac_sha256 secret seed)) (e.no_dot seed),
        e.decode-encode seed,
        e.decode-encode (p.hmac_sha256 secret seed),
      )
      (ground arith)

-- A request whose browser holds a secret and that carries the token of a page goes on exactly when
-- its method changes nothing, or the token's HMAC under the secret that it was made for is the one
-- under the browser's own: a page's own token is accepted, and one of another browser's page only if
-- the HMACs under the two secrets agree.
pub csrf-mint_csrf :
    (p : Primitives) (r : Request) (secret other seed fresh next_seed : Bytes)
    → IsEncoding p
    → length seed ≡ token_bytes
    → length other ≡ secret_bytes
    → r.cookie ≡ some (p.encode other)
    → token_of p r ≡ mint_csrf p secret seed
    → is_set (csrf p fresh next_seed r)
      ≡ (safe_method r.method || same_bytes (p.hmac_sha256 secret seed) (p.hmac_sha256 other seed))
unfolding csrf csrf_secret
csrf-mint_csrf p r secret other seed fresh next_seed e size own held sent =
    ground (arith, e.decode-encode other, valid_csrf-mint_csrf p r secret other seed e size sent)

cut_dot_sound :
    (text front back : Bytes) → cut_dot text ≡ some (front, back) → text ≡ front ++ b'.' ∷ back
unfolding cut_dot
cut_dot_sound [] front back h = absurd cc
cut_dot_sound (c ∷ cs) front back h = elim (Bool-cases (c == b'.')) [
  | inl dot ↦
      let e : c ≡ b'.' = ground arith in
      let whole : some ([], cs) ≡ some (front, back) = rw dot at h in cc
  | inr other ↦ go (cut_dot cs) refl (rw other at h) λ front e. cut_dot_sound cs front back e
]
  where
    go :
        (rest : Option (Bytes × Bytes))
        → cut_dot cs ≡ rest
        → with_byte c rest ≡ some (front, back)
        → ((front : Bytes) → cut_dot cs ≡ some (front, back) → cs ≡ front ++ b'.' ∷ back)
        → c ∷ cs ≡ front ++ b'.' ∷ back
    go none e h step = absurd cc
    go (some (before, after)) e h step = let whole = step before cc in cc

-- A token of a secret: a seed of sixteen bytes and its HMAC under the secret.
abbrev pub IsGenuine : Primitives → Bytes → Bytes → Type 0
IsGenuine p secret token =
    (seed_text : Bytes) × (sum_text : Bytes) × (seed : Bytes) × (token
      ≡ seed_text ++ b'.' ∷ sum_text)
    × (p.decode seed_text ≡ some seed)
    × (length seed ≡ token_bytes)
    × (p.decode sum_text ≡ some (p.hmac_sha256 secret seed))

check_parts-IsGenuine :
    (p : Primitives) (secret token : Bytes) (parts : Option (Bytes × Bytes))
    → cut_dot token ≡ parts
    → check_parts p secret parts ≡ true
    → IsGenuine p secret token
check_parts-IsGenuine p secret token none e h = absurd cc
check_parts-IsGenuine p secret token (some (front, back)) e h = seeded (p.decode front) refl h
  where
    summed :
        (seed : Bytes) (sum : Option Bytes)
        → p.decode front ≡ some seed
        → length seed ≡ token_bytes
        → p.decode back ≡ sum
        → check_sum p secret seed sum ≡ true
        → IsGenuine p secret token
    summed seed none there long read h = absurd cc
    summed seed (some sum) there long read h =
        let same = same_bytes_sound sum (p.hmac_sha256 secret seed) h in
        (front, back, seed, cut_dot_sound token front back e, there, long, read ∙ ap some same)

    seeded :
        (seed : Option Bytes)
        → p.decode front ≡ seed
        → check_seed p secret back seed ≡ true
        → IsGenuine p secret token
    seeded none there h = absurd cc
    seeded (some seed) there h = elim (Bool-cases (length seed == token_bytes)) [
      | inl long ↦
          summed seed (p.decode back) there ((==_iff (length seed) token_bytes).0 long) refl
            (rw long at h)
      | inr short ↦ let odd : false ≡ true = rw short at h in absurd cc
    ]

-- The methods that change state.
abbrev pub Changes : Method → Type 0
Changes m = (m ≡ post) ⊎ ((m ≡ put) ⊎ ((m ≡ patch) ⊎ (m ≡ delete)))

Changes-safe_method : (m : Method) → Changes m → safe_method m ≡ false
unfolding safe_method
Changes-safe_method m (inl is) = rw is refl
Changes-safe_method m (inr (inl is)) = rw is refl
Changes-safe_method m (inr (inr (inl is))) = rw is refl
Changes-safe_method m (inr (inr (inr is))) = rw is refl

-- A request that changes state without a token of the browser's secret is refused.
pub csrf-forged :
    (p : Primitives) (fresh seed : Bytes) (r : Request)
    → Changes r.method
    → ¬ IsGenuine p (csrf_secret p fresh r) (token_of p r)
    → csrf p fresh seed r ≡ none
unfolding csrf valid_csrf
csrf-forged p fresh seed r changes forged =
    let unsafe = Changes-safe_method r.method changes in
    elim (Bool-cases (check_parts p (csrf_secret p fresh r) (cut_dot (token_of p r)))) [
      | inl valid ↦ absurd (
          forged (
            check_parts-IsGenuine p (csrf_secret p fresh r) (token_of p r) (cut_dot (token_of p r))
              refl valid))
      | inr not_valid ↦ rw (unsafe, not_valid) refl
    ]
