-- ===== src/Text.antt =====
-- strings.Split on one byte, as internal/identity/password.go and internal/platform/httpx/origin.go
-- use it.
use marketplace.Base.{
  ℕ, ◌≡◌, refl, Bool, true, false, not, ◌&&◌, List, [], ◌∷◌, ◌++◌, ◌==◌, arith, if◌then◌else◌,
  Bytes,
}

abbrev pub cons_head : ℕ → List Bytes → List Bytes
cons_head c [] = (c ∷ []) ∷ []
cons_head c (part ∷ parts) = (c ∷ part) ∷ parts

-- strings.Split(text, sep)
unfoldable pub split_on : ℕ → Bytes → List Bytes
split_on sep [] = [] ∷ []
split_on sep (c ∷ cs) =
    let rest = split_on sep cs in if c == sep then [] ∷ rest else cons_head c rest

-- Whether a text is without a byte.
unfoldable pub lacks : ℕ → Bytes → Bool
lacks sep [] = true
lacks sep (c ∷ cs) = not (c == sep) && lacks sep cs

-- A part ends at the first separator.
pub split_on-part :
    (sep : ℕ) (part rest : Bytes)
    → lacks sep part ≡ true
    → split_on sep (part ++ sep ∷ rest) ≡ part ∷ split_on sep rest
unfolding split_on lacks
split_on-part sep [] rest h = ground arith
split_on-part sep (c ∷ cs) rest h =
    let ih = split_on-part sep cs rest (ground arith) in
    let miss : (c == sep) ≡ false = ground arith in rw (miss, ih) refl

pub split_on-last : (sep : ℕ) (part : Bytes) → lacks sep part ≡ true → split_on sep part ≡ part ∷ []
unfolding split_on lacks
split_on-last sep [] h = refl
split_on-last sep (c ∷ cs) h =
    let ih = split_on-last sep cs (ground arith) in
    let miss : (c == sep) ≡ false = ground arith in rw (miss, ih) refl
