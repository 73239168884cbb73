-- ===== src/Origin/Spoofing.antt =====
-- internal/platform/httpx/origin.go: what a client writes into the header chooses no address.
use marketplace.Base.{
  append_assoc, ℕ, suc, ◌+◌, ◌-◌, ◌≤◌, ◌≡◌, refl, ap, sym, ◌∙◌, true, List, [], ◌∷◌, ◌++◌, leb,
  length, length-append, arith, Bytes, Bool-cases, inl, inr, ◌==◌,
}
use marketplace.Credentials.{trim_space}
use marketplace.Text.{split_on, cons_head}
use marketplace.Origin.{
  Addresses, comma, entry_before, entries, chain_of, get_elem?, or_peer, chosen, client_ip,
}

chain_of-append : (xs ys : List Bytes) → chain_of (xs ++ ys) ≡ chain_of xs ++ chain_of ys
unfolding chain_of
chain_of-append [] ys = refl
chain_of-append (x ∷ xs) ys =
    ap (λ r. entries (split_on comma x) ++ r) (chain_of-append xs ys)
    ∙ sym (append_assoc (entries (split_on comma x)) (chain_of xs) (chain_of ys))

split_on-cons :
    (sep : ℕ) (x : Bytes) → (part : Bytes) × (parts : List Bytes) × (split_on sep x ≡ part ∷ parts)
unfolding split_on
split_on-cons sep [] = ([], [], refl)
split_on-cons sep (c ∷ cs) =
    let (part, parts, e) = split_on-cons sep cs in
    elim (Bool-cases (c == sep)) [
      | inl hit ↦ ([], split_on sep cs, rw hit refl)
      | inr miss ↦ (c ∷ part, parts, rw (miss, e) refl)
    ]

cons_head-append :
    (c sep : ℕ) (cs : Bytes) (q : List Bytes)
    → cons_head c (split_on sep cs ++ q) ≡ cons_head c (split_on sep cs) ++ q
cons_head-append c sep cs q = let (part, parts, e) = split_on-cons sep cs in rw e refl

-- The parts of two texts with the separator between them.
split_on-append :
    (sep : ℕ) (x y : Bytes) → split_on sep (x ++ sep ∷ y) ≡ split_on sep x ++ split_on sep y
unfolding split_on
split_on-append sep [] y = ground arith
split_on-append sep (c ∷ cs) y = elim (Bool-cases (c == sep)) [
  | inl hit ↦ rw hit (ap (λ r. [] ∷ r) (split_on-append sep cs y))
  | inr miss ↦
      rw miss
        (ap (cons_head c) (split_on-append sep cs y) ∙ cons_head-append c sep cs (split_on sep y))
]

entry_before-append :
    (entry : Bytes) (xs ys : List Bytes)
    → entry_before entry (xs ++ ys) ≡ entry_before entry xs ++ ys
entry_before-append [] xs ys = refl
entry_before-append (c ∷ cs) xs ys = refl

entries-append : (xs ys : List Bytes) → entries (xs ++ ys) ≡ entries xs ++ entries ys
unfolding entries
entries-append [] ys = refl
entries-append (x ∷ xs) ys =
    ap (entry_before (trim_space x)) (entries-append xs ys)
    ∙ entry_before-append (trim_space x) (entries xs) (entries ys)

get_elem?-append :
    (xs ys : List Bytes) (n : ℕ) → get_elem? (xs ++ ys) (length xs + n) ≡ get_elem? ys n
unfolding get_elem?
get_elem?-append [] ys n = let e : 0 + n ≡ n = omega arith in rw e refl
get_elem?-append (x ∷ xs) ys n =
    let e : suc (length xs) + n ≡ suc (length xs + n) = omega arith in
    rw e (get_elem?-append xs ys n)

-- The header that a client's own values, and its own beginning of the value that the front end
-- appended to, come before.
abbrev pub with_written : List Bytes → Bytes → Bytes → List Bytes → List Bytes
with_written values text appended rest = values ++ (text ++ comma ∷ appended) ∷ rest

chain_of-written :
    (values : List Bytes) (text appended : Bytes) (rest : List Bytes)
    → (written : List Bytes) × (chain_of (with_written values text appended rest)
        ≡ written ++ chain_of (appended ∷ rest))
unfolding chain_of
chain_of-written values text appended rest =
    let a = entries (split_on comma text) in
    let b = entries (split_on comma appended) in
    let e : entries (split_on comma (text ++ comma ∷ appended)) ≡ a ++ b =
      ap entries (split_on-append comma text appended)
      ∙ entries-append (split_on comma text) (split_on comma appended) in
    (
      chain_of values ++ a,
      chain_of-append values ((text ++ comma ∷ appended) ∷ rest)
          ∙ ap (λ r. chain_of values ++ r)
              (ap (λ r. r ++ chain_of rest) e ∙ append_assoc a b (chain_of rest))
          ∙ sym (append_assoc (chain_of values) a (b ++ chain_of rest)),
    )

module _ (n : Addresses) where
  chosen-append :
      (hops : ℕ) (written chain : List Bytes)
      → hops ≤ length chain
      → chosen n hops (written ++ chain) ≡ chosen n hops chain
  unfolding chosen
  chosen-append hops written chain enough =
      let l = length-append written chain in
      let index : length (written ++ chain) - hops ≡ length written + (length chain - hops) =
        omega arith in
      let long : leb hops (length (written ++ chain)) ≡ true = ground arith in
      let fits : leb hops (length chain) ≡ true = ground arith in
      rw (long, fits, index, get_elem?-append written chain (length chain - hops)) refl

  -- Whatever values of X-Forwarded-For a client sends, and whatever it writes before what the front
  -- end appends to one, the address is what the front end's own entries say, where these are at least
  -- as many as the hops.
  pub client_ip-written :
      (hops : ℕ) (remote : Bytes) (values : List Bytes) (text appended : Bytes) (rest : List Bytes)
      → hops ≤ length (chain_of (appended ∷ rest))
      → client_ip n hops remote (with_written values text appended rest)
        ≡ client_ip n hops remote (appended ∷ rest)
  unfolding client_ip
  client_ip-written hops remote values text appended rest enough =
      let (written, e) = chain_of-written values text appended rest in
      ap (λ chain. or_peer n remote (chosen n hops chain)) e
      ∙ ap (or_peer n remote) (chosen-append hops written (chain_of (appended ∷ rest)) enough)
