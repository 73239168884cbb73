-- ===== src/Audit/Appending.antt =====
-- internal/platform/audit/log.go: appending keeps every chain whole.
use marketplace.Base.{
  sym, ℕ, ◌≡◌, Bool, List, arith, Option-cases, inl, inr, Bytes, insert, find, same_bytes_refl, ok,
}
use mathlib.Core.Path.{subst₂}
use marketplace.Crypto.{Crypto}
use marketplace.Audit.{Entry, digest, digest_input, valid, actor_key, key_for}
use marketplace.Audit.Keys.{
  Tables, Row, Chain, Vault, open_key, create_key, read_key, >>=-eq-ok, ◌>>=◌,
}
use marketplace.Audit.Log.{
  Draws, is_chain, head, written, insert_row, advance, append_sealed, append, seal_origin,
  seal_state, key_of, seal,
}
use marketplace.Audit.Verify.{fault}
use marketplace.Audit.Whole.{IsWhole, IsLinked, IsNext, head_of, opened, advanced, insert-IsLinked}

-- The record that Append writes may follow.
written-IsNext :
    (c : Crypto) (e : Entry) (now : ℕ) (a s : Bytes) (chains : List Chain)
    → IsNext c chains (written c e now a s (head_of e.marketplace chains))
unfolding written fault digest digest_input
written-IsNext c e now a s chains = record {
  next = omega arith;
  fits = ground (
    arith,
    same_bytes_refl (head_of e.marketplace chains).last_hash,
    same_bytes_refl (written c e now a s (head_of e.marketplace chains)).hash,
  );
}

-- The row that Append inserts.
abbrev row : Crypto → Vault → Entry → ℕ → Bytes → Bytes → Chain → Row
row c v e now a s chain =
    let r = written c e now a s chain in
    record {
      entry = r;
      actor_key = key_of r.actor_secret (actor_key v.platform e);
      subject_key = key_of r.subject_secret (key_for v.platform e);
    }

-- What Append leaves, once both parts are sealed.
append_sealed-tables :
    (c : Crypto) (v : Vault) (e : Entry) (now : ℕ) (a s : Bytes) (t t' : Tables)
    → append_sealed c v e now a s t ≡ ok (tt, t')
    → let r = row c v e now a s (head_of e.marketplace t.audit_chains) in
      (t'.audit_log ≡ insert r t.audit_log)
      × (t'.audit_chains ≡ advanced r.entry (opened r.entry.marketplace t.audit_chains))
unfolding append_sealed head insert_row advance opened advanced written
append_sealed-tables c v e now a s t t' h =
    elim (Option-cases (find (is_chain e.marketplace) t.audit_chains)) [
      | inl f ↦ (ground arith, ground arith)
      | inr (chain, f) ↦ (ground arith, ground arith)
    ]

-- Sealing writes keys and nothing else.
seal-tables :
    (v : Vault) (user fresh nonce text : Bytes) (carries : Bool) (t t' : Tables) (sealed : Bytes)
    → seal v user fresh nonce text carries t ≡ ok (sealed, t')
    → (t'.audit_log ≡ t.audit_log) × (t'.audit_chains ≡ t.audit_chains)
unfolding seal open_key create_key read_key
seal-tables v user fresh nonce text carries t t' sealed h = ground arith

-- What an Append that commits has done: it sealed two parts, and appended them.
pub append-sealed :
    (c : Crypto) (v : Vault) (d : Draws) (e : Entry) (t t' : Tables)
    → append c v d e t ≡ ok (tt, t')
    → (a : Bytes) × (u : Tables) × (s : Bytes) × (w : Tables) × (seal_origin v d e t ≡ ok (a, u))
      × (seal_state v d e u ≡ ok (s, w))
      × (append_sealed c v e d.now a s w ≡ ok (tt, t'))
unfolding append
append-sealed c v d e t t' h = elim (Option-cases (valid e)) [
  | inr (refusal, refused) ↦ cc
  | inl fine ↦
      let both = λ (a : Bytes). seal_state v d e >>= λ s. append_sealed c v e d.now a s in
      let (a, u, first, rest) = >>=-eq-ok (seal_origin v d e) both t (rw (fine, append) at h) in
      let (s, w, second, last) =
        >>=-eq-ok (seal_state v d e) (λ s. append_sealed c v e d.now a s) u rest in
      (a, u, s, w, first, second, last)
]

-- Appending keeps every chain whole.
pub append-IsWhole :
    (c : Crypto) (v : Vault) (d : Draws) (e : Entry) (t t' : Tables)
    → append c v d e t ≡ ok (tt, t')
    → IsWhole c t
    → IsWhole c t'
append-IsWhole c v d e t t' h whole m =
    let (a, u, s, w, first, second, last) = append-sealed c v d e t t' h in
    let (p, q) = seal-tables v _ _ _ _ _ t u a first in
    let (p', q') = seal-tables v _ _ _ _ _ u w s second in
    let (log', chains') = append_sealed-tables c v e d.now a s w t' last in
    let here : (m : Bytes) → IsLinked c m w.audit_log w.audit_chains =
      (λ m. rw (p', q', p, q) (whole m)) in
    let next = written-IsNext c e d.now a s w.audit_chains in
    let r = row c v e d.now a s (head_of e.marketplace w.audit_chains) in
    subst₂ (λ l k. IsLinked c m l k) (sym log') (sym chains')
      (insert-IsLinked c w.audit_log w.audit_chains r next here m)
