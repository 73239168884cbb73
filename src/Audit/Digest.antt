-- ===== src/Audit/Digest.antt =====
-- internal/platform/audit/audit.go: what digest hashes leaves no choice of the record, as every field
-- stands behind its length.
use marketplace.Base.{
  ℕ, zero, suc, ◌*◌, ◌/◌, ◌%◌, ◌^◌, ◌<◌, ◌≡◌, refl, sym, ◌∙◌, [], ◌∷◌, ◌++◌, arith, Bytes, length,
  length-append,
}
use native.Mathlib.Nat.{pow-suc}
use mathlib.Core.List.{append_assoc}
use marketplace.Audit.{Record, big_endian, number, field, digest_input}

-- Two lists of one length before whatever follows.
pub append-injective :
    (cs bs xs ys : Bytes) → length cs ≡ length bs → cs ++ xs ≡ bs ++ ys → (cs ≡ bs) × (xs ≡ ys)
append-injective [] [] xs ys l h = (refl, h)
append-injective [] (b ∷ bs) xs ys l h = absurd (omega arith)
append-injective (a ∷ cs) [] xs ys l h = absurd (omega arith)
append-injective (a ∷ cs) (b ∷ bs) xs ys l h =
    let rest : cs ++ xs ≡ bs ++ ys = ground arith in
    let first : a ≡ b = ground arith in
    let (p, q) = append-injective cs bs xs ys (omega arith) rest in (ground arith, q)

length-big_endian : (width n : ℕ) → length (big_endian width n) ≡ width
unfolding big_endian
length-big_endian zero n = refl
length-big_endian (suc width) n = omega (
  arith,
  length-big_endian width (n / 256),
  length-append (big_endian width (n / 256)) ((n % 256) ∷ []),
)

big_endian-injective :
    (width n m : ℕ)
    → n < 256 ^ width
    → m < 256 ^ width
    → big_endian width n ≡ big_endian width m
    → n ≡ m
unfolding big_endian
big_endian-injective zero n m p q h = omega arith
big_endian-injective (suc width) n m p q h =
    let (front, back) =
      append-injective (big_endian width (n / 256)) (big_endian width (m / 256)) _ _
        (length-big_endian width (n / 256) ∙ sym (length-big_endian width (m / 256))) h in
    let last : n % 256 ≡ m % 256 = ground arith in
    let bound : 256 ^ suc width ≡ 256 ^ width * 256 = pow-suc 256 width in
    let high = big_endian-injective width (n / 256) (m / 256) (omega arith) (omega arith) front in
    omega arith

-- A number and a field are read back from what they begin.
number-injective :
    (n m : ℕ) (xs ys : Bytes)
    → n < 256 ^ 8
    → m < 256 ^ 8
    → number n ++ xs ≡ number m ++ ys
    → (n ≡ m) × (xs ≡ ys)
number-injective n m xs ys p q h =
    let (e, f) =
      append-injective (number n) (number m) xs ys
        (length-big_endian 8 n ∙ sym (length-big_endian 8 m)) h in
    (big_endian-injective 8 n m p q e, f)

field-injective :
    (v u xs ys : Bytes)
    → length v < 256 ^ 8
    → length u < 256 ^ 8
    → field v ++ xs ≡ field u ++ ys
    → (v ≡ u) × (xs ≡ ys)
field-injective v u xs ys p q h =
    let (e, f) =
      number-injective (length v) (length u) (v ++ xs) (u ++ ys) p q
        (sym (append_assoc (number (length v)) v xs) ∙ h ∙ append_assoc (number (length u)) u ys) in
    append-injective v u xs ys e f

-- The sizes that a record has: a length and a number fit eight bytes.
pub record IsSized (r : Record) : Type 0 where
  pub marketplace : length r.marketplace < 256 ^ 8
  pub sequence : r.sequence < 256 ^ 8
  pub recorded_at : r.recorded_at < 256 ^ 8
  pub actor_id : length r.actor_id < 256 ^ 8
  pub actor_kind : length r.actor_kind < 256 ^ 8
  pub action : length r.action < 256 ^ 8
  pub subject_kind : length r.subject_kind < 256 ^ 8
  pub subject_id : length r.subject_id < 256 ^ 8
  pub actor_secret : length r.actor_secret < 256 ^ 8
  pub subject_secret : length r.subject_secret < 256 ^ 8

-- What a record says beside its place in the chain.
abbrev pub unlinked : Record → Record
unlinked r = record r { previous_hash = []; hash = [] }

-- The bytes that are hashed determine the hash before the record and everything that the record
-- says: no two records become one by moving a boundary between fields.
pub digest_input-injective :
    (p q : Bytes) (r s : Record)
    → length p < 256 ^ 8
    → length q < 256 ^ 8
    → IsSized r
    → IsSized s
    → digest_input p r ≡ digest_input q s
    → (p ≡ q) × (unlinked r ≡ unlinked s)
unfolding digest_input
digest_input-injective p q r s b c d e h =
    let (f, h) = field-injective p q _ _ b c h in
    let (f0, h) = field-injective r.marketplace s.marketplace _ _ d.marketplace e.marketplace h in
    let (f1, h) = number-injective r.sequence s.sequence _ _ d.sequence e.sequence h in
    let (f2, h) = number-injective r.recorded_at s.recorded_at _ _ d.recorded_at e.recorded_at h in
    let (f3, h) = field-injective r.actor_id s.actor_id _ _ d.actor_id e.actor_id h in
    let (f4, h) = field-injective r.actor_kind s.actor_kind _ _ d.actor_kind e.actor_kind h in
    let (f5, h) = field-injective r.action s.action _ _ d.action e.action h in
    let (f6, h) =
      field-injective r.subject_kind s.subject_kind _ _ d.subject_kind e.subject_kind h in
    let (f7, h) = field-injective r.subject_id s.subject_id _ _ d.subject_id e.subject_id h in
    let (f8, h) =
      field-injective r.actor_secret s.actor_secret _ _ d.actor_secret e.actor_secret h in
    let (f9, h) =
      field-injective r.subject_secret s.subject_secret [] [] d.subject_secret e.subject_secret h in
    (
      f,
      λ i. record {
        marketplace = f0 i;
        sequence = f1 i;
        recorded_at = f2 i;
        actor_id = f3 i;
        actor_kind = f4 i;
        action = f5 i;
        subject_kind = f6 i;
        subject_id = f7 i;
        actor_secret = f8 i;
        subject_secret = f9 i;
        previous_hash = [];
        hash = [];
      },
    )
