-- ===== src/RateLimit/Subjects.antt =====
-- internal/platform/ratelimit/database.go: a limiter's name and a key joined by a colon, which no
-- name holds, so that a row belongs to one limiter.
use marketplace.Base.{◌≡◌, refl, true, ◌&&◌, [], ◌∷◌, ◌++◌, arith, Bytes, same_bytes, all}
use marketplace.RateLimit.{is_name_byte, valid_name, starts_with, subject_of}

pub valid_name-all : (name : Bytes) → valid_name name ≡ true → all is_name_byte name ≡ true
unfolding valid_name
valid_name-all [] h = refl
valid_name-all (c ∷ cs) h = ground arith

-- Two subjects are one exactly when the limiters and the keys are.
pub same_bytes-subject_of :
    (n m k l : Bytes)
    → all is_name_byte n ≡ true
    → all is_name_byte m ≡ true
    → same_bytes (subject_of n k) (subject_of m l) ≡ (same_bytes n m && same_bytes k l)
unfolding same_bytes
same_bytes-subject_of [] [] k l p q = refl
same_bytes-subject_of [] (d ∷ ds) k l p q = ground arith
same_bytes-subject_of (c ∷ cs) [] k l p q = ground arith
same_bytes-subject_of (c ∷ cs) (d ∷ ds) k l p q = ground (arith, same_bytes-subject_of cs ds k l)

-- A limiter's pattern takes the subjects of its own name alone.
pub starts_with-subject_of :
    (n m l : Bytes)
    → all is_name_byte n ≡ true
    → all is_name_byte m ≡ true
    → starts_with (n ++ b':' ∷ []) (subject_of m l) ≡ same_bytes n m
unfolding same_bytes starts_with
starts_with-subject_of [] [] l p q = refl
starts_with-subject_of [] (d ∷ ds) l p q = ground arith
starts_with-subject_of (c ∷ cs) [] l p q = ground arith
starts_with-subject_of (c ∷ cs) (d ∷ ds) l p q = ground (arith, starts_with-subject_of cs ds l)
