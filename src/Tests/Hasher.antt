-- ===== src/Tests/Hasher.antt =====
-- The theorems on the hashes of passwords, with encodings that shift every byte past the dollar.
use marketplace.Base.{
  ℕ, zero, suc, ◌+◌, ◌-◌, ◌≡◌, refl, true, not, some, none, Option, [], ◌∷◌, Bytes, arith, length,
  same_bytes, ap,
}
use marketplace.Text.{lacks}
use marketplace.Hasher.{Encoding, dollar, current_params, same_params, hash, verify, decode}
use marketplace.Hasher.Roundtrip.{IsEncoding, IsRead, OnSome, verify-hash, decode-IsRead}

shift : Bytes → Bytes
shift [] = []
shift (c ∷ cs) = (c + 37) ∷ shift cs

unshift : Bytes → Bytes
unshift [] = []
unshift (c ∷ cs) = (c - 37) ∷ unshift cs

shift-lacks : (text : Bytes) → lacks dollar (shift text) ≡ true
unfolding lacks shift
shift-lacks [] = refl
shift-lacks (c ∷ cs) = let ih = shift-lacks cs in ground arith

unshift-shift : (text : Bytes) → unshift (shift text) ≡ text
unfolding unshift shift
unshift-shift [] = refl
unshift-shift (c ∷ cs) = let ih = unshift-shift cs in ground arith

-- A text cut or filled to a length.
pad : ℕ → Bytes → Bytes
pad zero text = []
pad (suc n) [] = 0 ∷ pad n []
pad (suc n) (c ∷ cs) = c ∷ pad n cs

length-pad : (n : ℕ) (text : Bytes) → length (pad n text) ≡ n
unfolding pad
length-pad zero text = refl
length-pad (suc n) [] = ap suc (length-pad n [])
length-pad (suc n) (c ∷ cs) = ap suc (length-pad n cs)

abbrev costs_of : Bytes → Option (ℕ × ℕ × ℕ)
costs_of (m ∷ t ∷ p ∷ []) = some (m - 37, t - 37, p - 37)
costs_of _ = none

abbrev an_encoding : Encoding
an_encoding = record {
  id_key = λ password salt p. pad p.key_len password;
  print_costs = λ c. let (m, t, p) = c in (m + 37) ∷ (t + 37) ∷ (p + 37) ∷ [];
  scan_costs = costs_of;
  encode64 = shift;
  decode64 = λ text. some (unshift text);
  normalise = λ text. text;
}

an_encoding-IsEncoding : IsEncoding an_encoding
unfolding lacks
an_encoding-IsEncoding = record {
  costs_lack = λ c. ground arith;
  costs_back = λ m t p a b c. ground arith;
  text_lacks = shift-lacks;
  text_back = λ text. ap some (unshift-shift text);
  key_length = λ password salt p. length-pad p.key_len password;
}

abbrev a_salt : Bytes
a_salt = 1 ∷ 2 ∷ 3 ∷ 4 ∷ 5 ∷ 6 ∷ 7 ∷ 8 ∷ 9 ∷ 10 ∷ 11 ∷ 12 ∷ 13 ∷ 14 ∷ 15 ∷ 16 ∷ []

verify-hash_example :
    verify an_encoding current_params
      (b'x' ∷ [])
      (hash an_encoding current_params a_salt (b'p' ∷ []))
    ≡ some (
      same_bytes
          (an_encoding.id_key (b'x' ∷ []) a_salt current_params)
          (an_encoding.id_key (b'p' ∷ []) a_salt current_params),
      not (same_params current_params current_params),
    )
verify-hash_example =
    verify-hash an_encoding an_encoding-IsEncoding current_params current_params a_salt (b'p' ∷ [])
      (b'x' ∷ [])
      (
        omega arith,
        omega arith,
        omega arith,
        omega arith,
        omega arith,
        omega arith,
        omega arith,
        omega arith,
        omega arith,
      )
      (omega arith) refl

decode-IsRead_example :
    OnSome IsRead (decode an_encoding (hash an_encoding current_params a_salt (b'p' ∷ [])))
decode-IsRead_example =
    decode-IsRead an_encoding (hash an_encoding current_params a_salt (b'p' ∷ []))
