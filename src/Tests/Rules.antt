-- ===== src/Tests/Rules.antt =====
-- The theorems on the policy, the recovery codes' reading and the passwords' rule at concrete inputs.
use marketplace.Base.{◌*◌, ◌≤◌, ◌≡◌, refl, some, [], ◌∷◌, map, Bytes, arith, length}
use marketplace.Recovery.{symbol, write_code, recovery_hash, recovery_symbols}
use marketplace.Recovery.Reading.{recovery_hash-write_code}
use marketplace.Credentials.{byte_len}
use marketplace.Tests.Data.{some_crypto}

abbrev twelve : Bytes
twelve = 0 ∷ 31 ∷ 32 ∷ 255 ∷ 4 ∷ 5 ∷ 6 ∷ 7 ∷ 8 ∷ 9 ∷ 10 ∷ 11 ∷ []

recovery_hash-write_code_example :
    recovery_hash some_crypto (write_code twelve) ≡ some (map symbol twelve)
recovery_hash-write_code_example = recovery_hash-write_code some_crypto twelve refl

twelve_symbols : length (map symbol twelve) ≡ recovery_symbols
twelve_symbols = refl

few_bytes : byte_len twelve ≤ 16 * length twelve
unfolding byte_len
few_bytes = omega arith
