-- ===== src/Credentials/Rules.antt =====
-- Which passwords, names and labels are accepted.
use marketplace.Base.{◌*◌, ◌≤◌, ◌≡◌, ◌↔◌, none, arith, Bytes, length}
use marketplace.Service.{Service}
use marketplace.Credentials.{min_password_length, max_password_length, byte_len, check_password}

-- Where normalising a password composes at most four code points into one, so that a text of at
-- most 2048 bytes is left by any result of at most 128 code points, a password may be set exactly
-- when its normal form has from 12 to 128 code points.
pub check_password_iff :
    (s : Service) (password : Bytes)
    → byte_len password ≤ 16 * length (s.normalise password)
    → (check_password s password ≡ none) ↔ (
        (min_password_length ≤ length (s.normalise password))
        × (length (s.normalise password) ≤ max_password_length))
unfolding check_password
check_password_iff s password composes = ground arith
