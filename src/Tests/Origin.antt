-- ===== src/Tests/Origin.antt =====
-- The theorem on the address of a client, with a forged beginning of the header.
use marketplace.Base.{◌≤◌, length, arith, none, some, [], ◌∷◌, Bytes}
use marketplace.Credentials.{trim_space, trim_right, trim_left}
use marketplace.Text.{split_on}
use marketplace.Origin.{Addresses, comma, chain_of, entries}

abbrev pub some_addresses : Addresses
some_addresses = record { parse = λ text. some text; split_host_port = λ text. none }

abbrev pub forged : Bytes
forged = b'6' ∷ []

-- " 1, 2": the client's address and the front end's
abbrev pub appended : Bytes
appended = b' ' ∷ b'1' ∷ comma ∷ b' ' ∷ b'2' ∷ []

pub appended-long : 2 ≤ length (chain_of (appended ∷ []))
unfolding chain_of entries split_on trim_space trim_right trim_left
appended-long = omega arith
