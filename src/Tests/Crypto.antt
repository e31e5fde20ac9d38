-- ===== src/Tests/Crypto.antt =====
-- A known value of the hash.
use open_beanie.Base.{◌≡◌, refl, [], codes}
use open_beanie.Base.Positional.{digits_loop}
use open_beanie.Base.Strings.{to_string, digit}
use open_beanie.Identity.Keccak.{keccak256}
use open_beanie.Identity.{to_hex}

keccak256_empty :
    to_hex (keccak256 []) ≡ codes "c5d2460186f7233c927e7db2dcc703c0e500b653ca82273b7bfad8045d85a470"
unfolding to_hex keccak256 to_string digits_loop digit
keccak256_empty = refl
