-- ===== src/Tests/Stealth.antt =====
-- A private lane on Starknet, and the numbers and ids that are made for one.
use open_beanie.Base.{
  ℕ, ◌+◌, ◌-◌, ◌%◌, ◌≤◌, ◌<◌, ◌≡◌, refl, true, List, [], ◌∷◌, some, text_eq, codes, drop, replicate,
  arith,
}
use open_beanie.Base.Positional.{of_digits, digits_loop}
use open_beanie.Base.Result.{ok, pos, ◌>>=◌}
use open_beanie.Base.Strings.{of_string, digit_value, to_string, digit}
use open_beanie.Base.Utf8.{utf8}
use open_beanie.Chains.{Chain, wire, chain_by_key, find_chain, starknet_chain}
use open_beanie.Chains.Config.{StealthConfig, stealth_config_for}
use open_beanie.Chains.Ready.{is_placeholder}
use open_beanie.Identity.{to_hex}
use open_beanie.Stealth.{
  Curves, Derived, Secret, bytes_to_scalar, hex64, is_valid_config, require_ready, derive,
  derive_on, derive_starknet, derive_stealth_address, derive_stealth_signer,
}
use open_beanie.Stealth.Keys.{hex64-bytes_to_scalar}
use open_beanie.Stealth.Signer.{
  Enabled, public_part, derive_stealth_address-signer, derive_fails_closed,
}
use open_beanie.Tests.Claim.{accounts}

abbrev pub curves : Curves
curves = record {
  derive_bits = λ ikm salt info n. replicate n 1;
  stark_order = 97;
  stark_key = λ key. drop 60 key;
  account_address = λ salt class_hash key cosigner. 77;
  wallet_address = λ key. codes "0x01";
  ed25519_public = λ seed. seed;
}

abbrev pub no_hash : List ℕ → List ℕ
no_hash bytes = replicate 32 7

abbrev config : StealthConfig
config = record (stealth_config_for starknet_chain) {
  class_hash = some (codes "0x5");
  cosigner = some (codes "0x833589fcd6edb6e08f4c7c32d4f71b54bda02913");
}

abbrev signer : Derived
signer = record {
  account = record {
    chain = codes "STARKNET";
    kind = starknet_chain.kind;
    address = hex64 77;
    public_key = codes "000002";
  };
  secret = some (record {
    private_key = hex64 2;
    client_address = codes "000002";
    salt = some (codes "000002");
  });
}

derived :
    derive no_hash curves accounts
      (replicate 32 3)
      (codes "lane")
      (pos 0)
      (codes "starknet")
      true
      (some config)
    ≡ ok signer
unfolding derive require_ready is_valid_config stealth_config_for is_placeholder derive_starknet
    bytes_to_scalar to_hex to_string digits_loop digit of_string digit_value of_digits wire
    chain_by_key find_chain utf8 text_eq
derived = refl

derive_fails_closed_example :
    (32 ≤ 32)
    × (n : ℕ) × (pos 0 ≡ pos n)
    × (chain : Chain) × (c : StealthConfig) × Enabled (codes "starknet") (some config) chain c
    × (s : Secret) × (derive_on no_hash curves accounts chain.kind
          (replicate 32 3)
          (codes "lane")
          n
          chain
          c
        ≡ ok (signer.account, s))
    × (signer.secret ≡ some s)
derive_fails_closed_example =
    derive_fails_closed no_hash curves accounts (replicate 32 3) (codes "lane") (pos 0)
      (codes "starknet") true (some config) signer derived

derive_stealth_address-signer_example :
    derive_stealth_address no_hash curves accounts
      (replicate 32 3)
      (codes "lane")
      (pos 0)
      (codes "starknet")
      (some config)
    ≡ (derive_stealth_signer no_hash curves accounts
          (replicate 32 3)
          (codes "lane")
          (pos 0)
          (codes "starknet")
          (some config)
        >>= λ d. ok (public_part d))
derive_stealth_address-signer_example =
    derive_stealth_address-signer no_hash curves accounts (replicate 32 3) (codes "lane") (pos 0)
      (codes "starknet") (some config)

hex64-bytes_to_scalar_example :
    (of_string 16 (drop 2 (hex64 (bytes_to_scalar (3 ∷ 255 ∷ []) 97)))
      ≡ of_digits 256 (3 ∷ 255 ∷ []) % (97 - 1) + 1)
    × (1 ≤ bytes_to_scalar (3 ∷ 255 ∷ []) 97)
    × (bytes_to_scalar (3 ∷ 255 ∷ []) 97 < 97)
hex64-bytes_to_scalar_example =
    hex64-bytes_to_scalar (3 ∷ 255 ∷ []) 97 (omega arith, (omega arith, tt)) (omega arith)
