-- ===== src/Stealth.antt =====
-- stealth.core.js: the account of a private lane, derived from the secret of the passkey.
pub mod Signer
pub mod Keys
use open_beanie.Base.{
  ℕ, ◌+◌, ◌-◌, ◌%◌, Bool, true, false, not, ◌&&◌, ◌||◌, ◌==◌, ltb, if◌then◌else◌, List, [], ◌∷◌,
  ◌++◌, Option, none, some, Text, codes, length, take, replicate,
}
use open_beanie.Base.Result.{Result, ok, err, ℤ, pos, negsuc, ◌>>=◌, ◌>>◌, guard}
use open_beanie.Base.Strings.{to_lower, pad_start, to_string, of_string}
use open_beanie.Base.Utf8.{utf8}
use open_beanie.Chains.{Kind, evm, starknet, solana, Chain, chain_by_key, has_text}
use open_beanie.Chains.Config.{ChainId, number, felt, StealthConfig, stealth_config_for}
use open_beanie.Chains.Ready.{is_some, is_placeholder, or_empty, stealth_ready}
use open_beanie.Identity.{with_0x, to_hex}
use open_beanie.Onchain.Accounts.{Accounts, AccountError, predict_stealth_account}
use open_beanie.Solana.Base58.{base58_encode, pubkey_bytes}
use open_beanie.Solana.Transfer.{token_program}

abbrev pub secp256k1_order : ℕ
secp256k1_order = 0xFFFFFFFFFFFFFFFFFFFFFFFFFFFFFFFEBAAEDCE6AF48A03BBFD25E8CD0364141

pub data StealthError : Type 0 where
  invalid_secret : StealthError
  invalid_index : StealthError
  unknown_chain : Text → StealthError
  not_enabled : Text → StealthError
  invalid_key : StealthError
  from_account : AccountError → StealthError

-- The public result, which may be kept.
pub record Account : Type 0 where
  pub chain : Text
  pub kind : Kind
  pub address : Text
  pub public_key : Text

-- What is added for a claim.
pub record Secret : Type 0 where
  pub private_key : Text
  pub client_address : Text
  pub salt : Option Text

pub record Derived : Type 0 where
  pub account : Account
  pub secret : Option Secret

-- What the code calls of WebCrypto, starknet.js, ethers and noble: HKDF with SHA-256 on a key, a
-- salt and an info; the order and the public keys of Starknet's curve; the address that a class
-- hash, a client key and a cosigner give for a salt; the address of an EVM key; an ed25519 key.
pub record Curves : Type 0 where
  pub derive_bits : List ℕ → List ℕ → List ℕ → ℕ → List ℕ
  pub stark_order : ℕ
  pub stark_key : Text → Text
  pub account_address : Text → Text → Text → Text → ℕ
  pub wallet_address : Text → Text
  pub ed25519_public : List ℕ → List ℕ

-- 64 bytes, as a number from 1 to `order - 1`.
unfoldable pub bytes_to_scalar : List ℕ → ℕ → ℕ
unfolding to_hex of_string
bytes_to_scalar bytes order = of_string 16 (to_hex bytes) % (order - 1) + 1

abbrev pub hex64 : ℕ → Text
hex64 n = with_0x (pad_start 64 b'0' (to_string 16 n))

abbrev pub has_chain_id : Option ChainId → Bool
has_chain_id none = false
has_chain_id (some (number n)) = not (n == 0)
has_chain_id (some (felt t)) = has_text (some t)

-- What a kind of chain needs of a config, none of it a placeholder.
unfoldable pub is_valid_config : Kind → StealthConfig → Bool
unfolding is_placeholder
is_valid_config evm c =
    (has_text c.factory && has_text c.usdc && is_some c.eip712 && has_chain_id c.chain_id)
    && not (is_placeholder c.factory)
    && not (is_placeholder c.cosigner)
is_valid_config starknet c =
    (has_text c.class_hash && has_text c.cosigner && has_chain_id c.chain_id && has_text c.usdc)
    && not (is_placeholder c.class_hash)
    && not (is_placeholder c.cosigner)
is_valid_config solana c =
    (has_text c.cosigner && has_text c.relayer && has_text c.usdc)
    && not (is_placeholder c.cosigner)
    && not (is_placeholder c.relayer)

abbrev pub config_or_pinned : Chain → Option StealthConfig → StealthConfig
unfolding stealth_config_for
config_or_pinned chain none = stealth_config_for chain
config_or_pinned chain (some c) = c

abbrev pub or_throw {ℓ} : {A : Type ℓ} → StealthError → Option A → Result StealthError A
or_throw e none = err e
or_throw e (some a) = ok a

unfoldable pub require_ready :
    Text → Option StealthConfig → Result StealthError (Chain × StealthConfig)
unfolding is_valid_config stealth_ready stealth_config_for
require_ready chain_key given =
    or_throw (unknown_chain chain_key) (chain_by_key chain_key) >>= λ chain.
    let config = config_or_pinned chain given in
    guard (is_valid_config chain.kind config && (is_some given || stealth_ready chain))
      (not_enabled chain.name)
    >> ok (chain, config)

abbrev pub of_account {ℓ} : {A : Type ℓ} → Result AccountError A → Result StealthError A
of_account (ok a) = ok a
of_account (err e) = err (from_account e)

abbrev pub check_index : ℤ → Result StealthError ℕ
check_index (pos n) = ok n
check_index (negsuc _) = err invalid_index

-- `${tag}:${chain}:${laneId}:${index}`
abbrev pub info_text : Text → Text → Text → ℕ → Text
info_text tag chain lane_id index =
    tag ++ (b':' ∷ (chain ++ (b':' ∷ (lane_id ++ (b':' ∷ to_string 10 index)))))

abbrev pub spend_tag : Text
spend_tag = codes "beanie-spend-v1"

abbrev pub salt_tag : Text
salt_tag = codes "beanie-create2-salt-v1"

module _ (sha256 : List ℕ → List ℕ) where
  unfoldable pub lane_salt : Text → List ℕ
  unfolding utf8
  lane_salt lane_id = sha256 (utf8 (codes "beanie-stealth-salt-v1:" ++ lane_id))

  -- `rand` is 16 random bytes and `now` the time.
  unfoldable pub generate_lane_id : Text → List ℕ → ℕ → Text
  unfolding utf8 to_hex
  generate_lane_id seed rand now =
      codes "lane_"
      ++ to_hex (sha256 (utf8 seed ++ ((0 ∷ []) ++ (rand ++ utf8 (to_string 10 now)))))

  unfoldable pub derive_solana_multisig : Text → Text → Result StealthError Text
  unfolding utf8 to_hex
  derive_solana_multisig client cosigner = or_throw invalid_key (pubkey_bytes client) >>= λ c.
      let seed = to_hex (take 16 (sha256 (utf8 (codes "beanie-multisig-v1") ++ c))) in
      or_throw invalid_key (pubkey_bytes cosigner) >>= λ k.
      or_throw invalid_key (pubkey_bytes token_program) >>= λ t.
      ok (base58_encode (sha256 (k ++ (utf8 seed ++ t))))

  module _ (curves : Curves) (accounts : Text → Accounts) where
    abbrev pub hkdf : List ℕ → Text → ℕ → List ℕ
    unfolding utf8
    hkdf ikm info n = curves.derive_bits ikm (replicate 32 0) (utf8 info) n

    unfoldable pub derive_starknet :
        List ℕ → Text → ℕ → Chain → StealthConfig → Result StealthError (Account × Secret)
    unfolding bytes_to_scalar utf8
    derive_starknet secret lane_id index chain config =
        let bits = hkdf secret (info_text spend_tag chain.key lane_id index) 64 in
        let private_key = hex64 (bytes_to_scalar bits curves.stark_order) in
        let public_key = curves.stark_key private_key in
        let address =
          curves.account_address public_key (or_empty config.class_hash) public_key
            (or_empty config.cosigner) in
        ok (
          record {
            chain = chain.key;
            kind = starknet;
            address = hex64 address;
            public_key = public_key;
          },
          record { private_key = private_key; client_address = public_key; salt = some public_key },
        )

    unfoldable pub derive_evm :
        List ℕ → Text → ℕ → Chain → StealthConfig → Result StealthError (Account × Secret)
    unfolding bytes_to_scalar utf8 to_hex to_lower predict_stealth_account
    derive_evm secret lane_id index chain config =
        let bits = hkdf secret (info_text spend_tag chain.key lane_id index) 64 in
        let private_key = hex64 (bytes_to_scalar bits secp256k1_order) in
        let client = curves.wallet_address private_key in
        let salt = with_0x (to_hex (hkdf secret (info_text salt_tag chain.key lane_id index) 32)) in
        of_account (
          predict_stealth_account sha256 accounts chain.key client (or_empty config.cosigner) salt
            config.factory)
        >>= λ address. ok (
          record { chain = chain.key; kind = evm; address = address; public_key = to_lower client },
          record { private_key = private_key; client_address = to_lower client; salt = some salt },
        )

    unfoldable pub derive_solana :
        List ℕ → Text → ℕ → Chain → StealthConfig → Result StealthError (Account × Secret)
    unfolding derive_solana_multisig utf8 to_hex
    derive_solana secret lane_id index chain config =
        let seed = hkdf secret (info_text spend_tag chain.key lane_id index) 32 in
        let client = base58_encode (curves.ed25519_public seed) in
        derive_solana_multisig client (or_empty config.cosigner) >>= λ address. ok (
          record { chain = chain.key; kind = solana; address = address; public_key = client },
          record { private_key = with_0x (to_hex seed); client_address = client; salt = none },
        )

    abbrev pub derive_on :
        Kind → List ℕ → Text → ℕ → Chain → StealthConfig → Result StealthError (Account × Secret)
    unfolding derive_starknet derive_evm derive_solana
    derive_on starknet = derive_starknet
    derive_on evm = derive_evm
    derive_on solana = derive_solana

    -- The private part is given out for a claim only.
    unfoldable pub derive :
        List ℕ → Text → ℤ → Text → Bool → Option StealthConfig → Result StealthError Derived
    unfolding require_ready derive_starknet derive_evm derive_solana
    derive lane_secret lane_id index chain_key with_private given =
        guard (not (ltb (length lane_secret) 32)) invalid_secret >> check_index index >>= λ n.
        require_ready chain_key given >>= λ ready.
        derive_on ready.0.kind lane_secret lane_id n ready.0 ready.1 >>= λ r.
        ok (record { account = r.0; secret = if with_private then some r.1 else none })

    unfoldable pub derive_stealth_address :
        List ℕ → Text → ℤ → Text → Option StealthConfig → Result StealthError Derived
    unfolding derive
    derive_stealth_address secret lane_id index chain config =
        derive secret lane_id index chain false config

    unfoldable pub derive_stealth_signer :
        List ℕ → Text → ℤ → Text → Option StealthConfig → Result StealthError Derived
    unfolding derive
    derive_stealth_signer secret lane_id index chain config =
        derive secret lane_id index chain true config
