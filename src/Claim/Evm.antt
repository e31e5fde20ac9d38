-- ===== src/Claim/Evm.antt =====
-- stealth.claim.js, `assertEvmClaim` and `buildEvmClaim`.
pub mod Sound
use open_beanie.Base.{
  ℕ, ◌+◌, ◌-◌, ◌*◌, ◌^◌, Bool, true, false, not, ◌&&◌, ◌==◌, ltb, leb, if◌then◌else◌, List, [], ◌∷◌,
  Option, none, some, Text, text_eq, codes, replicate,
}
use open_beanie.Base.Result.{Result, ok, err, ◌>>=◌, ◌>>◌, guard}
use open_beanie.Base.Strings.{to_lower, to_string}
use open_beanie.Chains.{Eip712, has_text}
use open_beanie.Chains.Config.{ChainId, number, felt, StealthConfig}
use open_beanie.Chains.Ready.{or_empty, eip712_ready}
use open_beanie.Identity.{with_0x, to_hex, canonical_address}
use open_beanie.Stealth.{has_chain_id}
use open_beanie.Claim.{
  ClaimError, invalid_destination, own_account, nothing_to_claim, incomplete_config, invalid_window,
  expiry_outside, or_fail, Signer, evm_sig, Auth3009, Built,
}

abbrev pub zero_evm : Text
zero_evm = with_0x (replicate 40 b'0')

-- `config.maxAuthWindowSecs ?? 86400`
abbrev pub auth_window : StealthConfig → ℕ
auth_window c = elim c.max_auth_window_secs [ none ↦ 86400 | some n ↦ n ]

-- `Number.isSafeInteger(window) && window > 120`
abbrev pub is_window : ℕ → Bool
is_window n = ltb n (2 ^ 53) && ltb 120 n

unfoldable pub assert_evm_claim : Signer → Text → ℕ → StealthConfig → Result ClaimError Text
unfolding to_lower text_eq
assert_evm_claim signer destination balance config =
    or_fail invalid_destination (canonical_address (codes "BASE") destination) >>= λ to.
    guard (not (text_eq (to_lower to) zero_evm)) invalid_destination
    >> guard (not (text_eq (to_lower to) (to_lower signer.address))) own_account
    >> guard (not (balance == 0)) nothing_to_claim
    >> guard (has_text config.usdc && has_chain_id config.chain_id && eip712_ready config.eip712)
        incomplete_config
    >> guard (is_window (auth_window config)) invalid_window
    >> ok to

pub record Domain : Type 0 where
  pub name : Text
  pub version : Text
  pub chain_id : ℕ
  pub verifying_contract : Text

-- `typedValue`: what the wallet signs.
pub record TransferAuthorization : Type 0 where
  pub from : Text
  pub to : Text
  pub value : Text
  pub valid_after : Text
  pub valid_before : Text
  pub nonce : Text

-- `Number(config.chainId)`; only Starknet's is a felt.
abbrev pub chain_number : Option ChainId → ℕ
chain_number (some (number n)) = n
chain_number (some (felt _)) = 0
chain_number none = 0

abbrev pub name_of : Option Eip712 → Text
name_of none = []
name_of (some e) = e.name

abbrev pub version_of : Option Eip712 → Text
version_of none = []
version_of (some e) = e.version

abbrev pub domain_of : StealthConfig → Domain
domain_of c = record {
  name = name_of c.eip712;
  version = version_of c.eip712;
  chain_id = chain_number c.chain_id;
  verifying_contract = or_empty c.usdc;
}

abbrev pub auth_of : Signer → Text → ℕ → ℕ → Text → Auth3009
unfolding to_string
auth_of signer to balance valid_before nonce = record {
  client = signer.client_address;
  to = to;
  value = to_string 10 balance;
  valid_after = codes "0";
  valid_before = to_string 10 valid_before;
  nonce = nonce;
  salt = signer.salt;
}

abbrev pub typed_value : Signer → Text → ℕ → ℕ → Text → TransferAuthorization
unfolding to_string
typed_value signer to balance valid_before nonce = record {
  from = signer.address;
  to = to;
  value = to_string 10 balance;
  valid_after = codes "0";
  valid_before = to_string 10 valid_before;
  nonce = nonce;
}

-- `typed_hash` and `sign` are those of ethers; `sign` gives r, s and v.
module _ (typed_hash : Domain → TransferAuthorization → Text)
    (sign : Text → Text → Text × Text × ℕ) where
  -- `now` is the time in seconds, `random` the 32 random bytes.
  unfoldable pub build_evm_claim :
      ℕ → List ℕ → Signer → Text → ℕ → StealthConfig → Result ClaimError Built
  unfolding assert_evm_claim to_hex to_string
  build_evm_claim now random signer destination balance config =
      assert_evm_claim signer destination balance config >>= λ to.
      let valid_before = now + 15 * 60 in
      guard (ltb 120 (valid_before - now) && leb (valid_before - now) (auth_window config))
        expiry_outside
      >>= λ _.
          let nonce = with_0x (to_hex random) in
          let tx_hash =
            typed_hash (domain_of config) (typed_value signer to balance valid_before nonce) in
          let sig = sign tx_hash signer.private_key in
          ok (record {
            tx_hash = tx_hash;
            derived_address = signer.address;
            client_sig = evm_sig sig.0 sig.1 sig.2;
            calls = [];
            auth3009 = some (auth_of signer to balance valid_before nonce);
            starknet = none;
            message_bytes = none;
          })
