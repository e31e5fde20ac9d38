-- ===== src/Claim/Starknet.antt =====
-- stealth.claim.js, `felt`, `checkedStarknetBounds` and `buildStarknetClaim`.
pub mod Sound
use open_beanie.Base.{
  ℕ, ◌+◌, ◌*◌, Bool, true, false, not, ◌&&◌, ◌==◌, ltb, leb, if◌then◌else◌, List, [], ◌∷◌, ◌++◌,
  Option, none, some, Text, text_eq, codes, length,
}
use open_beanie.Base.Bits.{low_bits, shr}
use open_beanie.Base.Result.{Result, ok, err, ◌>>=◌, ◌>>◌, guard}
use open_beanie.Base.Strings.{to_string}
use open_beanie.Chains.{Bound, ResourceBounds, has_text, starknet_chain}
use open_beanie.Chains.Config.{ChainId, number, felt, StealthConfig}
use open_beanie.Chains.Ready.{or_empty}
use open_beanie.Identity.{stark_prime, with_0x, canonical_address}
use open_beanie.Onchain.{malformed, big_int_of}
use open_beanie.Onchain.Accounts.{Accounts, starknet_account_nonce}
use open_beanie.Stealth.{has_chain_id}
use open_beanie.Claim.{
  ClaimError, from_chain, from_account, invalid_destination, own_account, nothing_to_claim,
  incomplete_config, bounds_missing, bound_not_positive, above_fee_cap, out_of_felt_range, lift,
  or_fail, Signer, starknet_sig, Call, StarknetPart, Built,
}

-- `felt` of a number.
unfoldable pub felt_text : ℕ → Result ClaimError Text
unfolding to_string
felt_text n = if leb stark_prime n then err out_of_felt_range else ok (with_0x (to_string 16 n))

-- `felt` of a text.
abbrev pub felt_of : Text → Result ClaimError Text
unfolding felt_text big_int_of
felt_of t = lift from_chain (big_int_of t) >>= felt_text

-- One round of the loop: what the bound adds to the maximum.
unfoldable pub bound_cost : Text → Bound → Result ClaimError ℕ
unfolding big_int_of
bound_cost name b = lift from_chain (big_int_of b.max_amount) >>= λ amount.
    lift from_chain (big_int_of b.max_price_per_unit) >>= λ price.
    guard (not (amount == 0) && not (price == 0)) (bound_not_positive name) >> ok (amount * price)

unfoldable pub checked_starknet_bounds : StealthConfig → Result ClaimError ResourceBounds
unfolding bound_cost big_int_of
checked_starknet_bounds config = or_fail bounds_missing config.resource_bounds >>= λ bounds.
    bound_cost (codes "l1_gas") bounds.l1_gas >>= λ l1.
    bound_cost (codes "l2_gas") bounds.l2_gas >>= λ l2.
    bound_cost (codes "l1_data_gas") bounds.l1_data_gas >>= λ l1_data.
    or_fail (from_chain (malformed [])) config.max_fee_fri >>= λ fee.
    lift from_chain (big_int_of fee) >>= λ cap.
    guard (leb (l1 + l2 + l1_data) cap) above_fee_cap >> ok bounds

abbrev pub chain_felt : Option ChainId → Text
unfolding to_string
chain_felt (some (felt t)) = t
chain_felt (some (number n)) = to_string 10 n
chain_felt none = []

-- What the hash of the transaction is computed from; the modes are 0 and the lists empty.
pub record Invoke : Type 0 where
  pub sender_address : Text
  pub version : Text
  pub compiled_calldata : List Text
  pub chain_id : Text
  pub nonce : Text
  pub tip : Text
  pub resource_bounds : ResourceBounds

-- `[to, felt(amountLow), felt(amountHigh)]`
unfoldable pub transfer_data : Text → ℕ → Result ClaimError (List Text)
unfolding felt_text
transfer_data to balance = felt_text (low_bits balance 128) >>= λ low.
    felt_text (shr balance 128) >>= λ high. ok (to ∷ low ∷ high ∷ [])

-- What the code calls of starknet.js: the selector of a name, the hash of a transaction with the
-- compiled calldata, and the signature of a hash, r and s.
pub record StarknetLib : Type 0 where
  pub selector : Text → Text
  pub compile : List Text → List Text
  pub invoke_hash : Invoke → Text
  pub sign : Text → Text → Text × Text

module _ (sha256 : List ℕ → List ℕ) (accounts : Text → Accounts) (lib : StarknetLib) where
  abbrev pub starknet_complete : StealthConfig → Bool
  starknet_complete c =
      has_text c.usdc && has_text c.class_hash && has_text c.cosigner && has_chain_id c.chain_id

  -- One call: the token, the selector, and its data behind their count.
  unfoldable pub invoke_calldata : Text → List Text → Result ClaimError (List Text)
  unfolding felt_text big_int_of
  invoke_calldata usdc transfer = felt_text 1 >>= λ one. felt_of usdc >>= λ token.
      felt_of (lib.selector (codes "transfer")) >>= λ selector.
      felt_text (length transfer) >>= λ count.
      ok ((one ∷ token ∷ selector ∷ count ∷ []) ++ transfer)

  abbrev pub invoke_of : Signer → StealthConfig → ResourceBounds → ℕ → List Text → Invoke
  unfolding to_string
  invoke_of signer config bounds nonce calldata = record {
    sender_address = signer.address;
    version = codes "0x3";
    compiled_calldata = lib.compile calldata;
    chain_id = chain_felt config.chain_id;
    nonce = to_string 10 nonce;
    tip = codes "0";
    resource_bounds = bounds;
  }

  abbrev pub starknet_part : Signer → ResourceBounds → ℕ → StarknetPart
  unfolding to_string
  starknet_part signer bounds nonce = record {
    client_pubkey = signer.public_key;
    deploy_salt = signer.salt;
    nonce = to_string 10 nonce;
    tip = codes "0";
    l1_gas = bounds.l1_gas;
    l2_gas = bounds.l2_gas;
    l1_data_gas = bounds.l1_data_gas;
  }

  abbrev pub sign_invoke :
      Signer → StealthConfig → ResourceBounds → ℕ → List Text → List Text → Result ClaimError Built
  unfolding felt_text big_int_of to_string
  sign_invoke signer config bounds nonce transfer calldata =
      let hash = lib.invoke_hash (invoke_of signer config bounds nonce calldata) in
      let sig = lib.sign hash signer.private_key in
      felt_of sig.0 >>= λ r. felt_of sig.1 >>= λ s. felt_of hash >>= λ tx_hash. ok (record {
        tx_hash = tx_hash;
        derived_address = signer.address;
        client_sig = starknet_sig r s;
        calls =
            record {
              contract_address = or_empty config.usdc;
              entrypoint = codes "transfer";
              calldata = transfer;
            }
            ∷ [];
        auth3009 = none;
        starknet = some (starknet_part signer bounds nonce);
        message_bytes = none;
      })

  unfoldable pub build_starknet_claim : Signer → Text → ℕ → StealthConfig → Result ClaimError Built
  unfolding checked_starknet_bounds starknet_account_nonce transfer_data invoke_calldata felt_text
      big_int_of to_string text_eq
  build_starknet_claim signer destination balance config =
      or_fail invalid_destination (canonical_address starknet_chain.key destination) >>= λ to.
      guard (not (balance == 0)) nothing_to_claim
      >> guard (starknet_complete config) incomplete_config
      >> checked_starknet_bounds config
      >>= λ bounds.
          guard (not (text_eq signer.address to)) own_account
          >> lift from_account
              (starknet_account_nonce sha256 accounts starknet_chain.key signer.address)
          >>= λ nonce. transfer_data to balance >>= λ transfer.
              invoke_calldata (or_empty config.usdc) transfer >>= λ calldata.
              sign_invoke signer config bounds nonce transfer calldata
