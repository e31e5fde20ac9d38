-- ===== src/Gasless/Starknet.antt =====
-- gasless.js, `buildTypedData`, `detectSnip9Version` and `signStarknetTransfer`: a SNIP-9 outside
-- execution.
pub mod Executed
use open_beanie.Base.{
  ℕ, ◌+◌, ◌-◌, ◌/◌, Bool, true, false, not, ◌||◌, ◌==◌, if◌then◌else◌, List, [], ◌∷◌, map, Option,
  none, some, Text, text_eq, codes, length, String,
}
use open_beanie.Base.Json.{Value, nat, str, arr, obj, Fields, end, field, of_list}
use open_beanie.Base.Result.{Result, ok, err, ◌>>=◌, ◌>>◌, guard}
use open_beanie.Base.Strings.{to_lower, to_string}
use open_beanie.Chains.{has_text, starknet_chain}
use open_beanie.Chains.Ready.{can_gasless, keeper_starknet_address}
use open_beanie.Identity.{with_0x, to_hex}
use open_beanie.Onchain.{ChainError, big_int_of}
use open_beanie.Gasless.{
  SignError, from_chain, not_available, no_wallet, no_account, wrong_network, cannot_sign,
  unsupported_account, lift, or_fail,
}
use open_beanie.Gasless.Evm.{valid_for_sec, typed_field}
use open_beanie.Gasless.Outside.{
  Version, version_text, StarknetCall, Execution, texts, fields_of, type_of, types_rev0, types_rev1,
  call_rev1, call_rev0, message_rev1, message_rev0, outside_domain, build_typed_data, v1, v2,
}

abbrev pub snip9_v1_interface_id : Text
snip9_v1_interface_id = codes "0x68cfd18b92d1907b8ba3cc324900277f5a3622099431ea85dd8089255e4181"

abbrev pub snip9_v2_interface_id : Text
snip9_v2_interface_id = codes "0x1d1144bb2138366ff28d8e9ab57456b1d332ac42196230c3a602003c89872"

-- `out.length > 0 && BigInt(out[0]) !== 0n`
abbrev pub is_nonzero : List Text → Result ChainError Bool
unfolding big_int_of
is_nonzero [] = ok false
is_nonzero (t ∷ _) = big_int_of t >>= λ n. ok (not (n == 0))

-- `detectSnip9Version`, on the answers for the two interfaces.
abbrev pub version_of : Result ChainError Bool → Result ChainError Bool → Result SignError Version
version_of (ok true) _ = ok v2
version_of (ok false) (ok true) = ok v1
version_of (ok false) (ok false) = err unsupported_account
version_of (ok false) (err _) = err unsupported_account
version_of (err _) (ok true) = ok v1
version_of (err _) (ok false) = err unsupported_account
version_of (err _) (err _) = ok v2

-- What a signature comes as: texts, or two numbers.
pub data Signed : Type 0 where
  items : List Text → Signed
  pair : Text → Text → Signed

-- The wallet: the account that is selected, if it can sign, the chain id that it reports, which may
-- be missing or fail, and its signing.
pub record StarknetWallet : Type 0 where
  pub connects : Result SignError (Unit {0})
  pub selected : Option Text
  pub can_sign : Bool
  pub reported_chain : Result SignError (Option Text)
  pub sign_message : Value → Result SignError Signed

-- starknet.js: an address that is validated and parsed, the selector of a name, and the compiled
-- calldata of a recipient and an amount as a u256.
pub record StarknetJs : Type 0 where
  pub parse_address : Text → Result SignError Text
  pub selector : Text → Text
  pub transfer_calldata : Text → Text → List Text

pub record StarknetPayload : Type 0 where
  pub execution : Execution
  pub signature : List Text
  pub user_address : Text
  pub version : Version

abbrev pub mainnet : Text
mainnet = codes "0x534e5f4d41494e"

-- What is not reported, or is empty, leaves mainnet.
abbrev pub chain_or_mainnet : Result SignError (Option Text) → Text
chain_or_mainnet (ok (some (c ∷ t))) = c ∷ t
chain_or_mainnet (ok (some [])) = mainnet
chain_or_mainnet (ok none) = mainnet
chain_or_mainnet (err _) = mainnet

-- `/^(SN_MAIN|0x534e5f4d41494e)$/i`
abbrev pub is_mainnet : Text → Bool
unfolding to_lower text_eq
is_mainnet t = text_eq (to_lower t) (codes "sn_main") || text_eq (to_lower t) mainnet

abbrev pub selected_address : Option Text → Result SignError Text
selected_address none = err no_account
selected_address (some t) = if has_text (some t) then ok t else err no_account

abbrev pub hex_felt : Text → Result SignError Text
unfolding big_int_of to_string
hex_felt v = lift from_chain (big_int_of v) >>= λ n. ok (with_0x (to_string 16 n))

abbrev pub signature_of : Signed → Result SignError (List Text)
unfolding big_int_of to_string
signature_of (items ts) = ok ts
signature_of (pair r s) = hex_felt r >>= λ a. hex_felt s >>= λ b. ok (a ∷ b ∷ [])

-- `supports` is the call of supports_interface on the public node, for an account and an interface.
module _ (js : StarknetJs) (supports : Text → Text → Result ChainError (List Text)) where
  abbrev pub supports_interface : Text → Text → Result ChainError Bool
  unfolding big_int_of
  supports_interface address id = supports address id >>= is_nonzero

  unfoldable pub detect_snip9_version : Text → Result SignError Version
  unfolding big_int_of
  detect_snip9_version address =
      version_of (supports_interface address snip9_v2_interface_id)
        (supports_interface address snip9_v1_interface_id)

  abbrev pub execution_of : Text → Text → Text → List Text → ℕ → List ℕ → Execution
  unfolding to_hex
  execution_of caller usdc selector calldata now random = record {
    caller = caller;
    nonce = with_0x (to_hex random);
    execute_after = now / 1000 - 60;
    execute_before = now / 1000 + valid_for_sec;
    calls = record { to = usdc; selector = selector; calldata = calldata } ∷ [];
  }

  -- `now` is the time in milliseconds, `random` the 31 random bytes.
  unfoldable pub sign_starknet_transfer :
      Option StarknetWallet → ℕ → List ℕ → Text → Text → Result SignError StarknetPayload
  unfolding can_gasless detect_snip9_version build_typed_data to_lower text_eq to_hex big_int_of
      to_string
  sign_starknet_transfer provider now random receiver amount_raw =
      guard (can_gasless starknet_chain) not_available >>= λ _.
      or_fail no_wallet provider >>= λ wallet. wallet.connects >>= λ _.
      selected_address wallet.selected >>= λ raw. guard wallet.can_sign cannot_sign >>= λ _.
      js.parse_address raw >>= λ user. js.parse_address keeper_starknet_address >>= λ caller.
      let chain_id = chain_or_mainnet wallet.reported_chain in
      guard (is_mainnet chain_id) (wrong_network starknet_chain.name) >>= λ _.
      detect_snip9_version user >>= λ version. js.parse_address receiver >>= λ recipient.
      js.parse_address starknet_chain.usdc >>= λ usdc.
      let execution =
        execution_of caller usdc (js.selector (codes "transfer"))
          (js.transfer_calldata recipient amount_raw) now random in
      wallet.sign_message (build_typed_data execution chain_id version) >>= λ signed.
      signature_of signed >>= λ signature. ok (record {
        execution = execution;
        signature = signature;
        user_address = user;
        version = version;
      })
