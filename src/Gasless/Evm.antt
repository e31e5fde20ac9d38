-- ===== src/Gasless/Evm.antt =====
-- gasless.js, `ensureEvmChain` and `signEvmTransfer`: an EIP-3009 authorization.
pub mod Authorized
use open_beanie.Base.{
  ℕ, ◌+◌, ◌*◌, ◌/◌, Bool, true, false, not, ◌&&◌, ◌||◌, ◌==◌, if◌then◌else◌, List, [], ◌∷◌, ◌++◌,
  Option, none, some, Text, text_eq, codes, String,
}
use open_beanie.Base.Json.{Value, nat, str, arr, obj, Fields, end, field, Items, nil, cons}
use open_beanie.Base.Result.{Result, ok, err, ◌>>=◌, ◌>>◌, guard}
use open_beanie.Base.Strings.{trim, to_string, of_string, is_hex}
use open_beanie.Chains.{Eip712, Chain, chains, find_chain, has_text}
use open_beanie.Chains.Ready.{can_gasless}
use open_beanie.Identity.{with_0x, to_hex}
use open_beanie.Solana.Program.{strip_0x}
use open_beanie.Gasless.{
  SignError, not_available, no_wallet, no_account, wrong_network, wallet_refused, or_fail,
}

abbrev pub valid_for_sec : ℕ
valid_for_sec = 600

-- The parameters of `wallet_addEthereumChain` that depend on the chain, but for its explorer.
pub record AddChain : Type 0 where
  pub chain_id : Text
  pub chain_name : Text
  pub rpc_urls : List Text

-- What the wallet answers. A refused switch comes with its code, if it has one; `reported_chain` is
-- the chain id that it gives in the end.
pub record EvmWallet : Type 0 where
  pub request_accounts : Result SignError (List Text)
  pub switch_chain : Text → Result (Option ℕ) (Unit {0})
  pub add_chain : AddChain → Result SignError (Unit {0})
  pub reported_chain : Result SignError Text
  pub sign_typed_data : Text → Value → Result SignError Text

-- The hex digits at the front.
unfoldable pub hex_front : Text → Text
hex_front [] = []
hex_front (c ∷ t) = let rest = c ∷ hex_front t in if is_hex c then rest else []

abbrev pub after_sign : Text → Text
after_sign [] = []
after_sign (c ∷ t) = if c == b'+' then t else c ∷ t

-- `parseInt(t, 16)`; not a number, or a negative one, is `none`.
unfoldable pub parse_hex : Text → Option ℕ
unfolding hex_front strip_0x
parse_hex t = elim (hex_front (strip_0x (after_sign (trim t)))) [
  | [] ↦ none
  | c ∷ digits ↦ some (of_string 16 (c ∷ digits))
]

-- The payer's chain has one, as `canGasless` is tested before; without it `toString` would throw.
abbrev pub chain_id_of : Chain → ℕ
chain_id_of c = elim c.chain_id [ none ↦ 0 | some n ↦ n ]

abbrev pub is_unknown : Option ℕ → Bool
is_unknown none = false
is_unknown (some code) = code == 4902

abbrev pub is_number : Option ℕ → ℕ → Bool
is_number none n = false
is_number (some m) n = m == n

-- The wallet is asked to switch, and is told about a chain that it does not know.
abbrev pub switched : EvmWallet → Chain → Text → Result SignError (Unit {0})
switched wallet chain hex = elim (wallet.switch_chain hex) [
  | ok _ ↦ ok tt
  | err code ↦
      if is_unknown code
      then wallet.add_chain
          (record { chain_id = hex; chain_name = chain.name; rpc_urls = chain.rpc ∷ [] })
      else err wallet_refused
]

unfoldable pub ensure_evm_chain : EvmWallet → Chain → Result SignError (Unit {0})
unfolding parse_hex to_string
ensure_evm_chain wallet chain =
    switched wallet chain (with_0x (to_string 16 (chain_id_of chain))) >>= λ _.
    wallet.reported_chain >>= λ current.
    guard (is_number (parse_hex current) (chain_id_of chain)) (wrong_network chain.name)

-- `message`
pub record Authorization : Type 0 where
  pub from : Text
  pub to : Text
  pub value : Text
  pub valid_after : ℕ
  pub valid_before : ℕ
  pub nonce : Text

pub record EvmPayload : Type 0 where
  pub message : Authorization
  pub signature : Text

abbrev pub typed_field : String → String → Value
typed_field name type_name =
    obj (field (codes "name") (str (codes name)) (field (codes "type") (str (codes type_name)) end))

abbrev pub domain_type : Value
domain_type = arr (
    cons (typed_field "name" "string") (
      cons (typed_field "version" "string") (
        cons (typed_field "chainId" "uint256")
          (cons (typed_field "verifyingContract" "address") nil))))

abbrev pub authorization_type : Value
authorization_type = arr (
    cons (typed_field "from" "address") (
      cons (typed_field "to" "address") (
        cons (typed_field "value" "uint256") (
          cons (typed_field "validAfter" "uint256") (
            cons (typed_field "validBefore" "uint256")
              (cons (typed_field "nonce" "bytes32") nil))))))

abbrev pub eip712_fields : Option Eip712 → Fields → Fields
eip712_fields none fs = fs
eip712_fields (some e) fs =
    field (codes "name") (str e.name) (field (codes "version") (str e.version) fs)

-- `{ ...chain.eip712, chainId: chain.chainId, verifyingContract: chain.usdc }`
abbrev pub domain_value : Chain → Value
domain_value chain = obj (
    eip712_fields chain.eip712 (
      field (codes "chainId") (nat (chain_id_of chain))
        (field (codes "verifyingContract") (str chain.usdc) end)))

abbrev pub message_value : Authorization → Value
message_value m = obj (
    field (codes "from") (str m.from) (
      field (codes "to") (str m.to) (
        field (codes "value") (str m.value) (
          field (codes "validAfter") (nat m.valid_after) (
            field (codes "validBefore") (nat m.valid_before)
              (field (codes "nonce") (str m.nonce) end))))))

-- `typedData`, which the wallet is given as JSON.
abbrev pub typed_data : Chain → Authorization → Value
typed_data chain m = obj (
    field (codes "types")
      (obj (
        field (codes "EIP712Domain") domain_type
          (field (codes "TransferWithAuthorization") authorization_type end)))
      (field (codes "domain") (domain_value chain) (
        field (codes "primaryType") (str (codes "TransferWithAuthorization"))
          (field (codes "message") (message_value m) end))))

-- `const [from] = …; if (!from)`
abbrev pub first_account : List Text → Result SignError Text
first_account [] = err no_account
first_account (a ∷ _) = if has_text (some a) then ok a else err no_account

abbrev pub gasless_chain : Option Chain → Result SignError Chain
gasless_chain none = err not_available
gasless_chain (some c) = if can_gasless c then ok c else err not_available

abbrev pub authorization : Text → Text → Text → ℕ → List ℕ → Authorization
unfolding to_hex
authorization from receiver amount_raw now random = record {
  from = from;
  to = receiver;
  value = amount_raw;
  valid_after = 0;
  valid_before = now / 1000 + valid_for_sec;
  nonce = with_0x (to_hex random);
}

-- `now` is the time in milliseconds, `random` the 32 random bytes.
unfoldable pub sign_evm_transfer :
    Option EvmWallet → ℕ → List ℕ → Text → Text → Text → Result SignError EvmPayload
unfolding find_chain can_gasless ensure_evm_chain to_hex
sign_evm_transfer provider now random chain_key receiver amount_raw =
    gasless_chain (find_chain chain_key chains) >>= λ chain.
    or_fail no_wallet provider >>= λ wallet. wallet.request_accounts >>= λ accounts.
    first_account accounts >>= λ from. ensure_evm_chain wallet chain >>= λ _.
    let message = authorization from receiver amount_raw now random in
    wallet.sign_typed_data from (typed_data chain message) >>= λ signature.
    ok (record { message = message; signature = signature })
