-- ===== src/Onchain.antt =====
-- onchain.js: reads through the proxy and a public node, and the prediction of a receiver.
pub mod Sources
pub mod Deposits
pub mod Windows
pub mod Signatures
pub mod Accounts
use open_beanie.Base.{
  ℕ, ◌+◌, Bool, true, false, not, ◌&&◌, ◌||◌, ◌==◌, leb, if◌then◌else◌, List, [], ◌∷◌, ◌++◌, Option,
  none, some, Text, text_eq, codes, length, drop, all,
}
use open_beanie.Base.Result.{Result, ok, err, ◌>>=◌}
use open_beanie.Base.Strings.{to_lower, trim, pad_start, to_string, of_string, is_hex, is_digit}
use open_beanie.Chains.{Kind, evm, starknet, solana, Chain, chain_by_key}
use open_beanie.Identity.{CctpRoute, with_0x}
use open_beanie.Solana.Program.{strip_0x}

-- `rpc_error` is the node's own answer, `transport` any other failure of a call.
pub data ChainError : Type 0 where
  rpc_error : Text → ChainError
  transport : Text → ChainError
  malformed : Text → ChainError
  unknown_chain : Text → ChainError
  unexpected_predict : ChainError
  empty_predict : ChainError
  not_predictable : Text → ChainError
  differs : Text → ChainError
  unconfirmed : Text → ChainError → ChainError
  no_block_height : Text → ChainError
  too_many : ChainError
  unreadable : Text → ChainError
  out_of_fuel : ChainError

-- A log of a transfer. What the code reads by `parseInt` is a number here: a node sends hex.
pub record Log : Type 0 where
  pub data_text : Text
  pub transaction_hash : Text
  pub block_number : ℕ

pub record Event : Type 0 where
  pub words : List Text
  pub transaction_hash : Text
  pub block_number : ℕ

-- A page of events; `continuation_token` is missing on the last one.
pub record EventPage : Type 0 where
  pub events : List Event
  pub continuation_token : Option Text

pub record Signature : Type 0 where
  pub signature : Text
  pub slot : ℕ
  pub is_err : Bool

-- `parsed` of an instruction; a missing amount, mint or account is `none`.
pub record Parsed : Type 0 where
  pub kind_of : Text
  pub destination : Option Text
  pub source : Option Text
  pub authority : Option Text
  pub multisig_authority : Option Text
  pub amount : Text
  pub token_amount : Text
  pub mint : Option Text

pub record Instruction : Type 0 where
  pub program_id : Text
  pub parsed : Option Parsed

-- A transaction with its metadata: the instructions at the top and the inner ones behind them.
pub record SolanaTransaction : Type 0 where
  pub is_err : Bool
  pub instructions : List Instruction
  pub inner : List (List Instruction)

-- What a node answers to the calls that are made of it.
pub record Node : Type 0 where
  pub eth_call : Option Text → Text → Result ChainError Text
  pub eth_block_number : Result ChainError ℕ
  pub eth_get_logs : Text → Text → Text → Text → Result ChainError (List Log)
  pub starknet_call : Option Text → List Text → Result ChainError (List Text)
  pub starknet_block_number : Result ChainError ℕ
  pub starknet_get_events : Text → ℕ → ℕ → Text → Option Text → Result ChainError EventPage
  pub get_slot : Result ChainError ℕ
  pub get_signatures : Text → Option Text → Result ChainError (List Signature)
  pub get_transaction : Text → Result ChainError (Option SolanaTransaction)

-- The two sources of a chain: the proxy, and the public node.
pub record Net : Type 0 where
  pub proxy : Node
  pub public : Node

pub record Options : Type 0 where
  pub direct : Bool
  pub proxy_only : Bool

abbrev pub rpc_proxy_enabled : Bool
rpc_proxy_enabled = true

abbrev pub strict_prediction : Bool
strict_prediction = true

abbrev pub is_rpc_error : ChainError → Bool
is_rpc_error (rpc_error _) = true
is_rpc_error _ = false

-- `rpc`, on the answers of the two sources to one call.
unfoldable pub rpc {ℓ} :
    {A : Type ℓ} → Options → Result ChainError A → Result ChainError A → Result ChainError A
rpc o via_proxy via_node = if o.direct || not rpc_proxy_enabled then via_node else elim via_proxy [
  | ok a ↦ ok a
  | err e ↦ if is_rpc_error e || o.proxy_only then err e else via_node
]

abbrev pub default_options : Options
default_options = record { direct = false; proxy_only = false }

abbrev pub proxy_options : Options
proxy_options = record { direct = false; proxy_only = true }

abbrev pub direct_options : Options
direct_options = record { direct = true; proxy_only = false }

unfoldable pub require_chain : Text → Result ChainError Chain
require_chain key = elim (chain_by_key key) [ none ↦ err (unknown_chain key) | some c ↦ ok c ]

-- `BigInt` of a text. Signs and the prefixes 0o and 0b, which no node sends, are refused.
unfoldable pub big_int_of : Text → Result ChainError ℕ
unfolding strip_0x
big_int_of value =
    let t = trim value in
    let hex = strip_0x t in
    if length hex == length t
    then (if all is_digit t then ok (of_string 10 t) else err (malformed value))
    else if not (length hex == 0) && all is_hex hex
    then ok (of_string 16 hex)
    else err (malformed value)

abbrev pub pad32 : Text → Text
pad32 hex = pad_start 64 b'0' (to_lower (strip_0x hex))

abbrev pub to_hex_num : ℕ → Text
to_hex_num n = with_0x (to_string 16 n)

-- `/^0x[0-9a-fA-F]{64}$/`
abbrev pub is_word : Text → Bool
is_word [] = false
is_word (_ ∷ []) = false
is_word (a ∷ b ∷ t) = a == b'0' && b == b'x' && length t == 64 && all is_hex t

abbrev pub evm_result : Text → Result ChainError Text
evm_result out = if is_word out then ok (with_0x (drop 26 out)) else err unexpected_predict

-- `!out?.[0]`
abbrev pub first_felt : List Text → Result ChainError Text
first_felt [] = err empty_predict
first_felt ([] ∷ _) = err empty_predict
first_felt ((c ∷ t) ∷ _) = ok (c ∷ t)

-- The call data of the factory's predictReceiverAddress(address,bytes32,bytes32).
abbrev pub predict_data : Text → CctpRoute → Text
predict_data merchant route =
    codes "0xf05b69dd" ++ (pad32 merchant ++ (drop 2 route.chain32 ++ drop 2 route.recipient32))

unfoldable pub predict_via : Net → Chain → Text → CctpRoute → Options → Result ChainError Text
unfolding rpc
predict_via net chain merchant route o = elim chain.kind [
  | evm ↦
      rpc o (net.proxy.eth_call chain.factory (predict_data merchant route))
        (net.public.eth_call chain.factory (predict_data merchant route))
      >>= evm_result
  | starknet ↦
      let calldata = merchant ∷ route.chain_felt ∷ route.low ∷ route.high ∷ [] in
      rpc o (net.proxy.starknet_call chain.factory calldata)
        (net.public.starknet_call chain.factory calldata)
      >>= first_felt
  | solana ↦ err (not_predictable chain.name)
]

unfoldable pub same_address : Kind → Text → Text → Result ChainError Bool
same_address evm a b = ok (text_eq (to_lower a) (to_lower b))
same_address starknet a b = big_int_of a >>= λ m. big_int_of b >>= λ n. ok (m == n)
same_address solana a b = big_int_of a >>= λ m. big_int_of b >>= λ n. ok (m == n)

-- What is made of the two predictions, once both have settled.
unfoldable pub confirm :
    Chain → Result ChainError Text → Result ChainError Text → Result ChainError Text
unfolding same_address
confirm chain (ok p) (ok d) =
    same_address chain.kind p d >>= λ same. if same then ok d else err (differs chain.name)
confirm chain (err e) (ok d) = if strict_prediction then err (unconfirmed chain.name e) else ok d
confirm chain (ok p) (err e) = if strict_prediction then err (unconfirmed chain.name e) else ok p
confirm chain (err e) (err e') =
    if strict_prediction then err (unconfirmed chain.name e) else err e'

unfoldable pub predict_receiver : Net → Text → Text → CctpRoute → Result ChainError Text
unfolding predict_via confirm require_chain
predict_receiver net chain_key merchant route = require_chain chain_key >>= λ chain.
    if not rpc_proxy_enabled
    then predict_via net chain merchant route direct_options
    else confirm chain (predict_via net chain merchant route proxy_options)
        (predict_via net chain merchant route direct_options)

unfoldable pub head_block : Net → Text → Result ChainError ℕ
unfolding rpc require_chain
head_block net chain_key = require_chain chain_key >>= λ chain. elim chain.kind [
  | evm ↦ rpc default_options net.proxy.eth_block_number net.public.eth_block_number
  | starknet ↦ rpc default_options net.proxy.starknet_block_number net.public.starknet_block_number
  | solana ↦ rpc default_options net.proxy.get_slot net.public.get_slot
]
