-- ===== src/Chains.antt =====
-- chains.js: the configuration of the chains and what it makes available.
pub mod Ready
pub mod Config
use open_beanie.Base.{
  ℕ, Bool, true, false, ◌&&◌, if◌then◌else◌, List, [], ◌∷◌, Option, none, some, Text, text_eq,
  codes, String,
}
use open_beanie.Base.Strings.{to_upper, to_lower}
use open_beanie.Solana.Program.{Factory}

pub data Kind : Type 0 where
  evm starknet solana : Kind

pub record Eip712 : Type 0 where
  pub name : Text
  pub version : Text

-- `max_amount` and `max_price_per_unit` of one resource.
pub record Bound : Type 0 where
  pub max_amount : Text
  pub max_price_per_unit : Text

pub record ResourceBounds : Type 0 where
  pub l1_gas : Bound
  pub l2_gas : Bound
  pub l1_data_gas : Bound

-- The field `stealth`, by the kind of the chain; Solana's is null.
pub data Stealth : Type 0 where
  no_stealth : Stealth
  evm_stealth : ℕ → Stealth
  starknet_stealth : Option Text → Text → Text → ResourceBounds → Stealth

-- Null and missing fields are `none`; `chainId` of an EVM chain is a number.
pub record Chain : Type 0 where
  pub key : Text
  pub name : Text
  pub kind : Kind
  pub chain_id : Option ℕ
  pub rpc : Text
  pub usdc : Text
  pub factory : Option Text
  pub eip712 : Option Eip712
  pub keeper : Option Text
  pub program : Option Factory
  pub stealth : Stealth

abbrev pub solana_placeholder_keeper : Text
solana_placeholder_keeper = codes "11111111111111111111111111111111"

abbrev usdc_eip712 : Eip712
usdc_eip712 = record { name = codes "USD Coin"; version = codes "2" }

abbrev monad_usdc_eip712 : Eip712
monad_usdc_eip712 = record { name = codes "USDC"; version = codes "2" }

-- What the EVM chains have in common.
abbrev evm_chain : String → String → ℕ → String → String → Option Text → Eip712 → Chain
evm_chain key name chain_id rpc usdc factory eip712 = record {
  key = codes key;
  name = codes name;
  kind = evm;
  chain_id = some chain_id;
  rpc = codes rpc;
  usdc = codes usdc;
  factory = factory;
  eip712 = some eip712;
  keeper = none;
  program = none;
  stealth = evm_stealth 86400;
}

abbrev pub base : Chain
base =
    evm_chain "BASE" "Base" 8453 "https://mainnet.base.org"
      "0x833589fCD6eDb6E08f4c7C32D4f71b54bdA02913"
      (some (codes "0x51E9813CAd0d94b0eBC8AedC27706bDE2a94d49A")) usdc_eip712

abbrev pub ethereum : Chain
ethereum =
    evm_chain "ETHEREUM" "Ethereum" 1 "https://eth.llamarpc.com"
      "0xA0b86991c6218b36c1d19D4a2e9Eb0cE3606eB48" none usdc_eip712

abbrev pub arbitrum : Chain
arbitrum =
    evm_chain "ARBITRUM" "Arbitrum" 42161 "https://arb1.arbitrum.io/rpc"
      "0xaf88d065e77c8cC2239327C5EDb3A432268e5831" none usdc_eip712

abbrev pub monad : Chain
monad =
    evm_chain "MONAD" "Monad" 143 "https://rpc.monad.xyz"
      "0x754704Bc059F8C67012fEd69BC8A327a5aafb603" none monad_usdc_eip712

abbrev bound : String → String → Bound
bound amount price = record { max_amount = codes amount; max_price_per_unit = codes price }

abbrev pub starknet_chain : Chain
starknet_chain = record {
  key = codes "STARKNET";
  name = codes "Starknet";
  kind = starknet;
  chain_id = none;
  rpc = codes "https://starknet.drpc.org";
  usdc = codes "0x033068f6539f8e6e6b131e6b2b814e6c34a5224bc66947c47dab9dfee93b35fb";
  factory = some (codes "0x074fc53d92ed14249d7d7f37a22d879ad6d5660c2f86bcf5ae74e3d22347e30c");
  eip712 = none;
  keeper = none;
  program = none;
  stealth = starknet_stealth none (codes "0x534e5f4d41494e") (codes "200000000000000000") (record {
    l1_gas = bound "0x2710" "0x174876e800";
    l2_gas = bound "0x112a880" "0x2540be400";
    l1_data_gas = bound "0x1b58" "0x174876e800";
  });
}

abbrev pub solana_chain : Chain
solana_chain = record {
  key = codes "SOLANA";
  name = codes "Solana";
  kind = solana;
  chain_id = none;
  rpc = codes "https://api.mainnet-beta.solana.com";
  usdc = codes "EPjFWdd5AufqSSqeM2qN1xzybapC8G4wEGGkZwyTDt1v";
  factory = none;
  eip712 = none;
  keeper = some solana_placeholder_keeper;
  program = some (record {
    id = codes "BsiBBPjkAiLJgQDNmjfajHeJjpFMzJqCNz2FtzZa2Hpg";
    config_seed = codes "config";
    pending_seed = codes "pending";
  });
  stealth = no_stealth;
}

-- `Object.values(CHAINS)`
abbrev pub chains : List Chain
chains = base ∷ ethereum ∷ arbitrum ∷ monad ∷ starknet_chain ∷ solana_chain ∷ []

-- A key that is missing is the empty text.
unfoldable pub wire : Text → Text
unfolding to_upper
wire = to_upper

-- `API_CHAIN_CASE` is "lower".
unfoldable pub api_chain : Text → Text
unfolding to_lower
api_chain = to_lower

-- `CHAINS[k] ?? null`
unfoldable pub find_chain : Text → List Chain → Option Chain
find_chain k [] = none
find_chain k (c ∷ cs) = if text_eq k c.key then some c else find_chain k cs

unfoldable pub chain_by_key : Text → Option Chain
unfolding find_chain wire text_eq
chain_by_key key = find_chain (wire key) chains

abbrev pub has_text : Option Text → Bool
has_text none = false
has_text (some []) = false
has_text (some (_ ∷ _)) = true

unfoldable pub can_predict : Chain → Bool
can_predict c = elim c.kind [
  | evm ↦ has_text c.factory && has_text (some c.rpc)
  | starknet ↦ has_text c.factory && has_text (some c.rpc)
  | solana ↦ false
]
