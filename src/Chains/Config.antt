-- ===== src/Chains/Config.antt =====
-- chains.js: `stealthConfigFor`, the pinned parameters that a private lane is derived from.
use open_beanie.Base.{ℕ, Option, none, some, Text}
use open_beanie.Chains.{
  evm, starknet, solana, Eip712, ResourceBounds, Stealth, no_stealth, evm_stealth, starknet_stealth,
  Chain,
}

-- `chainId`: a number on an EVM chain, a felt on Starknet.
pub data ChainId : Type 0 where
  number : ℕ → ChainId
  felt : Text → ChainId

-- A field that is missing or null is `none`.
pub record StealthConfig : Type 0 where
  pub factory : Option Text
  pub cosigner : Option Text
  pub relayer : Option Text
  pub class_hash : Option Text
  pub usdc : Option Text
  pub chain_id : Option ChainId
  pub eip712 : Option Eip712
  pub max_auth_window_secs : Option ℕ
  pub max_fee_fri : Option Text
  pub resource_bounds : Option ResourceBounds

abbrev pub empty_config : StealthConfig
empty_config = record {
  factory = none;
  cosigner = none;
  relayer = none;
  class_hash = none;
  usdc = none;
  chain_id = none;
  eip712 = none;
  max_auth_window_secs = none;
  max_fee_fri = none;
  resource_bounds = none;
}

abbrev pub as_number : Option ℕ → Option ChainId
as_number none = none
as_number (some n) = some (number n)

-- `...chain.stealth`, with `maxAuthWindowSecs ?? 86400` on an EVM chain.
abbrev pub with_stealth : Stealth → StealthConfig → StealthConfig
with_stealth no_stealth c = c
with_stealth (evm_stealth secs) c = record c { max_auth_window_secs = some secs }
with_stealth (starknet_stealth class_hash chain_id max_fee_fri bounds) c = record c {
  class_hash = class_hash;
  chain_id = some (felt chain_id);
  max_fee_fri = some max_fee_fri;
  resource_bounds = some bounds;
}

unfoldable pub stealth_config_for : Chain → StealthConfig
stealth_config_for c = elim c.kind [
  | solana ↦ record empty_config { usdc = some c.usdc }
  | evm ↦ record (with_stealth c.stealth empty_config) {
    chain_id = as_number c.chain_id;
    usdc = some c.usdc;
    eip712 = c.eip712;
  }
  | starknet ↦ record (with_stealth c.stealth empty_config) { usdc = some c.usdc }
]
