-- ===== src/Lane/Resolve.antt =====
-- lane.js, `sameIdentity` and `resolveStealthConfig`: the settings that private lanes are derived
-- from.
use open_beanie.Base.{
  Bool, true, false, ◌&&◌, if◌then◌else◌, List, [], ◌∷◌, Option, none, some, Text, text_eq, codes,
}
use open_beanie.Base.Result.{Result, ok, err, ◌>>=◌, ◌>>◌, guard}
use open_beanie.Base.Strings.{to_lower, to_upper}
use open_beanie.Chains.{Kind, evm, starknet, solana, Chain, has_text}
use open_beanie.Chains.Config.{StealthConfig, stealth_config_for}
use open_beanie.Chains.Ready.{or_empty, stealth_ready}
use open_beanie.Identity.{canonical_evm, canonical_address}
use open_beanie.Lane.{LaneError, not_private, no_cosigner, incomplete_settings, settings_differ}

-- An item of `response.cosigners`; what is missing is the empty text.
pub record Published : Type 0 where
  pub chain : Text
  pub cosigner : Text
  pub factory : Text
  pub relayer : Text

abbrev pub in_lower_case : Kind → Bool
in_lower_case solana = false
in_lower_case evm = true
in_lower_case starknet = true

abbrev pub same_texts : Kind → Text → Text → Bool
unfolding to_lower text_eq
same_texts kind a b = if in_lower_case kind then text_eq (to_lower a) (to_lower b) else text_eq a b

-- `!a || !b` is false.
unfoldable pub same_identity : Kind → Option Text → Option Text → Bool
unfolding to_lower text_eq
same_identity kind a b = has_text a && has_text b && same_texts kind (or_empty a) (or_empty b)

unfoldable pub find_published : Text → List Published → Option Published
unfolding to_upper text_eq
find_published key [] = none
find_published key (p ∷ ps) =
    if text_eq (to_upper p.chain) key then some p else find_published key ps

-- The settings as published, in canonical form.
pub record Live : Type 0 where
  pub cosigner : Option Text
  pub factory : Option Text
  pub relayer : Option Text

unfoldable pub live_of : Chain → Published → Live
unfolding canonical_evm canonical_address
live_of chain p = elim chain.kind [
  | starknet ↦ record { cosigner = canonical_evm p.cosigner; factory = none; relayer = none }
  | evm ↦ record {
    cosigner = canonical_address chain.key p.cosigner;
    factory = canonical_address chain.key p.factory;
    relayer = none;
  }
  | solana ↦ record {
    cosigner = canonical_address chain.key p.cosigner;
    factory = none;
    relayer = canonical_address (codes "SOLANA") p.relayer;
  }
]

abbrev pub is_complete : Kind → Live → Bool
is_complete evm l = has_text l.cosigner && has_text l.factory
is_complete starknet l = has_text l.cosigner
is_complete solana l = has_text l.cosigner && has_text l.relayer

-- `a ?? b`, for a field of `{ ...b, ...a }`; a field that is null counts as missing.
abbrev pub over {ℓ} : {A : Type ℓ} → Option A → Option A → Option A
over none b = b
over (some a) b = some a

-- `{ ...base, ...snapshot }`
abbrev pub merged : StealthConfig → StealthConfig → StealthConfig
merged base s = record {
  factory = over s.factory base.factory;
  cosigner = over s.cosigner base.cosigner;
  relayer = over s.relayer base.relayer;
  class_hash = over s.class_hash base.class_hash;
  usdc = over s.usdc base.usdc;
  chain_id = over s.chain_id base.chain_id;
  eip712 = over s.eip712 base.eip712;
  max_auth_window_secs = over s.max_auth_window_secs base.max_auth_window_secs;
  max_fee_fri = over s.max_fee_fri base.max_fee_fri;
  resource_bounds = over s.resource_bounds base.resource_bounds;
}

-- `{ ...base, ...live }`
abbrev pub with_live : StealthConfig → Live → StealthConfig
with_live base l = record base {
  cosigner = over l.cosigner base.cosigner;
  factory = over l.factory base.factory;
  relayer = over l.relayer base.relayer;
}

-- The check of one key of the snapshot.
abbrev pub check_setting : Chain → Text → Option Text → Option Text → Result LaneError (Unit {0})
unfolding same_identity
check_setting chain key a b = guard (same_identity chain.kind a b) (settings_differ chain.name key)

abbrev pub check_snapshot : Chain → StealthConfig → Live → Result LaneError (Unit {0})
unfolding same_identity
check_snapshot chain s l = check_setting chain (codes "cosigner") s.cosigner l.cosigner >>= λ _.
    elim chain.kind [
      | evm ↦ check_setting chain (codes "factory") s.factory l.factory
      | solana ↦ check_setting chain (codes "relayer") s.relayer l.relayer
      | starknet ↦ ok tt
    ]

abbrev pub or_no_cosigner : Chain → Option Published → Result LaneError Published
or_no_cosigner chain none = err (no_cosigner chain.name)
or_no_cosigner chain (some p) = ok p

abbrev pub with_snapshot :
    Chain → StealthConfig → Live → Option StealthConfig → Result LaneError StealthConfig
unfolding same_identity
with_snapshot chain base live none = ok (with_live base live)
with_snapshot chain base live (some s) = check_snapshot chain s live >>= λ _. ok (merged base s)

-- `published` is the answer of the API.
unfoldable pub resolve_stealth_config :
    Chain
    → Result LaneError (List Published)
    → Option StealthConfig
    → Result LaneError StealthConfig
unfolding stealth_ready stealth_config_for find_published live_of same_identity
resolve_stealth_config chain published snapshot =
    guard (stealth_ready chain) (not_private chain.name) >> published >>= λ items.
    or_no_cosigner chain (find_published chain.key items) >>= λ item.
    guard (is_complete chain.kind (live_of chain item)) (incomplete_settings chain.name) >>= λ _.
    with_snapshot chain (stealth_config_for chain) (live_of chain item) snapshot
