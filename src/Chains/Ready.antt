-- ===== src/Chains/Ready.antt =====
-- chains.js: what is available on a chain: `canDiscover`, `canSettle`, `canGasless`,
-- `isPlaceholder`, `stealthReady` and `stealthConfigFor`.
use open_beanie.Base.{
  ℕ, Bool, true, false, not, ◌&&◌, ◌||◌, ◌==◌, leb, if◌then◌else◌, List, [], ◌∷◌, Option, none,
  some, Text, text_eq, codes, length, all,
}
use open_beanie.Base.Strings.{to_lower, has_part, is_hex}
use open_beanie.Chains.{
  evm, starknet, solana, Eip712, Stealth, no_stealth, evm_stealth, starknet_stealth, Chain, chains,
  has_text, can_predict, solana_placeholder_keeper,
}
use open_beanie.Solana.Program.{Factory}

abbrev pub program_id : Option Factory → Option Text
program_id none = none
program_id (some p) = some p.id

abbrev pub is_some {ℓ} : {A : Type ℓ} → Option A → Bool
is_some none = false
is_some (some _) = true

unfoldable pub filter_chains : (Chain → Bool) → List Chain → List Chain
filter_chains p [] = []
filter_chains p (c ∷ cs) = let rest = filter_chains p cs in if p c then c ∷ rest else rest

unfoldable pub lane_chains : List Chain
unfolding filter_chains can_predict
lane_chains = filter_chains can_predict chains

unfoldable pub can_discover : Chain → Bool
can_discover c = elim c.kind [
  | solana ↦ has_text (program_id c.program) && has_text (some c.usdc)
  | _ ↦ false
]

unfoldable pub can_settle : Chain → Bool
unfolding can_predict can_discover
can_settle c = can_predict c || can_discover c

abbrev pub keeper_starknet_address : Text
keeper_starknet_address = codes "0x01d4a73b58909eb341e6357bd085fea917d71c386ebaecd770792f7b5a34615a"

-- A chain id of 0 counts as missing.
abbrev pub has_number : Option ℕ → Bool
has_number none = false
has_number (some n) = not (n == 0)

unfoldable pub can_gasless : Chain → Bool
can_gasless c = elim c.kind [
  | evm ↦ has_text (some c.usdc) && has_number c.chain_id && is_some c.eip712
  | starknet ↦ has_text (some c.usdc) && has_text (some keeper_starknet_address)
  | solana ↦ has_text (some c.usdc) && has_text c.keeper
]

-- `/^0x0*$/`
abbrev pub is_zero_hex : Text → Bool
is_zero_hex [] = false
is_zero_hex (_ ∷ []) = false
is_zero_hex (a ∷ b ∷ t) = a == b'0' && b == b'x' && all (λ c. c == b'0') t

unfoldable pub is_placeholder : Option Text → Bool
unfolding to_lower has_part text_eq
is_placeholder none = true
is_placeholder (some []) = true
is_placeholder (some (c ∷ s)) =
    let v = to_lower (c ∷ s) in
    text_eq v (to_lower solana_placeholder_keeper)
    || is_zero_hex v
    || has_part v (codes "0123456789abcdef0123456789abcdef")
    || has_part v (codes "your")
    || has_part v (codes "placeholder")

-- `/^0x[0-9a-f]{lo,hi}$/i`
abbrev pub is_hex_text : ℕ → ℕ → Text → Bool
is_hex_text lo hi [] = false
is_hex_text lo hi (_ ∷ []) = false
is_hex_text lo hi (a ∷ b ∷ t) =
    a == b'0' && (b == b'x' || b == b'X') && leb lo (length t) && leb (length t) hi && all is_hex t

abbrev pub is_evm_address : Text → Bool
is_evm_address = is_hex_text 40 40

abbrev pub or_empty : Option Text → Text
or_empty none = []
or_empty (some t) = t

abbrev pub is_felt : Option Text → Bool
is_felt t = is_hex_text 1 64 (or_empty t)

abbrev pub eip712_ready : Option Eip712 → Bool
eip712_ready none = false
eip712_ready (some e) = has_text (some e.name) && has_text (some e.version)

abbrev pub starknet_ready : Stealth → Text → Bool
starknet_ready (starknet_stealth class_hash chain_id max_fee_fri bounds) usdc =
    is_felt class_hash
    && not (is_placeholder class_hash)
    && has_text (some chain_id)
    && has_text (some usdc)
    && has_text (some max_fee_fri)
starknet_ready (evm_stealth _) _ = false
starknet_ready no_stealth _ = false

abbrev pub has_stealth : Stealth → Bool
has_stealth no_stealth = false
has_stealth _ = true

-- Without a chain the answer is false.
unfoldable pub stealth_ready : Chain → Bool
unfolding is_placeholder
stealth_ready c = elim c.kind [
  | solana ↦ has_text (some c.usdc) && has_text (program_id c.program)
  | evm ↦
      has_stealth c.stealth
      && is_evm_address c.usdc
      && eip712_ready c.eip712
      && has_number c.chain_id
  | starknet ↦ has_stealth c.stealth && starknet_ready c.stealth c.usdc
]

unfoldable pub stealth_chains : List Chain
unfolding filter_chains stealth_ready
stealth_chains = filter_chains stealth_ready chains
