-- ===== src/Onchain/Accounts.antt =====
-- onchain.js, the reads of accounts: tokenBalance, contractExists, starknetAccountNonce and
-- predictStealthAccount.
pub mod Confirmed
use open_beanie.Base.{
  ℕ, ◌+◌, Bool, true, false, not, ◌&&◌, ◌||◌, ◌==◌, if◌then◌else◌, List, [], ◌∷◌, ◌++◌, Option,
  none, some, Text, text_eq, codes, length, drop, get_or,
}
use open_beanie.Base.Bits.{shl}
use open_beanie.Base.Result.{Result, ok, err, ◌>>=◌, ◌>>◌, guard}
use open_beanie.Base.Strings.{to_lower, has_part, starts_with}
use open_beanie.Chains.{Kind, evm, starknet, solana, Chain, has_text}
use open_beanie.Chains.Ready.{is_hex_text, or_empty}
use open_beanie.Onchain.{
  ChainError, rpc_error, Options, rpc, rpc_proxy_enabled, default_options, proxy_options,
  direct_options, require_chain, big_int_of, pad32, confirm,
}
use open_beanie.Onchain.Deposits.{or_malformed}
use open_beanie.Solana.Program.{usdc_ata}

-- A failed call for a nonce, with the code of the node's error.
pub record NonceError : Type 0 where
  pub code : Option ℕ
  pub error : ChainError

-- What a node answers to the calls about accounts. `stealth_address` is the factory's getAddress
-- for a client, a cosigner and a salt, with its encoding and decoding by the library ethers;
-- `token_amount` is the field `value.amount`; `has_account` tells if `value` is there.
pub record AccountNode : Type 0 where
  pub erc20_balance : Text → Text → Result ChainError Text
  pub felt_balance : Text → Text → Result ChainError (List Text)
  pub token_amount : Text → Result ChainError Text
  pub code_at : Text → Result ChainError (Option Text)
  pub class_hash_at : Text → Result ChainError Text
  pub has_account : Text → Result ChainError Bool
  pub latest_blockhash : Result ChainError (Option Text)
  pub nonce_of : Text → Result NonceError Text
  pub stealth_address : Text → Text → Text → Text → Result ChainError Text

pub record Accounts : Type 0 where
  pub proxy : AccountNode
  pub public : AccountNode

-- `BigInt(v || d)`
abbrev pub big_int_or : Text → Text → Result ChainError ℕ
unfolding big_int_of
big_int_or [] d = big_int_of d
big_int_or (c ∷ t) d = big_int_of (c ∷ t)

-- `(BigInt(out?.[1] || "0") << 128n) + BigInt(out?.[0] || "0")`
unfoldable pub felts_value : List Text → Result ChainError ℕ
unfolding big_int_of
felts_value out = big_int_or (get_or out 1 []) (codes "0") >>= λ high.
    big_int_or (get_or out 0 []) (codes "0") >>= λ low. ok (shl high 128 + low)

-- No token account yet is a balance of 0.
abbrev pub token_value : Result ChainError Text → Result ChainError ℕ
unfolding big_int_of has_part to_lower
token_value (ok t) = big_int_or t (codes "0")
token_value (err (rpc_error m)) =
    if has_part (to_lower m) (codes "could not find account") then ok 0 else err (rpc_error m)
token_value (err e) = err e

-- `typeof code === "string" && code !== "0x"`
abbrev pub is_code : Option Text → Bool
unfolding text_eq
is_code none = false
is_code (some t) = not (text_eq t (codes "0x"))

-- What throws is treated as "not deployed".
abbrev pub or_false : Result ChainError Bool → Bool
or_false (ok b) = b
or_false (err _) = false

-- A unit that `.` of a pattern stands for.
abbrev pub is_dot_unit : ℕ → Bool
is_dot_unit c = not (c == 10 || c == 13 || c == 0x2028 || c == 0x2029)

-- One unit less, where `.` may take it.
abbrev pub after_dot : Text → Text
after_dot [] = []
after_dot (c ∷ v) = if is_dot_unit c then v else c ∷ v

-- The words in turn at the start of a text, at most one unit between two of them.
unfoldable pub has_words : List Text → Text → Bool
unfolding starts_with
has_words [] v = true
has_words (w ∷ ws) v =
    let rest = drop (length w) v in
    let near = has_words ws rest in
    let far = has_words ws (after_dot rest) in starts_with v w && (near || far)

-- `/contract.?not.?found/i`, tested from each unit on.
unfoldable pub says_not_found : Text → Bool
unfolding has_words
says_not_found [] = false
says_not_found (c ∷ v) =
    has_words (codes "contract" ∷ codes "not" ∷ codes "found" ∷ []) (c ∷ v) || says_not_found v

-- `e instanceof RpcError && (e.code === 20 || ...)`
unfoldable pub is_undeployed : NonceError → Bool
unfolding says_not_found to_lower
is_undeployed e = elim e.error [
  | rpc_error m ↦ elim e.code [
    | none ↦ says_not_found (to_lower m)
    | some c ↦ c == 20 || says_not_found (to_lower m)
  ]
  | _ ↦ false
]

-- `/^0x[0-9a-f]{64}$/i`
abbrev pub is_salt : Text → Bool
is_salt = is_hex_text 64 64

pub data AccountError : Type 0 where
  from_chain : ChainError → AccountError
  no_stealth_factory : Text → AccountError
  factory_missing : Text → AccountError
  invalid_salt : AccountError
  no_account_nonce : Text → AccountError

abbrev pub is_kind : Kind → Chain → Bool
is_kind evm c = elim c.kind [ evm ↦ true | _ ↦ false ]
is_kind starknet c = elim c.kind [ starknet ↦ true | _ ↦ false ]
is_kind solana c = elim c.kind [ solana ↦ true | _ ↦ false ]

abbrev pub of_chain {ℓ} : {A : Type ℓ} → Result ChainError A → Result AccountError A
of_chain (ok a) = ok a
of_chain (err e) = err (from_chain e)

abbrev pub nonce_value : Result NonceError Text → Result AccountError ℕ
unfolding big_int_of is_undeployed
nonce_value (ok t) = of_chain (big_int_of t)
nonce_value (err e) = if is_undeployed e then ok 0 else err (from_chain e.error)

module _ (sha256 : List ℕ → List ℕ) (accounts : Text → Accounts) where
  abbrev pub read {ℓ} :
      {A : Type ℓ} → Text → (AccountNode → Result ChainError A) → Result ChainError A
  unfolding rpc
  read key call = rpc default_options (call (accounts key).proxy) (call (accounts key).public)

  unfoldable pub token_balance : Text → Text → Result ChainError ℕ
  unfolding require_chain felts_value big_int_of has_part to_lower rpc
  token_balance chain_key address = require_chain chain_key >>= λ chain. elim chain.kind [
    | evm ↦
        read chain.key (λ node. node.erc20_balance chain.usdc (codes "0x70a08231" ++ pad32 address))
        >>= λ t. big_int_or t (codes "0x0")
    | starknet ↦ read chain.key (λ node. node.felt_balance chain.usdc address) >>= felts_value
    | solana ↦ or_malformed address (usdc_ata sha256 address chain.usdc) >>= λ ata.
        token_value (read chain.key (λ node. node.token_amount ata))
  ]

  unfoldable pub contract_exists : Text → Text → Result ChainError Bool
  unfolding require_chain text_eq rpc
  contract_exists chain_key address = require_chain chain_key >>= λ chain. elim chain.kind [
    | evm ↦ ok (or_false (read chain.key (λ node. node.code_at address) >>= λ c. ok (is_code c)))
    | starknet ↦
        ok (or_false (read chain.key (λ node. node.class_hash_at address) >>= λ _. ok true))
    | solana ↦ ok (or_false (read chain.key (λ node. node.has_account address)))
  ]

  -- The public node alone is asked.
  unfoldable pub starknet_account_nonce : Text → Text → Result AccountError ℕ
  unfolding require_chain is_undeployed big_int_of
  starknet_account_nonce chain_key address = of_chain (require_chain chain_key) >>= λ chain.
      guard (is_kind starknet chain) (no_account_nonce chain.name)
      >> nonce_value ((accounts chain.key).public.nonce_of address)

  unfoldable pub stealth_address_via :
      Chain → Text → Text → Text → Text → Options → Result ChainError Text
  unfolding rpc to_lower
  stealth_address_via chain factory client cosigner salt o =
      rpc o ((accounts chain.key).proxy.stealth_address factory client cosigner salt)
        ((accounts chain.key).public.stealth_address factory client cosigner salt)
      >>= λ address. ok (to_lower address)

  -- The chains have no stealth factory of their own, so it is the one that is given.
  unfoldable pub predict_stealth_account :
      Text → Text → Text → Text → Option Text → Result AccountError Text
  unfolding require_chain stealth_address_via confirm
  predict_stealth_account chain_key client cosigner salt factory =
      of_chain (require_chain chain_key) >>= λ chain.
      guard (is_kind evm chain) (no_stealth_factory chain.name) >>= λ _.
      guard (has_text factory) (factory_missing chain.name) >>= λ _.
      guard (is_salt salt) invalid_salt >>= λ _. of_chain (
        if not rpc_proxy_enabled
        then stealth_address_via chain (or_empty factory) client cosigner salt direct_options
        else confirm chain
            (stealth_address_via chain (or_empty factory) client cosigner salt proxy_options)
            (stealth_address_via chain (or_empty factory) client cosigner salt direct_options))
