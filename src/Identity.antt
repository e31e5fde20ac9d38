-- ===== src/Identity.antt =====
-- identity.js: canonical addresses, merchant identities and the CCTP route.
pub mod Keccak
pub mod Canonical
pub mod Route
pub mod Hex
pub mod Stable
use open_beanie.Base.{
  ℕ, ◌+◌, ◌*◌, ◌/◌, ◌%◌, ◌^◌, Bool, true, false, not, ◌&&◌, ◌||◌, ◌==◌, ltb, leb, if◌then◌else◌,
  List, [], ◌∷◌, ◌++◌, map, Option, none, some, Text, text_eq, codes, length, all, concat,
  replicate, drop,
}
use open_beanie.Base.Bits.{low_bits, shr}
use open_beanie.Base.Result.{Result, ok, err, ◌>>=◌}
use open_beanie.Base.Strings.{to_lower, trim, pad_start, pad_end, to_string, of_string, is_hex}
use open_beanie.Chains.{Kind, evm, starknet, solana, Chain, chain_by_key, wire}
use open_beanie.Identity.Keccak.{keccak256}
use open_beanie.Solana.Base58.{alphabet, base58_decode, base58_encode, index_of}
use open_beanie.Solana.Program.{strip_0x}

abbrev pub stark_prime : ℕ
stark_prime = 2 ^ 251 + 17 * 2 ^ 192 + 1

abbrev pub evm_limit : ℕ
evm_limit = 2 ^ 160

abbrev pub with_0x : Text → Text
with_0x s = b'0' ∷ b'x' ∷ s

-- `/^0x[0-9a-fA-F]{40}$/`
abbrev pub is_evm_form : Text → Bool
is_evm_form [] = false
is_evm_form (_ ∷ []) = false
is_evm_form (a ∷ b ∷ t) = a == b'0' && b == b'x' && length t == 40 && all is_hex t

unfoldable pub canonical_evm : Text → Option Text
canonical_evm value = let t = trim value in if is_evm_form t then some (to_lower t) else none

-- The part behind the prefix, if it is a felt that no EVM address can be.
abbrev pub felt_of_hex : Text → Option Text
felt_of_hex hex =
    if leb 1 (length hex) && leb (length hex) 64 && all is_hex hex
    then if ltb (of_string 16 hex) evm_limit || leb stark_prime (of_string 16 hex)
      then none
      else some (with_0x (pad_start 64 b'0' (to_lower hex)))
    else none

unfoldable pub canonical_felt : Text → Option Text
canonical_felt value = felt_of_hex (strip_0x (trim value))

abbrev pub is_base58_unit : ℕ → Bool
is_base58_unit c = elim (index_of c alphabet) [ none ↦ false | some _ ↦ true ]

-- The character class of the pattern is the alphabet.
unfoldable pub canonical_solana : Text → Option Text
unfolding index_of
canonical_solana value =
    let t = trim value in
    if leb 32 (length t) && leb (length t) 44 && all is_base58_unit t
    then elim (base58_decode t) [ none ↦ none | some b ↦ if length b == 32 then some t else none ]
    else none

abbrev pub canonical_for : Kind → Text → Option Text
canonical_for evm value = canonical_evm value
canonical_for starknet value = canonical_felt value
canonical_for solana value = canonical_solana value

unfoldable pub canonical_address : Text → Text → Option Text
unfolding canonical_evm canonical_felt canonical_solana
canonical_address chain_key value = elim (chain_by_key chain_key) [
  | none ↦ none
  | some chain ↦ canonical_for chain.kind value
]

-- `b.toString(16).padStart(2, "0")` of each byte.
unfoldable pub to_hex : List ℕ → Text
to_hex [] = []
to_hex (b ∷ bytes) = pad_start 2 b'0' (to_string 16 b) ++ to_hex bytes

-- The bytes 12 to 32 of the hash of an ASCII text.
unfoldable pub keccak_tail20 : Text → Text
keccak_tail20 s = with_0x (drop 24 (to_hex (keccak256 s)))

-- `BigInt` of a text with the prefix 0x.
abbrev pub big_int : Text → ℕ
big_int s = of_string 16 (drop 2 s)

-- `BACKEND_FELT_FORMAT` is "pad64".
unfoldable pub backend_felt_string : Text → Text
backend_felt_string felt = with_0x (pad_start 64 b'0' (to_string 16 (big_int felt)))

pub data IdentityError : Type 0 where
  invalid_identity : IdentityError
  not_derivable : Text → IdentityError
  missing_settlement : IdentityError
  unknown_settlement_chain : Text → IdentityError
  invalid_recipient : Text → IdentityError

-- The canonical forms that are tried in turn.
pub data Identity : Type 0 where
  evm_identity : Text → Identity
  felt_identity : Text → Identity
  solana_identity : Text → Identity

unfoldable pub classify : Text → Result IdentityError Identity
classify identity = elim (canonical_evm identity) [
  | some e ↦ ok (evm_identity e)
  | none ↦ elim (canonical_felt identity) [
    | some f ↦ ok (felt_identity f)
    | none ↦ elim (canonical_solana identity) [
      | some s ↦ ok (solana_identity s)
      | none ↦ err invalid_identity
    ]
  ]
]

-- `s`, the text that the backend hashes.
unfoldable pub hashed_text : Identity → Text
unfolding backend_felt_string
hashed_text (evm_identity e) = e
hashed_text (felt_identity f) = backend_felt_string f
hashed_text (solana_identity s) = s

-- `0x${BigInt(v).toString(16)}`
abbrev pub short_hex : Text → Text
short_hex v = with_0x (to_string 16 (big_int v))

module _ (sha256 : List ℕ → List ℕ) where
  unfoldable pub identity_on : Kind → Identity → Text
  unfolding hashed_text keccak_tail20
  identity_on evm (evm_identity e) = e
  identity_on evm i = keccak_tail20 (hashed_text i)
  identity_on starknet (evm_identity e) = short_hex e
  identity_on starknet (felt_identity f) = short_hex f
  identity_on starknet (solana_identity s) = short_hex (keccak_tail20 s)
  identity_on solana (solana_identity s) = s
  identity_on solana i = base58_encode (sha256 (hashed_text i))

  unfoldable pub merchant_identity : Text → Text → Result IdentityError Text
  unfolding classify identity_on
  merchant_identity chain_key identity = classify identity >>= λ i. elim (chain_by_key chain_key) [
    | some chain ↦ ok (identity_on chain.kind i)
    | none ↦ err (not_derivable chain_key)
  ]

pub record CctpRoute : Type 0 where
  pub chain32 : Text
  pub recipient32 : Text
  pub chain_felt : Text
  pub low : Text
  pub high : Text

abbrev pub zero32 : Text
zero32 = with_0x (replicate 64 b'0')

abbrev pub same_chain_route : CctpRoute
same_chain_route = record {
  chain32 = zero32;
  recipient32 = zero32;
  chain_felt = codes "0x0";
  low = codes "0x0";
  high = codes "0x0";
}

-- `SOLANA_CCTP_RECIPIENT` is "wallet", so a Solana recipient is its own public key.
unfoldable pub recipient_hex : Kind → Text → Text
unfolding to_hex
recipient_hex solana recipient = elim (base58_decode recipient) [ none ↦ [] | some b ↦ to_hex b ]
recipient_hex evm recipient = pad_start 64 b'0' (strip_0x recipient)
recipient_hex starknet recipient = pad_start 64 b'0' (strip_0x recipient)

-- The route to a recipient, from the hex digits of its 32 bytes and of the chain's name.
abbrev pub route_of : Text → Text → CctpRoute
route_of name_hex recipient = record {
  chain32 = with_0x (pad_end 64 b'0' name_hex);
  recipient32 = with_0x recipient;
  chain_felt = with_0x name_hex;
  low = with_0x (to_string 16 (low_bits (of_string 16 recipient) 128));
  high = with_0x (to_string 16 (shr (of_string 16 recipient) 128));
}

unfoldable pub cctp_route : Text → Text → Text → Result IdentityError CctpRoute
unfolding recipient_hex to_hex
cctp_route source_chain target_chain target_recipient =
    if length target_chain == 0 || length target_recipient == 0
    then err missing_settlement
    else if text_eq (wire source_chain) (wire target_chain)
    then ok same_chain_route
    else elim (chain_by_key (wire target_chain)) [
      | none ↦ err (unknown_settlement_chain (wire target_chain))
      | some chain ↦ elim (canonical_address (wire target_chain) target_recipient) [
        | none ↦ err (invalid_recipient (wire target_chain))
        | some recipient ↦
            ok (route_of (to_hex (wire target_chain)) (recipient_hex chain.kind recipient))
      ]
    ]
