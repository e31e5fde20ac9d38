-- ===== src/Tests/Claim.antt =====
-- The builders of claims at one claim on each kind of chain.
use open_beanie.Base.{
  true, ℕ, ◌+◌, ◌*◌, ◌^◌, ◌<◌, ◌≤◌, ◌≡◌, refl, List, [], ◌∷◌, ◌++◌, none, some, Text, text_eq,
  codes, drop, replicate,
}
use open_beanie.Base.Positional.{of_digits, low_digits, digits_loop, count_leading}
use open_beanie.Base.Result.{ok, err, pos}
use open_beanie.Base.Strings.{
  trim, trim_start, of_string, digit_value, to_string, digit, to_lower, lower_unit, to_upper,
  upper_unit,
}
use open_beanie.Chains.{Bound, ResourceBounds, solana_chain, wire, chain_by_key, find_chain}
use open_beanie.Chains.Config.{StealthConfig, empty_config, number}
use open_beanie.Identity.{to_hex, canonical_address, canonical_evm, stark_prime}
use open_beanie.Onchain.{transport, rpc, require_chain, big_int_of}
use open_beanie.Onchain.Accounts.{AccountNode, Accounts, contract_exists}
use open_beanie.Solana.Base58.{
  base58_decode, base58_encode, decode_loop, index_of, bytes_of, letter, pubkey_bytes,
}
use open_beanie.Solana.Curve.{is_on_curve, mod_pow, mod_pow_loop, edwards_d}
use open_beanie.Solana.Program.{
  pubkey, strip_0x, usdc_ata, find_program_address, bump_loop, bytes_equal,
}
use open_beanie.Solana.Transfer.{key_bytes, set_size, includes, or_throw}
use open_beanie.Claim.{Signer, Built, evm_sig}
use open_beanie.Claim.Message.{
  ClaimArgs, build_solana_message, claim_message, varint, varint_loop, amount_bytes, amount_loop,
}
use open_beanie.Claim.Message.Layout.{Says, build_solana_message-Says}
use open_beanie.Claim.Solana.{built_of, build_solana_claim}
use open_beanie.Claim.Solana.Sound.{Moves, build_solana_claim_sound}
use open_beanie.Claim.Evm.{
  Domain, TransferAuthorization, auth_of, assert_evm_claim, build_evm_claim,
}
use open_beanie.Claim.Evm.Sound.{Authorizes, build_evm_claim_sound}
use open_beanie.Claim.Starknet.{checked_starknet_bounds, bound_cost, transfer_data, felt_text}
use open_beanie.Claim.Starknet.Sound.{Costs, checked_starknet_bounds_capped, transfer_data_splits}

abbrev key_of : ℕ → List ℕ
key_of b = replicate 32 b

abbrev args : ClaimArgs
args = record {
  relayer = codes "4vJ9JU1bJJE96FWSJKvHsmmFADCg4gpZQff4P3bkLKi";
  client = codes "8qbHbw2BbbTHBW1sbeqakYXVKRQM8Ne7pLK7m6CVfeR";
  cosigner = codes "CktRuQ2mttgRGkXJtyksdKHjUdc2C4TgDzyB98oEzy8";
  source = codes "GgBaCs3NCBuZN12kCJgAW63ydqohFkHEdfdEXBPzLHq";
  destination = codes "LbUiWL3xVV8hTFYBVdbTNrpDo41NKS6o3LHHuDzjfcY";
  mint = codes "QWmroo4YnnMqYW3cnxWkFdaTxGD3P7vMSzwMHGbUzwF";
  amount = pos 1000001;
  blockhash = codes "YMN9Qj5jPNp7j14VPcML1B6xGgcPWVZUGLFU3Mnyfaf";
  authority = codes "US517G5965aydkZ46HS38QLi7UQiSojurfbQfKCELFx";
}

abbrev token_key : List ℕ
token_key =
    6 ∷ 221 ∷ 246 ∷ 225 ∷ 215 ∷ 101 ∷ 161 ∷ 147 ∷ 217 ∷ 203 ∷ 225 ∷ 70 ∷ 206 ∷ 235 ∷ 121 ∷ 172 ∷ 28
    ∷ 180 ∷ 133 ∷ 237 ∷ 95 ∷ 91 ∷ 55 ∷ 145 ∷ 58 ∷ 140 ∷ 245 ∷ 133 ∷ 126 ∷ 255 ∷ 0 ∷ 169 ∷ []

abbrev said : List ℕ
said =
    (3 ∷ 2 ∷ 3 ∷ 8 ∷ [])
    ++ (key_of 1
        ++ (key_of 2
            ++ (key_of 3
                ++ (key_of 4
                    ++ (key_of 5
                        ++ (key_of 6
                            ++ (token_key
                                ++ (key_of 7
                                    ++ (key_of 8
                                        ++ (1 ∷ 6 ∷ 6 ∷ 3 ∷ 5 ∷ 4 ∷ 7 ∷ 1 ∷ 2 ∷ 10 ∷ 12 ∷ 65 ∷ 66
                                            ∷ 15 ∷ 0 ∷ 0 ∷ 0 ∷ 0 ∷ 0 ∷ 6 ∷ []))))))))))

built : build_solana_message args ≡ ok said
unfolding build_solana_message claim_message varint varint_loop amount_bytes amount_loop key_bytes
    set_size includes or_throw pubkey_bytes base58_decode decode_loop index_of bytes_of low_digits
    digits_loop count_leading text_eq
built = refl

build_solana_message-Says_example : Says args said
build_solana_message-Says_example = build_solana_message-Says args said built

-- The claim of the account 7, paid to the account 8.
abbrev pub account_node : AccountNode
account_node = record {
  erc20_balance = λ token account. err (transport []);
  felt_balance = λ token account. err (transport []);
  token_amount = λ account. err (transport []);
  code_at = λ account. ok none;
  class_hash_at = λ account. err (transport []);
  has_account = λ account. ok true;
  latest_blockhash = ok (some args.blockhash);
  nonce_of = λ account. err (record { code = none; error = transport [] });
  stealth_address = λ f c s t. err (transport []);
}

abbrev pub accounts : Text → Accounts
accounts key = record { proxy = account_node; public = account_node }

abbrev pub first_byte : List ℕ → List ℕ
first_byte [] = replicate 32 0
first_byte (b ∷ _) = b ∷ replicate 31 0

abbrev pub sign : List ℕ → Text → List ℕ
sign message key = replicate 2 1

abbrev signer : Signer
signer = record {
  address = args.authority;
  public_key = args.client;
  private_key = codes "0x05";
  client_address = args.client;
  salt = none;
}

abbrev solana_config : StealthConfig
solana_config = record empty_config {
  cosigner = some args.cosigner;
  relayer = some args.relayer;
  usdc = some solana_chain.usdc;
}

abbrev usdc_key : List ℕ
usdc_key =
    198 ∷ 250 ∷ 122 ∷ 243 ∷ 190 ∷ 219 ∷ 173 ∷ 58 ∷ 61 ∷ 101 ∷ 243 ∷ 106 ∷ 171 ∷ 201 ∷ 116 ∷ 49 ∷ 177
    ∷ 187 ∷ 228 ∷ 194 ∷ 210 ∷ 246 ∷ 224 ∷ 228 ∷ 124 ∷ 166 ∷ 2 ∷ 3 ∷ 69 ∷ 47 ∷ 93 ∷ 97 ∷ []

abbrev claim_bytes : List ℕ
claim_bytes =
    (3 ∷ 2 ∷ 3 ∷ 8 ∷ [])
    ++ (key_of 1
        ++ (key_of 2
            ++ (key_of 3
                ++ ((7 ∷ replicate 31 0)
                    ++ ((8 ∷ replicate 31 0)
                        ++ (usdc_key
                            ++ (token_key
                                ++ (key_of 7
                                    ++ (key_of 8
                                        ++ (1 ∷ 6 ∷ 6 ∷ 3 ∷ 5 ∷ 4 ∷ 7 ∷ 1 ∷ 2 ∷ 10 ∷ 12 ∷ 65 ∷ 66
                                            ∷ 15 ∷ 0 ∷ 0 ∷ 0 ∷ 0 ∷ 0 ∷ 6 ∷ []))))))))))

claimed :
    build_solana_claim first_byte accounts sign signer args.blockhash 1000001 solana_config
    ≡ ok (built_of first_byte accounts sign signer claim_bytes)
unfolding build_solana_claim contract_exists rpc require_chain wire chain_by_key find_chain to_upper
    upper_unit usdc_ata find_program_address bump_loop bytes_equal is_on_curve mod_pow mod_pow_loop
    edwards_d pubkey canonical_address trim trim_start to_hex build_solana_message claim_message
    varint varint_loop amount_bytes amount_loop key_bytes set_size includes or_throw pubkey_bytes
    base58_decode base58_encode letter decode_loop index_of bytes_of low_digits digits_loop
    count_leading text_eq
claimed = refl

build_solana_claim_sound_example :
    Moves first_byte accounts sign signer args.blockhash 1000001 solana_config
      (built_of first_byte accounts sign signer claim_bytes)
build_solana_claim_sound_example =
    build_solana_claim_sound first_byte accounts sign signer args.blockhash 1000001 solana_config _
      claimed

abbrev pub typed_hash : Domain → TransferAuthorization → Text
typed_hash d v = v.value

abbrev pub sign_hash : Text → Text → Text × Text × ℕ
sign_hash hash key = (hash, key, 27)

abbrev evm_config : StealthConfig
evm_config = record empty_config {
  usdc = some (codes "0x833589fcd6edb6e08f4c7c32d4f71b54bda02913");
  chain_id = some (number 8453);
  eip712 = some (record { name = codes "USD Coin"; version = codes "2" });
}

abbrev pub evm_destination : Text
evm_destination = codes "0x833589fCD6eDb6E08f4c7C32D4f71b54bdA02913"

abbrev evm_built : Built
evm_built = record {
  tx_hash = codes "250";
  derived_address = args.authority;
  client_sig = evm_sig (codes "250") (codes "0x05") 27;
  calls = [];
  auth3009 = some (
      auth_of signer (codes "0x833589fcd6edb6e08f4c7c32d4f71b54bda02913") 250 1900
        (codes "0x0102"));
  starknet = none;
  message_bytes = none;
}

authorized :
    build_evm_claim typed_hash sign_hash 1000 (1 ∷ 2 ∷ []) signer evm_destination 250 evm_config
    ≡ ok evm_built
unfolding build_evm_claim assert_evm_claim canonical_address canonical_evm trim trim_start to_lower
    lower_unit wire chain_by_key find_chain to_upper upper_unit to_hex to_string digit digits_loop
    text_eq
authorized = refl

build_evm_claim_sound_example :
    Authorizes typed_hash sign_hash 1000 signer evm_destination 250 evm_config evm_built
build_evm_claim_sound_example =
    build_evm_claim_sound typed_hash sign_hash 1000 (1 ∷ 2 ∷ []) signer evm_destination 250
      evm_config evm_built authorized

abbrev bound : Bound
bound = record { max_amount = codes "0x3"; max_price_per_unit = codes "4" }

abbrev bounds : ResourceBounds
bounds = record { l1_gas = bound; l2_gas = bound; l1_data_gas = bound }

abbrev capped_config : StealthConfig
capped_config = record empty_config {
  resource_bounds = some bounds;
  max_fee_fri = some (codes "36");
}

capped : checked_starknet_bounds capped_config ≡ ok bounds
unfolding checked_starknet_bounds bound_cost big_int_of trim trim_start strip_0x of_string
    digit_value of_digits
capped = refl

checked_starknet_bounds_capped_example :
    (some bounds ≡ some bounds)
    × (fee : Text) × (some (codes "36") ≡ some fee)
    × (cap : ℕ) × (big_int_of fee ≡ ok cap)
    × (l1 l2 l1_data : ℕ) × Costs bound l1
    × Costs bound l2
    × Costs bound l1_data
    × (l1 + l2 + l1_data ≤ cap)
checked_starknet_bounds_capped_example = checked_starknet_bounds_capped capped_config bounds capped

split :
    transfer_data (codes "0x1") (2 ^ 128 * 2 + 5)
    ≡ ok (codes "0x1" ∷ codes "0x5" ∷ codes "0x2" ∷ [])
unfolding transfer_data felt_text to_string digit digits_loop
split = refl

transfer_data_splits_example :
    (low high : Text) × ((codes "0x1" ∷ codes "0x5" ∷ codes "0x2" ∷ [])
      ≡ codes "0x1" ∷ low ∷ high ∷ [])
    × (of_string 16 (drop 2 low) < 2 ^ 128)
    × (of_string 16 (drop 2 high) < stark_prime)
    × (2 ^ 128 * 2 + 5 ≡ of_string 16 (drop 2 low) + of_string 16 (drop 2 high) * 2 ^ 128)
transfer_data_splits_example = transfer_data_splits (codes "0x1") (2 ^ 128 * 2 + 5) _ split
