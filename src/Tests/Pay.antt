-- ===== src/Tests/Pay.antt =====
-- The link of a lane on Base, a payment through it, and a wallet on Starknet that signs.
use open_beanie.Base.{
  if◌then◌else◌, ◌≡◌, refl, true, List, [], ◌∷◌, map, none, some, Text, text_eq, codes,
}
use open_beanie.Base.Positional.{of_digits, digits_loop}
use open_beanie.Base.Result.{Result, ok, err}
use open_beanie.Base.Strings.{
  to_lower, lower_unit, to_upper, upper_unit, trim, trim_start, to_string, digit, of_string,
  digit_value,
}
use open_beanie.Amounts.{parse_decimal, split_decimal, strip_zeros, span_digits}
use open_beanie.Chains.{
  Chain, base, evm, starknet_chain, wire, chain_by_key, find_chain, chains, has_text,
}
use open_beanie.Chains.Ready.{can_gasless}
use open_beanie.Identity.{canonical_address, canonical_evm, canonical_felt, to_hex}
use open_beanie.Onchain.{
  ChainError, transport, big_int_of, rpc, require_chain, same_address, confirm,
}
use open_beanie.Onchain.Accounts.{
  Accounts, is_kind, is_salt, stealth_address_via, predict_stealth_account,
}
use open_beanie.Onchain.Accounts.Confirmed.{Answers, predict_stealth_account_sources}
use open_beanie.Gasless.Evm.{parse_hex, hex_front, ensure_evm_chain, sign_evm_transfer}
use open_beanie.Gasless.Outside.{v1, build_typed_data}
use open_beanie.Gasless.Starknet.{
  snip9_v1_interface_id, StarknetWallet, StarknetJs, StarknetPayload, pair, detect_snip9_version,
  sign_starknet_transfer,
}
use open_beanie.Gasless.Starknet.Executed.{Executes, sign_starknet_transfer_sound}
use open_beanie.Solana.Program.{strip_0x}
use open_beanie.Pay.{Link, Route, parse_link, lane_share_params, get_param}
use open_beanie.Pay.Shared.{shown, parse_link-lane_share_params}
use open_beanie.Pay.Checkout.{Wallets, Payment, evm_signature, gasless_ok, sign_for, pay_route}
use open_beanie.Pay.Checkout.Sound.{Submits, pay_route_sound}
use open_beanie.Tests.Lane.{fresh, account, felt}
use open_beanie.Tests.Create.{lane}
use open_beanie.Tests.Claim.{account_node}
use open_beanie.Tests.Stealth.{no_hash}
use open_beanie.Tests.Wallet.{wallet, payload, answers}

account_canonical : canonical_address (codes "BASE") account ≡ some account
unfolding canonical_address canonical_evm wire chain_by_key find_chain text_eq to_lower lower_unit
    to_upper upper_unit trim trim_start
account_canonical = refl

felt_canonical : canonical_address (codes "STARKNET") felt ≡ some felt
unfolding canonical_address canonical_felt wire chain_by_key find_chain text_eq to_lower lower_unit
    to_upper upper_unit trim trim_start strip_0x of_string digit_value of_digits
felt_canonical = refl

base_found : find_chain (codes "BASE") chains ≡ some base
unfolding find_chain text_eq
base_found = refl

starknet_found : find_chain (codes "STARKNET") chains ≡ some starknet_chain
unfolding find_chain text_eq
starknet_found = refl

parse_link-lane_share_params_example : parse_link fresh (lane_share_params lane) ≡ record {
  lane_id = lane.id;
  routes = map shown lane.receivers;
  target = codes "BASE";
  merchant = account;
}
parse_link-lane_share_params_example =
    parse_link-lane_share_params fresh lane _ _ base refl
      (
        record { on = base; is_chain = base_found; is_canonical = account_canonical },
        (
          record { on = starknet_chain; is_chain = starknet_found; is_canonical = felt_canonical },
          tt,
        ),
      )
      base_found account_canonical

abbrev js : StarknetJs
js = record {
  parse_address = λ address. ok address;
  selector = λ name. name;
  transfer_calldata = λ recipient amount. recipient ∷ amount ∷ codes "0" ∷ [];
}

abbrev supports : Text → Text → Result ChainError (List Text)
unfolding text_eq
supports user id =
    if text_eq id snip9_v1_interface_id then ok (codes "1" ∷ []) else ok (codes "0" ∷ [])

abbrev braavos : StarknetWallet
braavos = record {
  connects = ok tt;
  selected = some (codes "0xa");
  can_sign = true;
  reported_chain = ok (some (codes "SN_MAIN"));
  sign_message = λ message. ok (pair (codes "17") (codes "0x2"));
}

abbrev starknet_payload : StarknetPayload
starknet_payload = record {
  execution = record {
    caller = codes "0x01d4a73b58909eb341e6357bd085fea917d71c386ebaecd770792f7b5a34615a";
    nonce = codes "0x0102";
    execute_after = 60;
    execute_before = 720;
    calls =
        record {
          to = starknet_chain.usdc;
          selector = codes "transfer";
          calldata = codes "0xdef" ∷ codes "250" ∷ codes "0" ∷ [];
        }
        ∷ [];
  };
  signature = codes "0x11" ∷ codes "0x2" ∷ [];
  user_address = codes "0xa";
  version = v1;
}

starknet_signed :
    sign_starknet_transfer js supports
      (some braavos)
      120000
      (1 ∷ 2 ∷ [])
      (codes "0xdef")
      (codes "250")
    ≡ ok starknet_payload
unfolding sign_starknet_transfer detect_snip9_version build_typed_data to_lower lower_unit text_eq
    to_hex big_int_of to_string digits_loop digit of_string digit_value of_digits trim trim_start
    strip_0x
starknet_signed = refl

sign_starknet_transfer_sound_example :
    (w : StarknetWallet) × (some braavos ≡ some w)
    × Executes js supports w 120000 (codes "0xdef") (codes "250") starknet_payload
sign_starknet_transfer_sound_example =
    sign_starknet_transfer_sound js supports (some braavos) 120000 (1 ∷ 2 ∷ []) (codes "0xdef")
      (codes "250") starknet_payload starknet_signed

abbrev wallets : Wallets
wallets = record {
  evm_wallet = some wallet;
  starknet_wallet = some braavos;
  starknet_js = js;
  supports = supports;
  solana_account = none;
  solana_wallet = λ bytes. none;
  token_amount = λ ata. err (transport []);
  blockhash = err (transport []);
  last_valid_block_height = 0;
  head = err (transport []);
  sha256 = no_hash;
  now = 2500;
  random = 1 ∷ 2 ∷ [];
  submit = λ payment. ok tt;
  answers = answers;
  max_pages = 10;
}

abbrev link : Link
link = record { lane_id = []; routes = []; target = codes "BASE"; merchant = account }

abbrev to_def : Route
to_def = record { chain = codes "BASE"; address = codes "0xdef" }

abbrev payment : Payment
payment = record {
  chain = codes "BASE";
  merchant_address = account;
  receiver_address = codes "0xdef";
  destination_chain = codes "BASE";
  tx_ref = codes "beanie-1xg";
  from_address = codes "0xabc";
  amount_raw = codes "250";
  signature = evm_signature payload;
}

paid : pay_route wallets [] link to_def (codes "0.00025") ≡ ok (payment, none)
unfolding pay_route gasless_ok sign_for sign_evm_transfer ensure_evm_chain parse_hex hex_front
    can_gasless find_chain to_hex to_string digits_loop digit of_string digit_value of_digits
    text_eq trim trim_start parse_decimal split_decimal strip_zeros span_digits get_param
paid = refl

pay_route_sound_example : Submits wallets link to_def (codes "0.00025") payment
pay_route_sound_example = pay_route_sound wallets [] link to_def (codes "0.00025") payment none paid

abbrev salt : Text
salt = codes "0x0909090909090909090909090909090909090909090909090909090909090909"

abbrev two_accounts : Text → Accounts
two_accounts key = record {
  proxy = record account_node { stealth_address = λ f c s t. ok (codes "0xABC") };
  public = record account_node { stealth_address = λ f c s t. ok (codes "0xabc") };
}

stealth_predicted :
    predict_stealth_account no_hash two_accounts
      (codes "base")
      (codes "0x1")
      (codes "0x2")
      salt
      (some (codes "0x3"))
    ≡ ok (codes "0xabc")
unfolding predict_stealth_account stealth_address_via confirm same_address require_chain rpc wire
    chain_by_key find_chain text_eq to_lower lower_unit to_upper upper_unit strip_0x
stealth_predicted = refl

predict_stealth_account_sources_example :
    (chain : Chain) × (p : Text) × (require_chain (codes "base") ≡ ok chain)
    × (is_kind evm chain ≡ true)
    × (has_text (some (codes "0x3")) ≡ true)
    × (is_salt salt ≡ true)
    × Answers (two_accounts chain.key).proxy (codes "0x3") (codes "0x1") (codes "0x2") salt p
    × Answers
        (two_accounts chain.key).public
        (codes "0x3")
        (codes "0x1")
        (codes "0x2")
        salt
        (codes "0xabc")
    × (same_address chain.kind p (codes "0xabc") ≡ ok true)
predict_stealth_account_sources_example =
    predict_stealth_account_sources no_hash two_accounts (codes "base") (codes "0x1") (codes "0x2")
      salt (some (codes "0x3")) (codes "0xabc") stealth_predicted
