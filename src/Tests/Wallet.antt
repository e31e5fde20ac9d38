-- ===== src/Tests/Wallet.antt =====
-- A wallet on Base that signs, and a payment on Solana whose blockhash expires.
use open_beanie.Base.{ℕ, ◌+◌, ◌≡◌, refl, true, [], ◌∷◌, some, text_eq, codes}
use open_beanie.Base.Positional.{of_digits, digits_loop}
use open_beanie.Base.Result.{ok, err}
use open_beanie.Base.Strings.{trim, trim_start, to_string, digit, of_string, digit_value}
use open_beanie.Chains.{Chain, find_chain, chains}
use open_beanie.Chains.Ready.{can_gasless}
use open_beanie.Identity.{to_hex}
use open_beanie.Onchain.{transport, Node}
use open_beanie.Gasless.Evm.{
  EvmWallet, EvmPayload, parse_hex, hex_front, ensure_evm_chain, sign_evm_transfer,
}
use open_beanie.Gasless.Evm.Authorized.{Authorizes, sign_evm_transfer_sound}
use open_beanie.Gasless.Settlement.{Settlement, Answers, settle_max_polls, await_solana_settlement}
use open_beanie.Gasless.Settlement.Outcomes.{Means, await_solana_settlement-Means}
use open_beanie.Tests.Onchain.{node_with}
use open_beanie.Tests.Claim.{first_byte}

abbrev pub wallet : EvmWallet
wallet = record {
  request_accounts = ok (codes "0xabc" ∷ []);
  switch_chain = λ hex. ok tt;
  add_chain = λ chain. ok tt;
  reported_chain = ok (codes "0x2105");
  sign_typed_data = λ from data_value. ok (codes "0x77");
}

abbrev pub payload : EvmPayload
payload = record {
  message = record {
    from = codes "0xabc";
    to = codes "0xdef";
    value = codes "250";
    valid_after = 0;
    valid_before = 602;
    nonce = codes "0x0102";
  };
  signature = codes "0x77";
}

signed :
    sign_evm_transfer (some wallet) 2500 (1 ∷ 2 ∷ []) (codes "BASE") (codes "0xdef") (codes "250")
    ≡ ok payload
unfolding sign_evm_transfer ensure_evm_chain parse_hex hex_front can_gasless find_chain to_hex
    to_string digits_loop digit of_string digit_value of_digits text_eq trim trim_start
signed = refl

sign_evm_transfer_sound_example :
    (w : EvmWallet) × (chain : Chain) × (some wallet ≡ some w)
    × (find_chain (codes "BASE") chains ≡ some chain)
    × (can_gasless chain ≡ true)
    × Authorizes w 2500 chain (codes "0xdef") (codes "250") payload
sign_evm_transfer_sound_example =
    sign_evm_transfer_sound (some wallet) 2500 (1 ∷ 2 ∷ []) (codes "BASE") (codes "0xdef")
      (codes "250") payload signed

abbrev node : Node
node = record (node_with "0x0") { get_slot = ok 3 }

abbrev pub answers : ℕ → Answers
answers i = record {
  net = record { proxy = node; public = node };
  height_via_proxy = ok (100 + i);
  height_via_node = err (transport []);
}

abbrev settlement : Settlement
settlement = record {
  receiver = codes "YMN9Qj5jPNp7j14VPcML1B6xGgcPWVZUGLFU3Mnyfaf";
  owner = codes "US517G5965aydkZ46HS38QLi7UQiSojurfbQfKCELFx";
  amount_raw = codes "250";
  from_slot = 5;
  last_valid_block_height = 110;
}

await_solana_settlement-Means_example :
    Means first_byte answers 10 settlement 0 5 settle_max_polls
      (await_solana_settlement first_byte answers 10 settlement)
await_solana_settlement-Means_example =
    await_solana_settlement-Means first_byte answers 10 settlement
