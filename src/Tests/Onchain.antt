-- ===== src/Tests/Onchain.antt =====
-- The theorems on onchain.js with two nodes that answer for Base.
use open_beanie.Base.{
  Option, none, some, false, inl, arith, String, ℕ, ◌+◌, ◌≤◌, ◌<◌, ◌≡◌, ◌⊎◌, refl, true, List, [],
  ◌∷◌, Text, text_eq, codes,
}
use open_beanie.Base.Positional.{digits_loop, of_digits}
use open_beanie.Base.Strings.{
  to_string, digit, to_lower, lower_unit, to_upper, upper_unit, trim, trim_start, of_string,
  digit_value,
}
use open_beanie.Base.Result.{Result, ok, err}
use open_beanie.Chains.{Chain, wire, chain_by_key, find_chain}
use open_beanie.Identity.{same_chain_route}
use open_beanie.Solana.Program.{strip_0x}
use open_beanie.Onchain.{
  Signature, ChainError, transport, Node, Net, rpc, require_chain, head_block, big_int_of,
  predict_via, same_address, confirm, predict_receiver,
}
use open_beanie.Onchain.Sources.{Answers, predict_receiver_sources}
use open_beanie.Onchain.Deposits.{
  signature_loop, batch_loop, Scan, scan_deposits, evm_deposits, log_deposits,
}
use open_beanie.Onchain.Signatures.{
  Among, Ordered, Listed, here, later, Documented, signature_loop_complete,
}
use open_beanie.Onchain.Windows.{scan_deposits_window}

-- A node at the block 5000 that has one log, and answers `predicted` to a call.
abbrev pub node_with : String → Node
node_with predicted = record {
  eth_call = λ to call_data. ok (codes predicted);
  eth_block_number = ok 5000;
  eth_get_logs = λ token from to topic.
      ok (
        record { data_text = codes "0x0f"; transaction_hash = codes "0x1"; block_number = 7 } ∷ []);
  starknet_call = λ to calldata. err (transport []);
  starknet_block_number = err (transport []);
  starknet_get_events = λ token from to receiver page. err (transport []);
  get_slot = err (transport []);
  get_signatures = λ account before. err (transport []);
  get_transaction = λ signature. err (transport []);
}

abbrev pub two_nodes : Net
two_nodes = record {
  proxy = node_with "0x000000000000000000000000833589FCD6EDB6E08F4C7C32D4F71B54BDA02913";
  public = node_with "0x000000000000000000000000833589fcd6edb6e08f4c7c32d4f71b54bda02913";
}

abbrev upper : Text
upper = codes "0x833589FCD6EDB6E08F4C7C32D4F71B54BDA02913"

abbrev lower : Text
lower = codes "0x833589fcd6edb6e08f4c7c32d4f71b54bda02913"

predicted : predict_receiver two_nodes (codes "base") upper same_chain_route ≡ ok lower
unfolding predict_receiver predict_via confirm same_address require_chain rpc wire chain_by_key
    find_chain text_eq to_lower lower_unit to_upper upper_unit strip_0x
predicted = refl

predict_receiver_sources_example :
    (chain : Chain) × (p : Text) × (require_chain (codes "base") ≡ ok chain)
    × Answers two_nodes.proxy chain upper same_chain_route p
    × Answers two_nodes.public chain upper same_chain_route lower
    × (same_address chain.kind p lower ≡ ok true)
predict_receiver_sources_example =
    predict_receiver_sources two_nodes (codes "base") upper same_chain_route lower predicted

abbrev no_hash : List ℕ → List ℕ
no_hash bytes = []

abbrev first_window : Scan
first_window = record {
  deposits = record { amount = codes "15"; from = none; tx = codes "0x1"; block = 7 } ∷ [];
  next_block = 2003;
}

scanned : scan_deposits no_hash two_nodes 10 (codes "BASE") upper 3 ≡ ok first_window
unfolding scan_deposits evm_deposits log_deposits head_block require_chain rpc wire chain_by_key
    find_chain text_eq to_upper upper_unit big_int_of trim trim_start strip_0x of_string digit_value
    of_digits to_string digits_loop digit
scanned = refl

scan_deposits_window_example :
    (head : ℕ) × (head_block two_nodes (codes "BASE") ≡ ok head)
    × (((head < 3) × (◌≡◌ {A = ℕ} 2003 3) × (first_window.deposits ≡ []))
        ⊎ ((3 ≤ head) × (3 < 2003) × (2003 ≤ head + 1)))
scan_deposits_window_example =
    scan_deposits_window no_hash two_nodes 10 (codes "BASE") upper 3 first_window scanned

abbrev deposit_signature : Signature
deposit_signature = record { signature = codes "5sig"; slot = 40; is_err = false }

-- One page, with one signature.
abbrev one_page : Option Text → Result ChainError (List Signature)
one_page none = ok (deposit_signature ∷ [])
one_page (some _) = ok []

nothing_behind : (b : Text) (s : Signature) → Listed one_page (some b) s → ⊥
nothing_behind b s (here _ page _ read m) = let same : [] ≡ page = cc in rw (← same) at m
nothing_behind b s (later _ page _ _ read end m) =
    let same : [] ≡ page = cc in cc (rw (← same) at end)

one_page-Documented : Documented one_page
one_page-Documented = record {
  ordered = pages_ordered;
  older = λ before batch s t asked behind m. absurd (nothing_behind behind.0 s behind.2);
  short_is_last = λ before batch s asked short behind. nothing_behind behind.0 s behind.2;
}
  where
    pages_ordered :
        (before : Option Text) (batch : List Signature) → one_page before ≡ ok batch → Ordered batch
    pages_ordered none batch h =
        let same : deposit_signature ∷ [] ≡ batch = cc in rw (← same) (tt, tt)
    pages_ordered (some b) batch h = let same : [] ≡ batch = cc in rw (← same) tt

signature_loop_complete_example : Among deposit_signature (deposit_signature ∷ [])
signature_loop_complete_example =
    signature_loop_complete one_page 3 50 10 none (deposit_signature ∷ []) deposit_signature
      one_page-Documented (unfold signature_loop batch_loop in refl)
      (here none (deposit_signature ∷ []) deposit_signature refl (inl refl))
      (refl, omega arith, omega arith)
