-- ===== src/Tests/Lane.antt =====
-- The check of a lane at one with a receiver on Base and one on Starknet.
use open_beanie.Base.{
  ℕ, ◌≡◌, refl, Bool, true, false, List, [], ◌∷◌, Option, none, Text, text_eq, codes, All,
}
use open_beanie.Base.Positional.{of_digits, digits_loop}
use open_beanie.Base.Result.{Result, ok, err}
use open_beanie.Base.Strings.{
  to_upper, upper_unit, to_lower, lower_unit, trim, trim_start, to_string, digit, of_string,
  digit_value,
}
use open_beanie.Chains.{wire, chain_by_key, find_chain, can_predict}
use open_beanie.Chains.Ready.{lane_chains, filter_chains, can_settle, can_discover}
use open_beanie.Identity.{
  canonical_address, canonical_evm, canonical_felt, merchant_identity, classify, identity_on,
  hashed_text, cctp_route, recipient_hex, to_hex,
}
use open_beanie.Onchain.{
  ChainError, transport, Node, Net, rpc, require_chain, big_int_of, predict_via, same_address,
  confirm, predict_receiver,
}
use open_beanie.Solana.Program.{strip_0x}
use open_beanie.Store.{absent, Storage}
use open_beanie.Store.Lanes.Marked.{Marks}
use open_beanie.Store.Lanes.{mark_verified, get_lanes, filter_values, find_lane}
use open_beanie.Lane.{
  LaneError, passkey_failed, StoredLane, payout, compute_leg, compute_legs, compute_receivers,
  find_leg, check_match, check_receivers, checks, verify_lane,
}
use open_beanie.Lane.Passkey.{passkey_account}
use open_beanie.Lane.Verified.{Checked, PaysOut, verify_lane_sound}
use open_beanie.Tests.Claim.{accounts}
use open_beanie.Tests.Stealth.{curves}
use open_beanie.Tests.Onchain.{node_with}

abbrev pub account : Text
account = codes "0x833589fcd6edb6e08f4c7c32d4f71b54bda02913"

abbrev pub felt : Text
felt = codes "0x033068f6539f8e6e6b131e6b2b814e6c34a5224bc66947c47dab9dfee93b35fb"

abbrev node : Node
node = record (node_with "0x000000000000000000000000833589fcd6edb6e08f4c7c32d4f71b54bda02913") {
  starknet_call = λ to calldata.
      ok (codes "0x33068f6539f8e6e6b131e6b2b814e6c34a5224bc66947c47dab9dfee93b35fb" ∷ []);
}

abbrev pub nets : Text → Net
nets key = record { proxy = node; public = node }

abbrev no_hash : List ℕ → List ℕ
no_hash bytes = []

abbrev pub no_owners : List Text → Result ChainError (List (Option Text))
no_owners keys = err (transport [])

abbrev pub no_passkey : StoredLane → Result LaneError Text
no_passkey lane = err passkey_failed

abbrev pub always : Storage → Bool
always s = true

abbrev two_receivers : StoredLane
two_receivers = record {
  id = codes "lane";
  privacy = false;
  target_chain = codes "BASE";
  target_recipient = account;
  merchant_address = account;
  receivers =
      record { chain = codes "BASE"; address = account }
      ∷ record { chain = codes "STARKNET"; address = felt }
      ∷ [];
  index = 0;
  prf_credential_id = none;
  stealth_config = none;
}

abbrev pub fresh : Storage
fresh = record { lanes = absent; history = absent; cursors = absent; seen = 0 }

abbrev no_prf : List ℕ → Option Text → Result LaneError (List ℕ)
no_prf salt credential = err passkey_failed

verified :
    verify_lane no_hash nets no_owners
      (passkey_account no_hash curves accounts no_prf)
      always
      two_receivers
      fresh
    ≡ (fresh, ok tt)
unfolding verify_lane checks payout compute_receivers compute_legs compute_leg find_leg check_match
    check_receivers mark_verified get_lanes filter_values find_lane lane_chains filter_chains
    can_predict can_settle can_discover canonical_address canonical_evm canonical_felt
    merchant_identity classify identity_on hashed_text cctp_route recipient_hex to_hex rpc
    require_chain big_int_of predict_via same_address confirm predict_receiver strip_0x wire
    chain_by_key find_chain to_upper upper_unit to_lower lower_unit trim trim_start to_string digit
    digits_loop of_string digit_value of_digits text_eq
verified = refl

verify_lane_sound_example :
    PaysOut no_hash nets no_owners curves accounts no_prf two_receivers
    × All
        (Checked no_hash nets no_owners
          (passkey_account no_hash curves accounts no_prf)
          (wire (codes "BASE"))
          account)
        two_receivers.receivers
    × ((mark_verified always (codes "lane") fresh).0 ≡ fresh)
    × Marks (codes "lane") fresh fresh
verify_lane_sound_example =
    verify_lane_sound no_hash nets no_owners curves accounts no_prf always two_receivers fresh fresh
      verified
