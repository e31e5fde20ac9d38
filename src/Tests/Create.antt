-- ===== src/Tests/Create.antt =====
-- A public lane on Base that is created, with the answers of the test of the check.
use open_beanie.Base.{
  if◌then◌else◌, zero, suc, ℕ, ◌≡◌, refl, false, List, [], ◌∷◌, Option, none, some, Text, text_eq,
  codes, replicate,
}
use open_beanie.Base.Positional.{of_digits, digits_loop}
use open_beanie.Base.Result.{Result, ok, err}
use open_beanie.Base.Strings.{
  to_upper, upper_unit, to_lower, lower_unit, trim, trim_start, to_string, digit, of_string,
  digit_value,
}
use open_beanie.Chains.{wire, chain_by_key, find_chain, can_predict}
use open_beanie.Chains.Ready.{lane_chains, filter_chains, can_settle, can_discover}
use open_beanie.Identity.{
  canonical_address, canonical_evm, canonical_felt, merchant_identity, classify, identity_on,
  hashed_text, CctpRoute, cctp_route, recipient_hex, to_hex,
}
use open_beanie.Onchain.{
  ChainError, transport, head_block, rpc, require_chain, big_int_of, predict_via, same_address,
  confirm, predict_receiver,
}
use open_beanie.Onchain.Accounts.{contract_exists}
use open_beanie.Solana.Program.{strip_0x}
use open_beanie.Solana.Base58.{
  base58_decode, base58_encode, decode_loop, index_of, bytes_of, letter, pubkey_bytes,
}
use open_beanie.Solana.Curve.{is_on_curve, mod_pow, mod_pow_loop, edwards_d}
use open_beanie.Solana.Transfer.{includes}
use open_beanie.Solana.Program.{
  Factory, usdc_ata, pubkey, find_program_address, bump_loop, bytes_equal, receiver_pdas, slots_of,
  distinct, candidate_loop, hex_to_bytes, hex_pairs, hex_digit, receiver_from_announced_event,
}
use open_beanie.Base.Positional.{low_digits, count_leading}
use open_beanie.Base.Strings.{starts_with}
use open_beanie.Store.Lanes.{save_lane, get_lanes, filter_values, find_lane}
use open_beanie.Lane.Discover.{
  Round, fresh_signatures, check_event, line_loop, signature_loop, discovery_round, round_loop,
  discover_solana_receiver,
}
use open_beanie.Lane.Discover.Found.{Announced, discover_solana_receiver_sound}
use open_beanie.Tests.Solana.{same_hash, off_point, announcement, event, hex_of_nines}
use open_beanie.Lane.{
  has_program_account, solana_program, verify_solana_receiver, no_settlement_chain, checks,
  compute_leg, compute_legs, compute_receivers,
}
use open_beanie.Lane.Record.{LaneRecord, stored_lane, record_value, config_value}
use open_beanie.Lane.Create.{
  Outside, receiver_skipped, create_lane, prepare, identify_public, snapshot_start_blocks, finish,
  solana_part, found_receiver, lane_of,
}
use open_beanie.Lane.Create.Checks.{create_lane-checks}
use open_beanie.Tests.Lane.{no_owners, no_passkey, always, fresh, nets, account, felt}
use open_beanie.Tests.Claim.{accounts}
use open_beanie.Tests.Stealth.{no_hash, curves}
use open_beanie.Stealth.{generate_lane_id}
use open_beanie.Base.Utf8.{utf8}

abbrev no_bytes : Text → Option (List ℕ)
no_bytes text = none

abbrev outside : Outside
outside = record {
  published = err no_settlement_chain;
  token = λ binding. ok binding;
  token_prf = λ binding salt. err no_settlement_chain;
  announce = λ a. ok tt;
  rounds =
      λ i. record { signatures = λ program. err (transport []); log_of = λ s. err (transport []) };
  round_count = 0;
  random = replicate 16 1;
  now = 1;
  saved_at = 5;
}

abbrev pub lane : LaneRecord
lane = record {
  id = codes "lane_0707070707070707070707070707070707070707070707070707070707070707";
  privacy = false;
  target_chain = codes "BASE";
  target_recipient = account;
  merchant_address = some account;
  index = 0;
  prf_credential_id = none;
  webhook_url = none;
  created_at = 5;
  stealth_config = none;
  receivers =
      record {
        chain = codes "BASE";
        address = account;
        merchant = account;
        start_block = some 4990;
      }
      ∷ record { chain = codes "STARKNET"; address = felt; merchant = account; start_block = none }
      ∷ [];
}

created :
    (create_lane no_hash nets no_owners no_passkey no_bytes curves accounts outside always account
      (codes "base")
      none
      false
      fresh).result
    ≡ ok (lane, receiver_skipped ∷ [])
unfolding create_lane prepare identify_public snapshot_start_blocks head_block finish solana_part
    found_receiver discover_solana_receiver round_loop lane_of record_value config_value save_lane
    get_lanes filter_values find_lane usdc_ata contract_exists generate_lane_id utf8
    compute_receivers compute_legs compute_leg lane_chains filter_chains can_predict can_settle
    can_discover canonical_address canonical_evm canonical_felt merchant_identity classify
    identity_on hashed_text cctp_route recipient_hex to_hex rpc require_chain big_int_of predict_via
    same_address confirm predict_receiver strip_0x wire chain_by_key find_chain to_upper upper_unit
    to_lower lower_unit trim trim_start to_string digit digits_loop of_string digit_value of_digits
    text_eq
created = refl

create_lane-checks_example : checks no_hash nets no_owners no_passkey (stored_lane lane) ≡ ok tt
create_lane-checks_example =
    create_lane-checks no_hash nets no_owners no_passkey no_bytes curves accounts outside always
      account (codes "base") none false fresh lane (receiver_skipped ∷ []) created (λ e. cc)

-- An event of the program that is found in the second round.
abbrev log_line : Text
log_line = codes "Program data: x"

abbrev event_bytes : Text → Option (List ℕ)
event_bytes text = if text_eq text (codes "x") then some event else none

abbrev rounds : ℕ → Round
rounds zero = record {
  signatures = λ program. err (transport []);
  log_of = λ s. err (transport []);
}
rounds (suc i) = record {
  signatures = λ program. ok (record { signature = codes "s"; slot = 9; is_err = false } ∷ []);
  log_of = λ s. ok (some (log_line ∷ []));
}

abbrev program_owns : List Text → Result ChainError (List (Option Text))
program_owns keys = ok (none ∷ some (codes "BsiBBPjkAiLJgQDNmjfajHeJjpFMzJqCNz2FtzZa2Hpg") ∷ [])

abbrev route : CctpRoute
route = record {
  chain32 = hex_of_nines;
  recipient32 = hex_of_nines;
  chain_felt = [];
  low = [];
  high = [];
}

abbrev found_key : Text
found_key = codes "4vJ9JU1bJJE96FWSJKvHsmmFADCg4gpZQff4P3bkLKi"

found :
    discover_solana_receiver
      (same_hash off_point)
      nets
      program_owns
      no_passkey
      event_bytes
      rounds
      2
      announcement.merchant
      route
      5
    ≡ ok (some found_key)
unfolding discover_solana_receiver round_loop discovery_round signature_loop fresh_signatures
    line_loop starts_with check_event verify_solana_receiver has_program_account
    receiver_from_announced_event slots_of distinct candidate_loop bytes_equal hex_to_bytes
    hex_pairs hex_digit strip_0x includes receiver_pdas find_program_address bump_loop is_on_curve
    mod_pow mod_pow_loop edwards_d pubkey pubkey_bytes base58_decode decode_loop index_of bytes_of
    low_digits digits_loop count_leading base58_encode letter of_digits text_eq
found = refl

discover_solana_receiver_sound_example :
    (program : Factory) × (solana_program (same_hash off_point) nets program_owns no_passkey
      ≡ ok program)
    × Announced
        (same_hash off_point)
        nets
        program_owns
        no_passkey
        event_bytes
        program
        announcement.merchant
        route
        rounds
        2
        5
        found_key
discover_solana_receiver_sound_example =
    discover_solana_receiver_sound (same_hash off_point) nets program_owns no_passkey event_bytes
      rounds 2 announcement.merchant route 5 found_key found
