-- ===== src/Lane/Create.antt =====
-- lane.js, `snapshotStartBlocks` and `createLane`.
pub mod Legs
pub mod Checks
use open_beanie.Base.{
  ℕ, zero, suc, ◌+◌, ◌-◌, Bool, true, false, not, ◌&&◌, if◌then◌else◌, List, [], ◌∷◌, ◌++◌, Option,
  none, some, Text, text_eq, codes, map,
}
use open_beanie.Base.Json.{
  Value, undefined, null, bool, nat, str, arr, obj, Fields, end, field, of_list,
}
use open_beanie.Base.Result.{Result, ok, err, pos, ◌>>=◌, ◌>>◌, guard}
use open_beanie.Chains.{Chain, chain_by_key, wire, solana_chain, Bound, ResourceBounds, Eip712}
use open_beanie.Chains.Config.{ChainId, number, felt, StealthConfig}
use open_beanie.Chains.Ready.{stealth_ready, can_discover}
use open_beanie.Identity.{canonical_address, CctpRoute}
use open_beanie.Onchain.{ChainError, Net, head_block}
use open_beanie.Onchain.Accounts.{Accounts, contract_exists}
use open_beanie.Solana.Program.{usdc_ata}
use open_beanie.Stealth.{Curves, Derived, generate_lane_id, lane_salt, derive_stealth_address}
use open_beanie.Store.{Storage}
use open_beanie.Store.Lanes.{save_lane}
use open_beanie.Lane.{
  LaneError, from_stealth, from_chain, no_settlement_chain, not_private, invalid_wallet, not_saved,
  lift, Leg, StoredReceiver, StoredLane, compute_receivers, solana_leg,
}
use open_beanie.Lane.Discover.{Round, discover_solana_receiver}
use open_beanie.Lane.Record.{LaneReceiver, LaneRecord, record_value, config_value}
use open_beanie.Lane.Resolve.{Published, resolve_stealth_config}

-- What `api.createLane` is given.
pub record Announced : Type 0 where
  pub chain : Text
  pub address : Text
  pub lane_id : Text
  pub verified_token : Text
  pub target_chain : Text
  pub target_recipient : Text
  pub webhook_url : Option Text

-- A warning to the merchant.
pub data Warning : Type 0 where
  no_token_account receiver_not_found receiver_skipped : Warning

-- What the passkey, the API, the clock and the random numbers answer. `token` confirms a binding;
-- `token_prf` gives a secret for a salt as well, with the credential.
pub record Outside : Type 0 where
  pub published : Result LaneError (List Published)
  pub token : Text → Result LaneError Text
  pub token_prf : Text → List ℕ → Result LaneError (Text × List ℕ × Option Text)
  pub announce : Announced → Result LaneError (Unit {0})
  pub rounds : ℕ → Round
  pub round_count : ℕ
  pub random : List ℕ
  pub now : ℕ
  pub saved_at : ℕ

-- `heads[i] == null ? null : Math.max(0, heads[i] - 10)`
abbrev pub start_block : Result ChainError ℕ → Option ℕ
start_block (ok n) = some (n - 10)
start_block (err _) = none

abbrev pub known_chain : Option Chain → Result LaneError Chain
known_chain none = err no_settlement_chain
known_chain (some c) = ok c

-- The recipient with what belongs to it: the merchant's address, the id, the token and the
-- credential of the passkey, and the settings of a private lane. A public lane has its token later.
pub record Identified : Type 0 where
  pub recipient : Text
  pub merchant_address : Option Text
  pub lane_id : Text
  pub token : Option Text
  pub prf_credential_id : Option Text
  pub stealth_config : Option StealthConfig

module _ (sha256 : List ℕ → List ℕ) (net : Text → Net)
    (owners : List Text → Result ChainError (List (Option Text)))
    (derived : StoredLane → Result LaneError Text) (decode : Text → Option (List ℕ))
    (curves : Curves) (accounts : Text → Accounts) (outside : Outside) where
  abbrev pub with_start : Leg → LaneReceiver
  unfolding head_block
  with_start leg = record {
    chain = leg.chain;
    address = leg.address;
    merchant = leg.merchant;
    start_block = start_block (head_block (net leg.chain) leg.chain);
  }

  -- `snapshotStartBlocks`
  unfoldable pub snapshot_start_blocks : List Leg → List LaneReceiver
  unfolding head_block
  snapshot_start_blocks legs = map with_start legs

  abbrev pub binding : Text → Text
  binding lane_id = codes "create-lane:" ++ lane_id

  -- A private lane: the account that the passkey derives.
  unfoldable pub identify_private : Chain → Text → Text → Result LaneError Identified
  unfolding stealth_ready resolve_stealth_config generate_lane_id lane_salt derive_stealth_address
  identify_private chain target wallet =
      guard (stealth_ready chain) (not_private chain.name)
      >> resolve_stealth_config chain outside.published none
      >>= λ config.
          let lane_id = generate_lane_id sha256 wallet outside.random outside.now in
          outside.token_prf (binding lane_id) (lane_salt sha256 lane_id) >>= λ r.
          lift from_stealth
            (derive_stealth_address sha256 curves accounts r.1 lane_id (pos 0) target (some config))
          >>= λ d. ok (record {
            recipient = d.account.address;
            merchant_address = none;
            lane_id = lane_id;
            token = some r.0;
            prf_credential_id = r.2;
            stealth_config = some config;
          })

  -- A public lane: the merchant's address.
  unfoldable pub identify_public : Chain → Text → Text → Result LaneError Identified
  unfolding canonical_address generate_lane_id
  identify_public chain target wallet = elim (canonical_address target wallet) [
    | none ↦ err (invalid_wallet chain.name)
    | some canon ↦ ok (record {
      recipient = canon;
      merchant_address = some canon;
      lane_id = generate_lane_id sha256 canon outside.random outside.now;
      token = none;
      prf_credential_id = none;
      stealth_config = none;
    })
  ]

  abbrev pub token_of : Identified → Result LaneError Text
  token_of i = elim i.token [ none ↦ outside.token (binding i.lane_id) | some t ↦ ok t ]

  -- What is known of a lane when it is announced.
  pub record Prepared : Type 0 where
    pub target : Text
    pub identified : Identified
    pub receivers : List LaneReceiver
    pub token : Text

  unfoldable pub prepare : Text → Text → Bool → Result LaneError Prepared
  unfolding wire chain_by_key identify_private identify_public compute_receivers
      snapshot_start_blocks
  prepare wallet target_chain privacy =
      let target = wire target_chain in
      known_chain (chain_by_key target) >>= λ chain.
      (if privacy
        then identify_private chain target wallet
        else identify_public chain target wallet)
      >>= λ i.
          compute_receivers sha256 net owners derived target i.recipient i.recipient >>= λ legs.
          token_of i >>= λ token. ok (record {
            target = target;
            identified = i;
            receivers = snapshot_start_blocks legs;
            token = token;
          })

  abbrev pub announced_of : Prepared → Option Text → Announced
  announced_of p webhook_url = record {
    chain = p.target;
    address = p.identified.recipient;
    lane_id = p.identified.lane_id;
    verified_token = p.token;
    target_chain = p.target;
    target_recipient = p.identified.recipient;
    webhook_url = webhook_url;
  }

  -- The payout wallet needs a token account on Solana; what fails here is passed over.
  abbrev pub account_warnings : Text → Text → List Warning
  unfolding text_eq usdc_ata contract_exists
  account_warnings target recipient =
      if text_eq target solana_chain.key
      then elim (usdc_ata sha256 recipient solana_chain.usdc) [
        | err _ ↦ []
        | ok ata ↦ elim (contract_exists sha256 accounts solana_chain.key ata) [
          | ok false ↦ no_token_account ∷ []
          | _ ↦ []
        ]
      ]
      else []

  -- A receiver that is found, with the block to start from.
  abbrev pub placed : Text → ℕ → Option Text → Option LaneReceiver
  placed merchant from none = none
  placed merchant from (some address) = some (record {
    chain = solana_chain.key;
    address = address;
    merchant = merchant;
    start_block = some (from - 10);
  })

  abbrev pub search_leg : ℕ → Text × CctpRoute → Result LaneError (Option LaneReceiver)
  unfolding discover_solana_receiver
  search_leg from leg =
      discover_solana_receiver sha256 net owners derived decode outside.rounds outside.round_count
        leg.0 leg.1 from
      >>= λ found. ok (placed leg.0 from found)

  -- The receiver on Solana, from the head before the announcement.
  unfoldable pub found_receiver :
      Text → Text → Result ChainError ℕ → Result LaneError (Option LaneReceiver)
  unfolding discover_solana_receiver
  found_receiver target recipient head = lift from_chain head >>= λ from.
      solana_leg sha256 net owners derived target recipient recipient >>= search_leg from

  abbrev pub found_or_warning :
      Result LaneError (Option LaneReceiver) → List LaneReceiver × List Warning
  found_or_warning (ok (some r)) = (r ∷ [], [])
  found_or_warning (ok none) = ([], receiver_not_found ∷ [])
  found_or_warning (err _) = ([], receiver_skipped ∷ [])

  unfoldable pub solana_part : Text → Text → List LaneReceiver × List Warning
  unfolding can_discover found_receiver head_block
  solana_part target recipient =
      if can_discover solana_chain
      then found_or_warning
          (found_receiver target recipient (head_block (net solana_chain.key) solana_chain.key))
      else ([], [])

  unfoldable pub lane_of : Prepared → Bool → Option Text → List LaneReceiver → LaneRecord
  lane_of p privacy webhook_url more = record {
    id = p.identified.lane_id;
    privacy = privacy;
    target_chain = p.target;
    target_recipient = p.identified.recipient;
    merchant_address = p.identified.merchant_address;
    index = 0;
    prf_credential_id = p.identified.prf_credential_id;
    webhook_url = webhook_url;
    created_at = outside.saved_at;
    stealth_config = p.identified.stealth_config;
    receivers = p.receivers ++ more;
  }

  -- What is left: the storage, what was announced, and the lane with its warnings.
  pub record Outcome : Type 0 where
    pub storage : Storage
    pub announced : Option Announced
    pub result : Result LaneError (LaneRecord × List Warning)

  abbrev pub saved : Bool → LaneRecord → List Warning → Result LaneError (LaneRecord × List Warning)
  saved true lane warnings = ok (lane, warnings)
  saved false lane warnings = err (not_saved lane.id)

  unfoldable pub finish : (Storage → Bool) → Prepared → Bool → Option Text → Storage → Outcome
  unfolding solana_part lane_of record_value save_lane
  finish fits p privacy webhook_url s =
      let part = solana_part p.target p.identified.recipient in
      let lane = lane_of p privacy webhook_url part.0 in
      let kept = save_lane fits lane.id (record_value lane) s in
      record {
        storage = kept.0;
        announced = some (announced_of p webhook_url);
        result = saved kept.1 lane (account_warnings p.target p.identified.recipient ++ part.1);
      }

  unfoldable pub create_lane :
      (Storage → Bool) → Text → Text → Option Text → Bool → Storage → Outcome
  unfolding prepare finish
  create_lane fits wallet target_chain webhook_url privacy s =
      elim (prepare wallet target_chain privacy) [
        | err e ↦ record { storage = s; announced = none; result = err e }
        | ok p ↦ elim (outside.announce (announced_of p webhook_url)) [
          | err e ↦ record {
            storage = s;
            announced = some (announced_of p webhook_url);
            result = err e;
          }
          | ok _ ↦ finish fits p privacy webhook_url s
        ]
      ]
