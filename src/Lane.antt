-- ===== src/Lane.antt =====
-- lane.js: the receivers of a lane are computed here, and those of a stored lane are checked.
pub mod Owned
pub mod Paid
pub mod Passkey
pub mod Verified
pub mod Resolve
pub mod Discover
pub mod Record
pub mod Create
use open_beanie.Base.{
  ℕ, Bool, true, false, not, ◌&&◌, ◌||◌, ◌==◌, if◌then◌else◌, List, [], ◌∷◌, Option, none, some,
  Text, text_eq, length,
}
use open_beanie.Base.Result.{Result, ok, err, ◌>>=◌, ◌>>◌, guard}
use open_beanie.Chains.{Kind, solana, Chain, chain_by_key, wire, solana_chain}
use open_beanie.Chains.Config.{StealthConfig}
use open_beanie.Chains.Ready.{lane_chains, can_settle, is_zero_hex}
use open_beanie.Identity.{
  IdentityError, canonical_address, merchant_identity, CctpRoute, cctp_route,
}
use open_beanie.Onchain.{ChainError, Net, predict_receiver}
use open_beanie.Solana.Program.{ProgramError, Factory, Announcement, Pdas, receiver_pdas}
use open_beanie.Stealth.{StealthError}
use open_beanie.Store.{Storage}
use open_beanie.Store.Lanes.{mark_verified}

pub data LaneError : Type 0 where
  from_chain : ChainError → LaneError
  from_identity : IdentityError → LaneError
  from_program : ProgramError → LaneError
  no_program : LaneError
  not_available : Text → LaneError
  invalid_receiver : Text → LaneError
  passkey_failed : LaneError
  other_passkey : LaneError
  payout_mismatch : LaneError
  not_announced : LaneError
  receiver_mismatch : Text → LaneError
  from_stealth : StealthError → LaneError
  no_settlement_chain : LaneError
  not_private : Text → LaneError
  no_cosigner : Text → LaneError
  incomplete_settings : Text → LaneError
  settings_differ : Text → Text → LaneError
  invalid_wallet : Text → LaneError
  api_failed : LaneError
  not_saved : Text → LaneError

-- The errors of what is called, as they are passed on.
abbrev pub lift {ℓ} : {E : Type 0} {A : Type ℓ} → (E → LaneError) → Result E A → Result LaneError A
lift f (ok a) = ok a
lift f (err e) = err (f e)

-- A receiver that was computed.
pub record Leg : Type 0 where
  pub chain : Text
  pub address : Text
  pub merchant : Text

-- `canSettle(chainByKey(target) ?? {})`
abbrev pub settles : Option Chain → Bool
settles none = false
settles (some c) = can_settle c

-- `!address || /^0x0+$/.test(address)`
abbrev pub check_address : Text → Option Text → Result LaneError Text
check_address name none = err (invalid_receiver name)
check_address name (some a) =
    if is_zero_hex a && not (length a == 2) then err (invalid_receiver name) else ok a

-- The lane that is checked: its fields that the check reads. A merchant's address that is null is
-- the empty text, as `String(value ?? "")` makes of it.
pub record StoredReceiver : Type 0 where
  pub chain : Text
  pub address : Text

pub record StoredLane : Type 0 where
  pub id : Text
  pub privacy : Bool
  pub target_chain : Text
  pub target_recipient : Text
  pub merchant_address : Text
  pub receivers : List StoredReceiver
  pub index : ℕ
  pub prf_credential_id : Option Text
  pub stealth_config : Option StealthConfig

-- An account is accepted if there is one, and it is the lane's recipient.
abbrev pub accept : LaneError → LaneError → Text → Option Text → Result LaneError Text
accept missing other recipient none = err missing
accept missing other recipient (some a) = if text_eq a recipient then ok a else err other

unfoldable pub find_leg : Text → List Leg → Option Leg
find_leg key [] = none
find_leg key (l ∷ ls) = if text_eq l.chain key then some l else find_leg key ls

abbrev pub is_solana : Option Chain → Bool
is_solana none = false
is_solana (some c) = elim c.kind [ solana ↦ true | _ ↦ false ]

-- `(res?.value ?? []).some((a) => a && a.owner === programId)`, on the owners of the accounts.
unfoldable pub has_program_account : List (Option Text) → Text → Bool
has_program_account [] program_id = false
has_program_account (none ∷ owners) program_id = has_program_account owners program_id
has_program_account (some o ∷ owners) program_id =
    text_eq o program_id || has_program_account owners program_id

-- `net` gives the nodes of a chain, `owners` is getMultipleAccounts, and `derived` is what evaluatePrf
-- and deriveStealthAddress make of a private lane, its account; the module Passkey defines it.
module _ (sha256 : List ℕ → List ℕ) (net : Text → Net)
    (owners : List Text → Result ChainError (List (Option Text)))
    (derived : StoredLane → Result LaneError Text) where
  -- On the settlement leg the merchant is the recipient itself.
  abbrev pub leg_merchant : Text → Text → Text → Text → Result LaneError Text
  leg_merchant key target recipient identity =
      if text_eq key target
      then ok recipient
      else lift from_identity (merchant_identity sha256 key identity)

  unfoldable pub compute_leg : Chain → Text → Text → Text → Result LaneError Leg
  compute_leg leg target recipient identity =
      lift from_identity (cctp_route leg.key target recipient) >>= λ route.
      leg_merchant leg.key target recipient identity >>= λ merchant.
      lift from_chain (predict_receiver (net leg.key) leg.key merchant route) >>= λ predicted.
      check_address leg.name (canonical_address leg.key predicted) >>= λ address.
      ok (record { chain = leg.key; address = address; merchant = merchant })

  -- The legs are computed in parallel; all of them have to succeed.
  unfoldable pub compute_legs : List Chain → Text → Text → Text → Result LaneError (List Leg)
  unfolding compute_leg
  compute_legs [] target recipient identity = ok []
  compute_legs (c ∷ cs) target recipient identity =
      let rest = compute_legs cs target recipient identity in
      compute_leg c target recipient identity >>= λ leg. rest >>= λ legs. ok (leg ∷ legs)

  unfoldable pub compute_receivers : Text → Text → Text → Result LaneError (List Leg)
  unfolding compute_legs
  compute_receivers target recipient identity =
      guard (settles (chain_by_key target)) (not_available target)
      >> compute_legs lane_chains target recipient identity

  -- `solanaProgram()`
  abbrev pub solana_program : Result LaneError Factory
  solana_program = elim solana_chain.program [
    | none ↦ err no_program
    | some p ↦ if length p.id == 0 then err no_program else ok p
  ]

  unfoldable pub verify_solana_receiver : Text → CctpRoute → Text → Result LaneError Bool
  unfolding has_program_account
  verify_solana_receiver merchant route receiver = solana_program >>= λ program.
      lift from_program (
        receiver_pdas sha256 program
          (record { merchant = merchant; chain32 = route.chain32; recipient32 = route.recipient32 })
          receiver)
      >>= λ pdas. lift from_chain (owners (pdas.config ∷ pdas.pending ∷ [])) >>= λ found.
          ok (has_program_account found program.id)

  abbrev pub solana_leg : Text → Text → Text → Result LaneError (Text × CctpRoute)
  solana_leg target recipient identity =
      leg_merchant solana_chain.key target recipient identity >>= λ merchant.
      lift from_identity (cctp_route solana_chain.key target recipient) >>= λ route.
      ok (merchant, route)

  unfoldable pub check_solana : Text → Text → Text → StoredReceiver → Result LaneError (Unit {0})
  unfolding verify_solana_receiver
  check_solana target recipient identity r = solana_leg target recipient identity >>= λ leg.
      verify_solana_receiver leg.0 leg.1 r.address >>= λ there. guard there not_announced

  unfoldable pub check_match : List Leg → StoredReceiver → Result LaneError (Unit {0})
  unfolding find_leg
  check_match legs r = elim (find_leg (wire r.chain) legs) [
    | none ↦ err (receiver_mismatch r.chain)
    | some leg ↦ guard (text_eq leg.address r.address) (receiver_mismatch r.chain)
  ]

  unfoldable pub check_receivers :
      Text → Text → Text → List Leg → List StoredReceiver → Result LaneError (Unit {0})
  unfolding check_solana check_match
  check_receivers target recipient identity legs [] = ok tt
  check_receivers target recipient identity legs (r ∷ rs) =
      let rest = check_receivers target recipient identity legs rs in
      if is_solana (chain_by_key r.chain)
      then check_solana target recipient identity r >> rest
      else check_match legs r >> rest

  -- The payout account of the lane, from the passkey or from its merchant's address.
  unfoldable pub payout : StoredLane → Result LaneError Text
  payout lane =
      if lane.privacy
      then (derived lane >>= λ a.
          if text_eq a lane.target_recipient then ok a else err other_passkey)
      else accept payout_mismatch payout_mismatch lane.target_recipient
          (canonical_address (wire lane.target_chain) lane.merchant_address)

  unfoldable pub checks : StoredLane → Result LaneError (Unit {0})
  unfolding payout compute_receivers check_receivers
  checks lane = payout lane >>= λ a. compute_receivers (wire lane.target_chain) a a >>= λ legs.
      check_receivers (wire lane.target_chain) a a legs lane.receivers

  -- What `markVerified` returns is not looked at.
  unfoldable pub verify_lane :
      (Storage → Bool) → StoredLane → Storage → Storage × Result LaneError (Unit {0})
  unfolding checks
  verify_lane fits lane s = elim (checks lane) [
    | err e ↦ (s, err e)
    | ok _ ↦ ((mark_verified fits lane.id s).0, ok tt)
  ]
