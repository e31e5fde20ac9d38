-- ===== src/Lane/Create/Checks.antt =====
-- A lane that was created passes its own check.
use open_beanie.Base.{
  ℕ, ◌≡◌, refl, sym, ap, ◌∙◌, Bool, true, false, if◌then◌else◌, List, [], ◌∷◌, ◌++◌, map, Option,
  some, Text, text_eq_refl, Option-cases, inl, inr,
}
use mathlib.Core.Path.{subst}
use open_beanie.Base.Result.{Result, ok, >>=-eq_ok, ok-injective, err-ne-ok, Result-cases}
use open_beanie.Chains.{Chain, chain_by_key, wire, base, starknet_chain}
use open_beanie.Identity.{canonical_address}
use open_beanie.Identity.Stable.{canonical_address-stable, wire_idem}
use open_beanie.Onchain.{ChainError, Net}
use open_beanie.Onchain.Accounts.{Accounts}
use open_beanie.Stealth.{Curves}
use open_beanie.Store.{Storage}
use open_beanie.Lane.{
  LaneError, Leg, StoredReceiver, StoredLane, compute_receivers, check_receivers, payout, checks,
}
use open_beanie.Lane.Verified.{legs-computed}
use open_beanie.Lane.Record.{LaneReceiver, LaneRecord, stored_receiver, stored_lane}
use open_beanie.Lane.Create.{
  announced_of, solana_part, Prepared, prepare, identify_private, identify_public, known_chain,
  token_of, finish, lane_of, saved, create_lane, Warning, Outside, Identified,
  snapshot_start_blocks,
}
use open_beanie.Lane.Create.Legs.{
  leg_on, compute_legs-two, check_receivers-legs, Sure, solana_part-Sure,
}

module _ (sha256 : List ℕ → List ℕ) (net : Text → Net)
    (owners : List Text → Result ChainError (List (Option Text)))
    (derived : StoredLane → Result LaneError Text) (decode : Text → Option (List ℕ))
    (curves : Curves) (accounts : Text → Accounts) (outside : Outside) where
  -- What is prepared for a lane.
  record Ready (wallet target_chain : Text) (privacy : Bool)
      (p : Prepared sha256 net owners derived decode curves accounts outside) : Type 0 where
    legs : List Leg
    is_target : p.target ≡ wire target_chain
    computed :
        compute_receivers sha256 net owners derived p.target p.identified.recipient
          p.identified.recipient
        ≡ ok legs
    are_receivers :
        p.receivers
        ≡ snapshot_start_blocks sha256 net owners derived decode curves accounts outside legs
    is_public :
        privacy ≡ false
        → (p.identified.merchant_address ≡ some p.identified.recipient)
          × (canonical_address p.target p.identified.recipient ≡ some p.identified.recipient)

  abbrev identify : Bool → Chain → Text → Text → Result LaneError Identified
  identify privacy chain target wallet =
      if privacy
      then identify_private sha256 net owners derived decode curves accounts outside chain target
          wallet
      else identify_public sha256 net owners derived decode curves accounts outside chain target
          wallet

  identify-public :
      (privacy : Bool) (chain : Chain) (target wallet : Text) (i : Identified)
      → identify privacy chain target wallet ≡ ok i
      → privacy ≡ false
      → (i.merchant_address ≡ some i.recipient)
        × (canonical_address target i.recipient ≡ some i.recipient)
  unfolding identify_public
  identify-public privacy chain target wallet i h e =
      elim (Option-cases (canonical_address target wallet)) [
        | inl gone ↦ cc (rw (e, gone, identify_public) at h)
        | inr (c, there) ↦
            let same = ok-injective _ i (rw (e, there, identify_public) at h) in
            rw (← same) (refl, canonical_address-stable target wallet c there)
      ]

  prepare-Ready :
      (wallet target_chain : Text) (privacy : Bool)
      (p : Prepared sha256 net owners derived decode curves accounts outside)
      → prepare sha256 net owners derived decode curves accounts outside wallet target_chain privacy
        ≡ ok p
      → Ready wallet target_chain privacy p
  unfolding prepare
  prepare-Ready wallet target_chain privacy p h =
      let target = wire target_chain in
      let (chain, _, h1) = >>=-eq_ok (known_chain (chain_by_key target)) _ h in
      let (i, is_i, h2) = >>=-eq_ok (identify privacy chain target wallet) _ h1 in
      let (legs, l, h3) =
        >>=-eq_ok (compute_receivers sha256 net owners derived target i.recipient i.recipient) _
          h2 in
      let (token, _, h4) =
        >>=-eq_ok (token_of sha256 net owners derived decode curves accounts outside i) _ h3 in
      let same = ok-injective _ p h4 in
      rw (← same) (record {
        legs = legs;
        is_target = refl;
        computed = l;
        are_receivers = refl;
        is_public = identify-public privacy chain target wallet i is_i;
      })

  -- The passkey derives the recipient of a private lane again.
  abbrev pub Rederives : LaneRecord → Type 0
  Rederives lane = lane.privacy ≡ true → derived (stored_lane lane) ≡ ok lane.target_recipient

  payout-lane :
      (wallet target_chain : Text) (privacy : Bool)
      (p : Prepared sha256 net owners derived decode curves accounts outside)
      (webhook_url : Option Text) (more : List LaneReceiver)
      → Ready wallet target_chain privacy p
      → Rederives (
          lane_of sha256 net owners derived decode curves accounts outside p privacy webhook_url
            more)
      → payout sha256 net owners derived (
          stored_lane (
            lane_of sha256 net owners derived decode curves accounts outside p privacy webhook_url
              more))
        ≡ ok p.identified.recipient
  unfolding payout lane_of
  payout-lane wallet target_chain true p webhook_url more ready again =
      rw (again refl, text_eq_refl p.identified.recipient) refl
  payout-lane wallet target_chain false p webhook_url more ready again =
      let (named, stable) = ready.is_public refl in
      let whole : wire p.target ≡ p.target =
        ap wire ready.is_target ∙ wire_idem target_chain ∙ sym ready.is_target in
      rw (named, whole, stable, text_eq_refl p.identified.recipient) refl

  stored_two :
      (p : Prepared sha256 net owners derived decode curves accounts outside)
      (more : List LaneReceiver) (a m b n : Text) (legs : List Leg)
      → leg_on sha256 net owners derived base a m
          ∷ leg_on sha256 net owners derived starknet_chain b n
          ∷ []
        ≡ legs
      → p.receivers
        ≡ snapshot_start_blocks sha256 net owners derived decode curves accounts outside legs
      → map stored_receiver (p.receivers ++ more)
        ≡ record { chain = base.key; address = a }
          ∷ record { chain = starknet_chain.key; address = b }
          ∷ map stored_receiver more
  unfolding snapshot_start_blocks
  stored_two p more a m b n legs e h = rw (h, ← e) refl

  all_legs :
      (target r a m b n : Text) (legs : List Leg) (rs more : List StoredReceiver)
      → leg_on sha256 net owners derived base a m
          ∷ leg_on sha256 net owners derived starknet_chain b n
          ∷ []
        ≡ legs
      → rs
        ≡ record { chain = base.key; address = a }
          ∷ record { chain = starknet_chain.key; address = b }
          ∷ more
      → check_receivers sha256 net owners derived target r r legs more ≡ ok tt
      → check_receivers sha256 net owners derived target r r legs rs ≡ ok tt
  all_legs target r a m b n legs rs more e es h =
      let front : List StoredReceiver =
        record { chain = base.key; address = a }
        ∷ record { chain = starknet_chain.key; address = b }
        ∷ more in
      let start = λ (ls : List Leg) (xs : List StoredReceiver).
        check_receivers sha256 net owners derived target r r ls xs in
      subst (λ (xs : List StoredReceiver). start legs xs ≡ ok tt) (sym es)
        (subst (λ (ls : List Leg). start ls more ≡ ok tt → start ls front ≡ ok tt) e
          (λ k. check_receivers-legs sha256 net owners derived target a b m n r more ∙ k) h)

  -- A lane that is made of what was prepared passes the check.
  prepared-checks :
      (wallet target_chain : Text) (privacy : Bool)
      (p : Prepared sha256 net owners derived decode curves accounts outside)
      (webhook_url : Option Text) (more : List LaneReceiver)
      → Ready wallet target_chain privacy p
      → Rederives (
          lane_of sha256 net owners derived decode curves accounts outside p privacy webhook_url
            more)
      → Sure sha256 net owners derived decode curves accounts outside p.target
          p.identified.recipient more
      → checks sha256 net owners derived (
          stored_lane (
            lane_of sha256 net owners derived decode curves accounts outside p privacy webhook_url
              more))
        ≡ ok tt
  unfolding checks lane_of
  prepared-checks wallet target_chain privacy p webhook_url more ready again sure =
      let paid = payout-lane wallet target_chain privacy p webhook_url more ready again in
      let whole : wire p.target ≡ p.target =
        ap wire ready.is_target ∙ wire_idem target_chain ∙ sym ready.is_target in
      let r = p.identified.recipient in
      let made = legs-computed sha256 net owners derived p.target r r ready.legs ready.computed in
      let (a, m, b, n, two) =
        compute_legs-two sha256 net owners derived p.target r r ready.legs made in
      let stored = stored_two p more a m b n ready.legs two ready.are_receivers in
      rw (paid, whole, ready.computed)
        (all_legs p.target r a m b n ready.legs (map stored_receiver (p.receivers ++ more))
          (map stored_receiver more) two stored (sure ready.legs))

  saved-eq_ok :
      (b : Bool) (lane lane' : LaneRecord) (w w' : List Warning)
      → saved sha256 net owners derived decode curves accounts outside b lane w ≡ ok (lane', w')
      → lane ≡ lane'
  saved-eq_ok true lane lane' w w' h =
      ap (λ (x : LaneRecord × List Warning). x.0) (ok-injective (lane, w) (lane', w') h)
  saved-eq_ok false lane lane' w w' h = absurd (err-ne-ok _ (lane', w') h)

  finish-eq_ok :
      (fits : Storage → Bool)
      (p : Prepared sha256 net owners derived decode curves accounts outside) (privacy : Bool)
      (webhook_url : Option Text) (s : Storage) (lane : LaneRecord) (warnings : List Warning)
      → (finish sha256 net owners derived decode curves accounts outside fits p privacy webhook_url
          s).result
        ≡ ok (lane, warnings)
      → lane_of sha256 net owners derived decode curves accounts outside p privacy webhook_url
          (solana_part sha256 net owners derived decode curves accounts outside p.target
            p.identified.recipient).0
        ≡ lane
  unfolding finish
  finish-eq_ok fits p privacy webhook_url s lane warnings h = saved-eq_ok _ _ lane _ warnings h

  -- A lane that is created passes the checks that verifyLane makes of it, on the same answers of
  -- the network, with every receiver among those computed or, on Solana, announced; for a private
  -- lane on the condition that the passkey derives its recipient again.
  pub create_lane-checks :
      (fits : Storage → Bool) (wallet target_chain : Text) (webhook_url : Option Text)
      (privacy : Bool) (s : Storage) (lane : LaneRecord) (warnings : List Warning)
      → (create_lane sha256 net owners derived decode curves accounts outside fits wallet
          target_chain webhook_url privacy s).result
        ≡ ok (lane, warnings)
      → Rederives lane
      → checks sha256 net owners derived (stored_lane lane) ≡ ok tt
  unfolding create_lane finish
  create_lane-checks fits wallet target_chain webhook_url privacy s lane warnings h again =
      let prepared =
        prepare sha256 net owners derived decode curves accounts outside wallet target_chain
          privacy in
      elim (Result-cases prepared) [
        | inr (e, failed) ↦ cc (rw (create_lane, failed) at h)
        | inl (p, is_p) ↦
            let announced = outside.announce (
              announced_of sha256 net owners derived decode curves accounts outside p
                webhook_url) in
            elim (Result-cases announced) [
              | inr (e, failed) ↦ cc (rw (create_lane, is_p, failed) at h)
              | inl (_, told) ↦
                  let same =
                    finish-eq_ok fits p privacy webhook_url s lane warnings
                      (rw (create_lane, is_p, told) at h) in
                  let r = p.identified.recipient in
                  let more =
                    (solana_part sha256 net owners derived decode curves accounts outside p.target
                      r).0 in
                  subst
                    (λ (l : LaneRecord).
                      Rederives l → checks sha256 net owners derived (stored_lane l) ≡ ok tt)
                    same
                    (λ again'.
                      prepared-checks wallet target_chain privacy p webhook_url more
                        (prepare-Ready wallet target_chain privacy p is_p) again'
                        (solana_part-Sure sha256 net owners derived decode curves accounts outside
                          p.target r))
                    again
            ]
      ]
