-- ===== src/Lane/Verified.antt =====
-- A lane that passes the check holds only receivers that were computed again, or announced.
use open_beanie.Base.{
  ℕ, ◌≡◌, ap, Bool, true, false, not, ◌&&◌, ◌==◌, List, [], ◌∷◌, Option, none, some, Text, text_eq,
  text_eq→eq, length, All, Bool-cases, Option-cases, inl, inr, ◌⊎◌,
}
use open_beanie.Base.Result.{Result, ok, guard, >>=-eq_ok, guard-eq_ok, Result-cases}
use mathlib.Core.Path.{subst}
use open_beanie.Chains.{Chain, chain_by_key, wire}
use open_beanie.Chains.Ready.{lane_chains, is_zero_hex}
use open_beanie.Identity.{canonical_address, CctpRoute, cctp_route}
use open_beanie.Onchain.{ChainError, Net, predict_receiver}
use open_beanie.Store.{Storage}
use open_beanie.Store.Lanes.{mark_verified}
use open_beanie.Store.Lanes.Marked.{Marks, mark_verified-Marks}
use open_beanie.Lane.Owned.{
  lift-eq_ok, IsMerchant, leg_merchant-IsMerchant, OnSolana, check_solana-OnSolana,
}
use open_beanie.Onchain.Accounts.{Accounts}
use open_beanie.Stealth.{Curves}
use open_beanie.Lane.Passkey.{passkey_account, Derives, passkey_account-Derives}
use open_beanie.Lane.Paid.{IsPaid, payout-IsPaid}
use open_beanie.Lane.{
  LaneError, not_available, settles, from_chain, from_identity, lift, Leg, StoredReceiver,
  StoredLane, find_leg, is_solana, check_address, leg_merchant, compute_leg, compute_legs,
  compute_receivers, check_solana, check_match, check_receivers, payout, checks, verify_lane,
}

check_address-eq_ok :
    (name : Text) (o : Option Text) (a : Text) → check_address name o ≡ ok a → o ≡ some a
check_address-eq_ok name none a h = cc
check_address-eq_ok name (some b) a h = elim (Bool-cases (is_zero_hex b && not (length b == 2))) [
  | inl e ↦ cc (rw e at h)
  | inr e ↦ cc (rw e at h)
]

module _ (sha256 : List ℕ → List ℕ) (net : Text → Net)
    (owners : List Text → Result ChainError (List (Option Text)))
    (derived : StoredLane → Result LaneError Text) where
  -- The address of a leg is the canonical form of the receiver that is predicted on its chain for
  -- its merchant and the route.
  pub record Predicted (target recipient identity : Text) (leg : Leg) : Type 0 where
    pub route : CctpRoute
    pub predicted : Text
    pub is_route : cctp_route leg.chain target recipient ≡ ok route
    pub is_merchant :
        IsMerchant sha256 net owners derived leg.chain target recipient identity leg.merchant
    pub is_predicted : predict_receiver (net leg.chain) leg.chain leg.merchant route ≡ ok predicted
    pub is_address : canonical_address leg.chain predicted ≡ some leg.address

  compute_leg-Predicted :
      (c : Chain) (target recipient identity : Text) (leg : Leg)
      → compute_leg sha256 net owners derived c target recipient identity ≡ ok leg
      → Predicted target recipient identity leg
  unfolding compute_leg
  compute_leg-Predicted c target recipient identity leg h =
      let (route, r, h1) = >>=-eq_ok (lift from_identity (cctp_route c.key target recipient)) _ h in
      let (merchant, m, h2) =
        >>=-eq_ok (leg_merchant sha256 net owners derived c.key target recipient identity) _ h1 in
      let (predicted, p, h3) =
        >>=-eq_ok (lift from_chain (predict_receiver (net c.key) c.key merchant route)) _ h2 in
      let (address, a, h4) =
        >>=-eq_ok (check_address c.name (canonical_address c.key predicted)) _ h3 in
      let same : ◌≡◌ {A = Leg} (record { chain = c.key; address = address; merchant = merchant })
          leg =
        cc in
      rw (← same) (record {
        route = route;
        predicted = predicted;
        is_route = lift-eq_ok from_identity _ route r;
        is_merchant =
            leg_merchant-IsMerchant sha256 net owners derived c.key target recipient identity
              merchant m;
        is_predicted = lift-eq_ok from_chain _ predicted p;
        is_address = check_address-eq_ok c.name _ address a;
      })

  find_leg-Predicted :
      (cs : List Chain) (target recipient identity : Text) (legs : List Leg) (key : Text)
      (leg : Leg)
      → compute_legs sha256 net owners derived cs target recipient identity ≡ ok legs
      → find_leg key legs ≡ some leg
      → (leg.chain ≡ key) × Predicted target recipient identity leg
  unfolding compute_legs find_leg
  find_leg-Predicted [] target recipient identity legs key leg h f =
      let none_there : [] ≡ legs = cc in cc (rw (← none_there) at f)
  find_leg-Predicted (c ∷ cs) target recipient identity legs key leg h f =
      let (first, one, h1) =
        >>=-eq_ok (compute_leg sha256 net owners derived c target recipient identity) _ h in
      let (rest, others, h2) =
        >>=-eq_ok (compute_legs sha256 net owners derived cs target recipient identity) _ h1 in
      let all_legs : first ∷ rest ≡ legs = cc in
      let f' = rw (← all_legs) at f in
      elim (Bool-cases (text_eq first.chain key)) [
        | inl t ↦
            let same : first ≡ leg = cc (rw (find_leg, t) at f') in
            rw (← same) (
              text_eq→eq first.chain key t,
              compute_leg-Predicted c target recipient identity first one,
            )
        | inr t ↦
            find_leg-Predicted cs target recipient identity rest key leg others
              (rw (find_leg, t) at f')
      ]

  -- On Solana the accounts that are derived for the receiver are there; elsewhere the receiver is a
  -- leg's address.
  abbrev pub Checked : Text → Text → StoredReceiver → Type 0
  Checked target a r =
      ((is_solana (chain_by_key r.chain) ≡ true) × OnSolana sha256 net owners derived target a r)
      ⊎ ((leg : Leg) × (leg.chain ≡ wire r.chain)
          × (leg.address ≡ r.address)
          × Predicted target a a leg)

  check_match-Predicted :
      (target a : Text) (legs : List Leg) (r : StoredReceiver)
      → compute_legs sha256 net owners derived lane_chains target a a ≡ ok legs
      → check_match sha256 net owners derived legs r ≡ ok tt
      → (leg : Leg) × (leg.chain ≡ wire r.chain)
        × (leg.address ≡ r.address)
        × Predicted target a a leg
  unfolding check_match
  check_match-Predicted target a legs r made h =
      elim (Option-cases (find_leg (wire r.chain) legs)) [
        | inl e ↦ cc (rw (check_match, e) at h)
        | inr (leg, e) ↦
            let same = guard-eq_ok (text_eq leg.address r.address) _ (rw (check_match, e) at h) in
            let (key, made_so) =
              find_leg-Predicted lane_chains target a a legs (wire r.chain) leg made e in
            (leg, key, text_eq→eq leg.address r.address same, made_so)
      ]

  check_receivers-Checked :
      (target a : Text) (legs : List Leg) (rs : List StoredReceiver)
      → compute_legs sha256 net owners derived lane_chains target a a ≡ ok legs
      → check_receivers sha256 net owners derived target a a legs rs ≡ ok tt
      → All (Checked target a) rs
  unfolding check_receivers
  check_receivers-Checked target a legs [] made h = tt
  check_receivers-Checked target a legs (r ∷ rs) made h =
      let rest = check_receivers sha256 net owners derived target a a legs rs in
      elim (Bool-cases (is_solana (chain_by_key r.chain))) [
        | inl t ↦
            let (_, one, others) =
              >>=-eq_ok (check_solana sha256 net owners derived target a a r) (λ _. rest)
                (rw (check_receivers, t) at h) in
            (
              inl (t, check_solana-OnSolana sha256 net owners derived target a r one),
              check_receivers-Checked target a legs rs made others,
            )
        | inr t ↦
            let (_, one, others) =
              >>=-eq_ok (check_match sha256 net owners derived legs r) (λ _. rest)
                (rw (check_receivers, t) at h) in
            (
              inr (check_match-Predicted target a legs r made one),
              check_receivers-Checked target a legs rs made others,
            )
      ]

  pub legs-computed :
      (target recipient identity : Text) (legs : List Leg)
      → compute_receivers sha256 net owners derived target recipient identity ≡ ok legs
      → compute_legs sha256 net owners derived lane_chains target recipient identity ≡ ok legs
  unfolding compute_receivers
  legs-computed target recipient identity legs h =
      let more = compute_legs sha256 net owners derived lane_chains target recipient identity in
      (>>=-eq_ok (guard (settles (chain_by_key target)) (not_available target)) (λ _. more) h).2

  -- The check for any account that is derived.
  verify_lane-Checked :
      (fits : Storage → Bool) (lane : StoredLane) (s s' : Storage)
      → verify_lane sha256 net owners derived fits lane s ≡ (s', ok tt)
      → IsPaid sha256 net owners derived lane
        × All (Checked (wire lane.target_chain) lane.target_recipient) lane.receivers
        × ((mark_verified fits lane.id s).0 ≡ s')
  unfolding verify_lane checks compute_receivers
  verify_lane-Checked fits lane s s' h =
      elim (Result-cases (checks sha256 net owners derived lane)) [
        | inr (e, failed) ↦ cc (rw (verify_lane, failed) at h)
        | inl (_, passed) ↦
            let same : (mark_verified fits lane.id s).0 ≡ s' =
              ap (λ (o : Storage × Result LaneError (Unit {0})). o.0)
                (rw (verify_lane, passed) at h) in
            let (a, paid, h1) = >>=-eq_ok (payout sha256 net owners derived lane) _ passed in
            let target = wire lane.target_chain in
            let (legs, made, h2) =
              >>=-eq_ok (compute_receivers sha256 net owners derived target a a) _ h1 in
            let legs_made = legs-computed target a a legs made in
            let all_checked = check_receivers-Checked target a legs lane.receivers legs_made h2 in
            let (recipient, is_paid) = payout-IsPaid sha256 net owners derived lane a paid in
            (
              is_paid,
              subst (λ (t : Text). All (Checked target t) lane.receivers) recipient all_checked,
              same,
            )
      ]

module _ (sha256 : List ℕ → List ℕ) (net : Text → Net)
    (owners : List Text → Result ChainError (List (Option Text))) (curves : Curves)
    (accounts : Text → Accounts) (prf : List ℕ → Option Text → Result LaneError (List ℕ)) where
  abbrev pub PaysOut : StoredLane → Type 0
  PaysOut lane =
      ((lane.privacy ≡ true) × Derives sha256 curves accounts prf lane lane.target_recipient)
      ⊎ (lane.privacy ≡ false)
        × (canonical_address (wire lane.target_chain) lane.merchant_address
            ≡ some lane.target_recipient)

  paid-PaysOut :
      (lane : StoredLane)
      → IsPaid sha256 net owners (passkey_account sha256 curves accounts prf) lane
      → PaysOut lane
  paid-PaysOut lane (inl (t, d)) =
      inl (t, passkey_account-Derives sha256 curves accounts prf lane lane.target_recipient d)
  paid-PaysOut lane (inr x) = inr x

  -- A lane that passes the check names as its recipient, where it is private, the account that the
  -- passkey derives for it, and else the canonical form of its merchant's address; each of its
  -- receivers is, for that recipient, the canonical form of the receiver that is predicted on its
  -- chain for the merchant there, or on Solana one for which an account that is derived from it,
  -- the merchant and the route is there and belongs to the program; and what is left is what
  -- markVerified makes of the storage, which is as it was, or only its lanes were written again,
  -- so that the first with the id of the lane has no mark for verification.
  pub verify_lane_sound :
      (fits : Storage → Bool) (lane : StoredLane) (s s' : Storage)
      → verify_lane sha256 net owners (passkey_account sha256 curves accounts prf) fits lane s
        ≡ (s', ok tt)
      → PaysOut lane
        × All
            (Checked sha256 net owners
              (passkey_account sha256 curves accounts prf)
              (wire lane.target_chain)
              lane.target_recipient)
            lane.receivers
        × ((mark_verified fits lane.id s).0 ≡ s')
        × Marks lane.id s s'
  verify_lane_sound fits lane s s' h =
      let (paid, checked, same) =
        verify_lane-Checked sha256 net owners (passkey_account sha256 curves accounts prf) fits lane
          s s' h in
      (
        paid-PaysOut lane paid,
        checked,
        same,
        subst (λ (x : Storage). Marks lane.id s x) same (mark_verified-Marks fits lane.id s),
      )
