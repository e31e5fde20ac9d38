-- ===== src/Lane/Create/Legs.antt =====
-- The receivers of a lane that is created, and how the check takes them.
use open_beanie.Base.{
  ℕ, ◌≡◌, refl, sym, Bool, true, false, if◌then◌else◌, List, [], ◌∷◌, map, Option, none, some, Text,
  text_eq, text_eq_refl, Option-cases, inl, inr,
}
use mathlib.Core.Path.{subst}
use open_beanie.Base.Result.{
  Result, ok, err, ◌>>=◌, ◌>>◌, guard, >>=-eq_ok, ok-injective, some-injective,
}
use open_beanie.Base.Strings.{to_upper, upper_unit}
use open_beanie.Chains.{
  Chain, chain_by_key, find_chain, wire, solana_chain, base, starknet_chain, can_predict,
}
use open_beanie.Chains.Ready.{lane_chains, filter_chains, can_discover}
use open_beanie.Identity.{canonical_address, CctpRoute, cctp_route}
use open_beanie.Onchain.{ChainError, Net, predict_receiver, head_block}
use open_beanie.Onchain.Accounts.{Accounts}
use open_beanie.Stealth.{Curves}
use open_beanie.Lane.{
  LaneError, from_chain, from_identity, lift, Leg, StoredReceiver, StoredLane, find_leg,
  check_address, leg_merchant, compute_leg, compute_legs, check_solana, check_match,
  check_receivers, solana_leg, verify_solana_receiver, not_announced,
}
use open_beanie.Lane.Discover.{discover_solana_receiver}
use open_beanie.Lane.Discover.Found.{discover_solana_receiver_sound}
use open_beanie.Lane.Record.{LaneReceiver, stored_receiver}
use open_beanie.Lane.Create.{
  search_leg, placed, found_receiver, found_or_warning, solana_part, Warning, Outside,
}

module _ (sha256 : List ℕ → List ℕ) (net : Text → Net)
    (owners : List Text → Result ChainError (List (Option Text)))
    (derived : StoredLane → Result LaneError Text) where
  -- A computed leg is on its chain.
  compute_leg-chain :
      (c : Chain) (target recipient identity : Text) (leg : Leg)
      → compute_leg sha256 net owners derived c target recipient identity ≡ ok leg
      → (address merchant : Text) × ◌≡◌ {A = Leg}
          (record { chain = c.key; address = address; merchant = merchant })
          leg
  unfolding compute_leg
  compute_leg-chain c target recipient identity leg h =
      let (route, _, h1) = >>=-eq_ok (lift from_identity (cctp_route c.key target recipient)) _ h in
      let (merchant, _, h2) =
        >>=-eq_ok (leg_merchant sha256 net owners derived c.key target recipient identity) _ h1 in
      let (predicted, _, h3) =
        >>=-eq_ok (lift from_chain (predict_receiver (net c.key) c.key merchant route)) _ h2 in
      let (address, _, h4) =
        >>=-eq_ok (check_address c.name (canonical_address c.key predicted)) _ h3 in
      (address, merchant, ok-injective _ leg h4)

  abbrev pub leg_on : Chain → Text → Text → Leg
  leg_on c address merchant = record { chain = c.key; address = address; merchant = merchant }

  two_chains : lane_chains ≡ base ∷ starknet_chain ∷ []
  unfolding lane_chains filter_chains can_predict
  two_chains = refl

  -- The legs are those on Base and on Starknet.
  pub compute_legs-two :
      (target recipient identity : Text) (legs : List Leg)
      → compute_legs sha256 net owners derived lane_chains target recipient identity ≡ ok legs
      → (a m b n : Text) × (leg_on base a m ∷ leg_on starknet_chain b n ∷ [] ≡ legs)
  unfolding compute_legs
  compute_legs-two target recipient identity legs h =
      let h0 = rw two_chains at h in
      let (one, o, h1) =
        >>=-eq_ok (compute_leg sha256 net owners derived base target recipient identity) _ h0 in
      let (rest, r, h2) =
        >>=-eq_ok
          (compute_legs sha256 net owners derived (starknet_chain ∷ []) target recipient identity) _
          h1 in
      let (two, t, r1) =
        >>=-eq_ok (compute_leg sha256 net owners derived starknet_chain target recipient identity) _
          r in
      let (a, m, is_one) = compute_leg-chain base target recipient identity one o in
      let (b, n, is_two) = compute_leg-chain starknet_chain target recipient identity two t in
      let is_rest = ok-injective (two ∷ []) rest r1 in
      (a, m, b, n, cc (is_one, is_two, is_rest, ok-injective (one ∷ rest) legs h2))

  abbrev stored_leg : Leg → StoredReceiver
  stored_leg leg = record { chain = leg.chain; address = leg.address }

  -- Each of them is found again, and its address is compared with itself; what follows is left.
  pub check_receivers-legs :
      (target a b m n x : Text) (more : List StoredReceiver)
      → check_receivers sha256 net owners derived target x x
          (leg_on base a m ∷ leg_on starknet_chain b n ∷ [])
          (stored_leg (leg_on base a m) ∷ stored_leg (leg_on starknet_chain b n) ∷ more)
        ≡ check_receivers sha256 net owners derived target x x
            (leg_on base a m ∷ leg_on starknet_chain b n ∷ [])
            more
  unfolding check_receivers check_match find_leg wire to_upper upper_unit text_eq chain_by_key
      find_chain
  check_receivers-legs target a b m n x more = rw (text_eq_refl a, text_eq_refl b) refl

module _ (sha256 : List ℕ → List ℕ) (net : Text → Net)
    (owners : List Text → Result ChainError (List (Option Text)))
    (derived : StoredLane → Result LaneError Text) (decode : Text → Option (List ℕ))
    (curves : Curves) (accounts : Text → Accounts) (outside : Outside) where
  -- Receivers on Solana that pass the check.
  abbrev pub Sure : Text → Text → List LaneReceiver → Type 0
  Sure target recipient more =
      (legs : List Leg)
      → check_receivers sha256 net owners derived target recipient recipient legs
          (map stored_receiver more)
        ≡ ok tt

  check_one :
      (target recipient : Text) (legs : List Leg) (leg : Text × CctpRoute) (a : Text)
      → solana_leg sha256 net owners derived target recipient recipient ≡ ok leg
      → verify_solana_receiver sha256 net owners derived leg.0 leg.1 a ≡ ok true
      → check_receivers sha256 net owners derived target recipient recipient legs
          (record { chain = solana_chain.key; address = a } ∷ [])
        ≡ ok tt
  unfolding check_receivers check_solana chain_by_key find_chain wire to_upper upper_unit text_eq
  check_one target recipient legs leg a l there =
      subst
        (λ (x : Result LaneError (Text × CctpRoute)).
          ((x >>= λ y.
          verify_solana_receiver sha256 net owners derived y.0 y.1 a >>= λ b. guard b not_announced)
            >> ok tt)
          ≡ ok tt)
        (sym l) (rw there refl)

  found_Sure :
      (target recipient : Text) (head : Result ChainError ℕ) (r : LaneReceiver)
      → found_receiver sha256 net owners derived decode curves accounts outside target recipient
          head
        ≡ ok (some r)
      → Sure target recipient (r ∷ [])
  unfolding found_receiver check_receivers check_solana chain_by_key find_chain wire to_upper
      upper_unit text_eq
  found_Sure target recipient head r h legs =
      let (from, _, h1) = >>=-eq_ok (lift from_chain head) _ h in
      let search = search_leg sha256 net owners derived decode curves accounts outside from in
      let (leg, l, h2) =
        >>=-eq_ok (solana_leg sha256 net owners derived target recipient recipient) search h1 in
      let discover =
        discover_solana_receiver sha256 net owners derived decode outside.rounds outside.round_count
          leg.0 leg.1 from in
      let (found, f, h3) =
        >>=-eq_ok discover
          (λ x. ok (placed sha256 net owners derived decode curves accounts outside leg.0 from x))
          h2 in
      elim (Option-cases found) [
        | inl none_found ↦ cc (rw none_found at h3)
        | inr (a, e) ↦
            let same = some-injective _ r (ok-injective _ (some r) (rw e at h3)) in
            let (program, _, announced) =
              discover_solana_receiver_sound sha256 net owners derived decode outside.rounds
                outside.round_count leg.0 leg.1 from a (rw e at f) in
            rw (← same)
              (check_one target recipient legs leg a l announced.in_transaction.in_log.says.1)
      ]

  none_Sure : (target recipient : Text) → Sure target recipient []
  unfolding check_receivers
  none_Sure target recipient legs = refl

  abbrev part_of : Bool → Result LaneError (Option LaneReceiver) → List LaneReceiver × List Warning
  part_of b r =
      if b
      then found_or_warning sha256 net owners derived decode curves accounts outside r
      else ([], [])

  part_of-Sure :
      (target recipient : Text) (b : Bool) (r : Result LaneError (Option LaneReceiver))
      → ((x : LaneReceiver) → r ≡ ok (some x) → Sure target recipient (x ∷ []))
      → Sure target recipient (part_of b r).0
  part_of-Sure target recipient false r h = none_Sure target recipient
  part_of-Sure target recipient true (err e) h = none_Sure target recipient
  part_of-Sure target recipient true (ok none) h = none_Sure target recipient
  part_of-Sure target recipient true (ok (some x)) h = h x refl

  pub solana_part-Sure :
      (target recipient : Text)
      → Sure target recipient
          (solana_part sha256 net owners derived decode curves accounts outside target recipient).0
  unfolding solana_part
  solana_part-Sure target recipient =
      let head = head_block (net solana_chain.key) solana_chain.key in
      part_of-Sure target recipient (can_discover solana_chain) _ (found_Sure target recipient head)
