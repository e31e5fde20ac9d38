-- ===== src/Claim/Starknet/Sound.antt =====
-- What a claim on Starknet moves, and what it may cost.
use open_beanie.Base.{
  ℕ, ◌+◌, ◌*◌, ◌^◌, ◌≤◌, ◌<◌, ◌≡◌, ap, ◌∙◌, sym, not, ◌&&◌, ◌==◌, leb, List, [], ◌∷◌, some, Text,
  codes, drop, arith, Bool-cases, inl, inr,
}
use open_beanie.Base.Bits.{low_bits, shr}
use open_beanie.Base.Result.{ok, guard, >>=-eq_ok, guard-eq_ok, ok-injective}
use open_beanie.Base.Strings.{to_string, of_string, of_string-to_string}
use open_beanie.Chains.{Bound, ResourceBounds}
use open_beanie.Chains.Config.{StealthConfig}
use open_beanie.Identity.{stark_prime, with_0x}
use open_beanie.Onchain.{malformed, big_int_of}
use open_beanie.Claim.{
  from_chain, bounds_missing, bound_not_positive, above_fee_cap, lift, or_fail, lift-eq_ok,
  or_fail-eq_ok,
}
use open_beanie.Claim.Starknet.{felt_text, bound_cost, checked_starknet_bounds, transfer_data}

-- The most that a bound may cost.
pub record Costs (b : Bound) (n : ℕ) : Type 0 where
  pub amount : ℕ
  pub price : ℕ
  pub is_amount : big_int_of b.max_amount ≡ ok amount
  pub is_price : big_int_of b.max_price_per_unit ≡ ok price
  pub positive : (0 < amount) × (0 < price)
  pub is_cost : n ≡ amount * price

bound_cost-Costs : (name : Text) (b : Bound) (n : ℕ) → bound_cost name b ≡ ok n → Costs b n
unfolding bound_cost
bound_cost-Costs name b n h =
    let (amount, a, h1) = >>=-eq_ok (lift from_chain (big_int_of b.max_amount)) _ h in
    let (price, p, h2) = >>=-eq_ok (lift from_chain (big_int_of b.max_price_per_unit)) _ h1 in
    let (_, g, h3) =
      >>=-eq_ok (guard (not (amount == 0) && not (price == 0)) (bound_not_positive name))
        (λ _. ok (amount * price)) h2 in
    let test = guard-eq_ok (not (amount == 0) && not (price == 0)) (bound_not_positive name) g in
    record {
      amount = amount;
      price = price;
      is_amount = lift-eq_ok from_chain _ amount a;
      is_price = lift-eq_ok from_chain _ price p;
      positive = (ground (arith, test), ground (arith, test));
      is_cost = ground (arith, h3);
    }

-- Bounds that pass the check are those of the config, have positive amounts and prices, and cost
-- together at most the cap of the config.
pub checked_starknet_bounds_capped :
    (config : StealthConfig) (r : ResourceBounds)
    → checked_starknet_bounds config ≡ ok r
    → (config.resource_bounds ≡ some r)
      × (fee : Text) × (config.max_fee_fri ≡ some fee)
      × (cap : ℕ) × (big_int_of fee ≡ ok cap)
      × (l1 l2 l1_data : ℕ) × Costs r.l1_gas l1
      × Costs r.l2_gas l2
      × Costs r.l1_data_gas l1_data
      × (l1 + l2 + l1_data ≤ cap)
unfolding checked_starknet_bounds
checked_starknet_bounds_capped config r h =
    let (bounds, b, h1) = >>=-eq_ok (or_fail bounds_missing config.resource_bounds) _ h in
    let (l1, c1, h2) = >>=-eq_ok (bound_cost (codes "l1_gas") bounds.l1_gas) _ h1 in
    let (l2, c2, h3) = >>=-eq_ok (bound_cost (codes "l2_gas") bounds.l2_gas) _ h2 in
    let (l3, c3, h4) = >>=-eq_ok (bound_cost (codes "l1_data_gas") bounds.l1_data_gas) _ h3 in
    let (fee, f, h5) = >>=-eq_ok (or_fail (from_chain (malformed [])) config.max_fee_fri) _ h4 in
    let (cap, n, h6) = >>=-eq_ok (lift from_chain (big_int_of fee)) _ h5 in
    let (_, g, h7) = >>=-eq_ok (guard (leb (l1 + l2 + l3) cap) above_fee_cap) (λ _. ok bounds) h6 in
    let same : bounds ≡ r = cc in
    let test = guard-eq_ok (leb (l1 + l2 + l3) cap) above_fee_cap g in
    rw (← same) (
      or_fail-eq_ok bounds_missing _ bounds b,
      fee,
      or_fail-eq_ok (from_chain (malformed [])) _ fee f,
      cap,
      lift-eq_ok from_chain _ cap n,
      l1,
      l2,
      l3,
      bound_cost-Costs (codes "l1_gas") bounds.l1_gas l1 c1,
      bound_cost-Costs (codes "l2_gas") bounds.l2_gas l2 c2,
      bound_cost-Costs (codes "l1_data_gas") bounds.l1_data_gas l3 c3,
      ground (arith, test),
    )

felt_text-eq_ok :
    (n : ℕ) (t : Text) → felt_text n ≡ ok t → (of_string 16 (drop 2 t) ≡ n) × (n < stark_prime)
unfolding felt_text
felt_text-eq_ok n t h = elim (Bool-cases (leb stark_prime n)) [
  | inl large ↦ cc (rw (felt_text, large) at h)
  | inr small ↦
      let same = ok-injective (with_0x (to_string 16 n)) t (rw (felt_text, small) at h) in
      (
        ap (λ (x : Text). of_string 16 (drop 2 x)) (sym same)
            ∙ of_string-to_string 16 n (omega arith) (omega arith),
        ground (arith, small),
      )
]

-- The transfer of a balance on Starknet names the recipient and two felts that stand for the
-- balance, the lower below 2^128.
pub transfer_data_splits :
    (to : Text) (balance : ℕ) (data_felts : List Text)
    → transfer_data to balance ≡ ok data_felts
    → (low high : Text) × (data_felts ≡ to ∷ low ∷ high ∷ [])
      × (of_string 16 (drop 2 low) < 2 ^ 128)
      × (of_string 16 (drop 2 high) < stark_prime)
      × (balance ≡ of_string 16 (drop 2 low) + of_string 16 (drop 2 high) * 2 ^ 128)
unfolding transfer_data
transfer_data_splits to balance data_felts h =
    let (low, l, h1) = >>=-eq_ok (felt_text (low_bits balance 128)) _ h in
    let (high, u, h2) = >>=-eq_ok (felt_text (shr balance 128)) _ h1 in
    let (is_low, _) = felt_text-eq_ok (low_bits balance 128) low l in
    let (is_high, fits) = felt_text-eq_ok (shr balance 128) high u in
    let same = ok-injective (to ∷ low ∷ high ∷ []) data_felts h2 in
    (
      low,
      high,
      sym same,
      rw is_low (omega arith),
      rw is_high fits,
      rw (is_low, is_high) (omega arith),
    )
