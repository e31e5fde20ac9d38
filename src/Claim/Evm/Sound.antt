-- ===== src/Claim/Evm/Sound.antt =====
-- What a claim on an EVM chain authorizes.
use open_beanie.Base.{
  ℕ, ◌+◌, ◌-◌, ◌*◌, ◌≤◌, ◌<◌, ◌≡◌, refl, ap, ◌∙◌, true, false, not, ◌&&◌, ◌==◌, ltb, leb, List,
  some, Text, text_eq, codes, arith,
}
use open_beanie.Base.Result.{ok, ◌>>◌, guard, >>=-eq_ok, guard-eq_ok, ok-injective}
use open_beanie.Base.Strings.{to_lower, of_string, of_string-to_string}
use open_beanie.Chains.{has_text}
use open_beanie.Chains.Config.{StealthConfig}
use open_beanie.Chains.Ready.{eip712_ready}
use open_beanie.Identity.{with_0x, to_hex, canonical_address}
use open_beanie.Stealth.{has_chain_id}
use open_beanie.Claim.{
  invalid_destination, own_account, nothing_to_claim, incomplete_config, invalid_window,
  expiry_outside, or_fail, Signer, Auth3009, Built, or_fail-eq_ok,
}
use open_beanie.Claim.Evm.{
  zero_evm, auth_window, is_window, assert_evm_claim, domain_of, auth_of, Domain,
  TransferAuthorization, build_evm_claim,
}

-- The destination of an EVM claim that is accepted.
record Accepted (signer : Signer) (destination : Text) (balance : ℕ) (config : StealthConfig)
    (to : Text) : Type 0 where
  is_to : canonical_address (codes "BASE") destination ≡ some to
  is_set : text_eq (to_lower to) zero_evm ≡ false
  is_other : text_eq (to_lower to) (to_lower signer.address) ≡ false
  not_empty : 0 < balance

checks_pass :
    (signer : Signer) (balance : ℕ) (config : StealthConfig) (t : Text) {u : Unit {0}}
    → (guard (not (text_eq (to_lower t) zero_evm)) invalid_destination
        >> guard (not (text_eq (to_lower t) (to_lower signer.address))) own_account
        >> guard (not (balance == 0)) nothing_to_claim
        >> guard
            (has_text config.usdc && has_chain_id config.chain_id && eip712_ready config.eip712)
            incomplete_config
        >> guard (is_window (auth_window config)) invalid_window)
      ≡ ok u
    → (text_eq (to_lower t) zero_evm ≡ false)
      × (text_eq (to_lower t) (to_lower signer.address) ≡ false)
      × (0 < balance)
checks_pass signer balance config t h = ground arith

assert_evm_claim-Accepted :
    (signer : Signer) (destination : Text) (balance : ℕ) (config : StealthConfig) (to : Text)
    → assert_evm_claim signer destination balance config ≡ ok to
    → Accepted signer destination balance config to
unfolding assert_evm_claim
assert_evm_claim-Accepted signer destination balance config to h =
    let (t, p, h1) =
      >>=-eq_ok (or_fail invalid_destination (canonical_address (codes "BASE") destination)) _ h in
    let guards =
      guard (not (text_eq (to_lower t) zero_evm)) invalid_destination
      >> guard (not (text_eq (to_lower t) (to_lower signer.address))) own_account
      >> guard (not (balance == 0)) nothing_to_claim
      >> guard (has_text config.usdc && has_chain_id config.chain_id && eip712_ready config.eip712)
          incomplete_config
      >> guard (is_window (auth_window config)) invalid_window in
    let (_, passed, h2) = >>=-eq_ok guards (λ _. ok t) h1 in
    let same = ok-injective t to h2 in
    let (set, other, some_left) = checks_pass signer balance config t passed in
    record {
      is_to = or_fail-eq_ok invalid_destination _ t p ∙ ap (λ (x : Text). some x) same;
      is_set = rw same at set;
      is_other = rw same at other;
      not_empty = some_left;
    }

fits_le :
    (now w : ℕ) → (ltb 120 (now + 15 * 60 - now) && leb (now + 15 * 60 - now) w) ≡ true → 900 ≤ w
fits_le now w h = ground arith

module _ (typed_hash : Domain → TransferAuthorization → Text)
    (sign : Text → Text → Text × Text × ℕ) where
  -- What is authorized for a claim, and what is signed.
  pub record Authorizes (now : ℕ) (signer : Signer) (destination : Text) (balance : ℕ)
      (config : StealthConfig) (b : Built) : Type 0 where
    pub auth : Auth3009
    pub is_auth : b.auth3009 ≡ some auth
    pub is_to : canonical_address (codes "BASE") destination ≡ some auth.to
    pub is_set : text_eq (to_lower auth.to) zero_evm ≡ false
    pub is_other : text_eq (to_lower auth.to) (to_lower signer.address) ≡ false
    pub is_value : of_string 10 auth.value ≡ balance
    pub not_empty : 0 < balance
    pub expires : of_string 10 auth.valid_before ≡ now + 900
    pub within : 900 ≤ auth_window config
    pub is_hash :
        b.tx_hash
        ≡ typed_hash (domain_of config) (record {
          from = signer.address;
          to = auth.to;
          value = auth.value;
          valid_after = auth.valid_after;
          valid_before = auth.valid_before;
          nonce = auth.nonce;
        })
    pub is_account : b.derived_address ≡ signer.address

  -- A claim on an EVM chain is built only for a canonical destination that is neither the zero
  -- address nor the account of the lane, and for a balance that is not 0; what is hashed and what
  -- is submitted name the same recipient, value, expiry and nonce: the destination, the whole
  -- balance, and the time 900 seconds from now, which the window of the config allows.
  pub build_evm_claim_sound :
      (now : ℕ) (random : List ℕ) (signer : Signer) (destination : Text) (balance : ℕ)
      (config : StealthConfig) (b : Built)
      → build_evm_claim typed_hash sign now random signer destination balance config ≡ ok b
      → Authorizes now signer destination balance config b
  unfolding build_evm_claim
  build_evm_claim_sound now random signer destination balance config b h =
      let (to, t, h1) = >>=-eq_ok (assert_evm_claim signer destination balance config) _ h in
      let accepted = assert_evm_claim-Accepted signer destination balance config to t in
      let inside =
        ltb 120 (now + 15 * 60 - now) && leb (now + 15 * 60 - now) (auth_window config) in
      let (_, g, h2) = >>=-eq_ok (guard inside expiry_outside) _ h1 in
      let same = ok-injective _ b h2 in
      let fits = guard-eq_ok inside expiry_outside g in
      let small = fits_le now (auth_window config) fits in
      rw (← same) (record {
        auth = auth_of signer to balance (now + 15 * 60) (with_0x (to_hex random));
        is_auth = refl;
        is_to = accepted.is_to;
        is_set = accepted.is_set;
        is_other = accepted.is_other;
        is_value = of_string-to_string 10 balance (omega arith) (omega arith);
        not_empty = accepted.not_empty;
        expires = of_string-to_string 10 (now + 15 * 60) (omega arith) (omega arith);
        within = small;
        is_hash = refl;
        is_account = refl;
      })
