-- ===== src/Lane/Passkey.antt =====
-- lane.js, in `verifyLane`: the account that the passkey derives for a private lane.
use open_beanie.Base.{ℕ, ◌≡◌, List, [], ◌∷◌, Option, none, some, Text}
use open_beanie.Base.Result.{Result, ok, pos, ◌>>=◌, >>=-eq_ok, ok-injective}
use open_beanie.Chains.{wire}
use open_beanie.Onchain.Accounts.{Accounts}
use open_beanie.Stealth.{Curves, Derived, lane_salt, derive_stealth_address}
use open_beanie.Lane.{LaneError, from_stealth, lift, StoredLane}
use open_beanie.Lane.Owned.{lift-eq_ok}

-- `lane.prfCredentialId || undefined`
abbrev pub credential_of : Option Text → Option Text
credential_of none = none
credential_of (some []) = none
credential_of (some (c ∷ t)) = some (c ∷ t)

-- `prf` is evaluatePrf, what the browser's passkey makes of a salt.
module _ (sha256 : List ℕ → List ℕ) (curves : Curves) (accounts : Text → Accounts)
    (prf : List ℕ → Option Text → Result LaneError (List ℕ)) where
  unfoldable pub passkey_account : StoredLane → Result LaneError Text
  unfolding lane_salt derive_stealth_address
  passkey_account lane =
      prf (lane_salt sha256 lane.id) (credential_of lane.prf_credential_id) >>= λ secret.
      lift from_stealth (
        derive_stealth_address sha256 curves accounts secret lane.id (pos lane.index)
          (wire lane.target_chain) lane.stealth_config)
      >>= λ d. ok d.account.address

  -- The account is derived from what the passkey makes of the salt of the lane, with the index, the
  -- chain and the settings of the lane.
  pub record Derives (lane : StoredLane) (a : Text) : Type 0 where
    pub secret : List ℕ
    pub derivation : Derived
    pub is_secret :
        prf (lane_salt sha256 lane.id) (credential_of lane.prf_credential_id) ≡ ok secret
    pub is_derived :
        derive_stealth_address sha256 curves accounts secret lane.id
          (pos lane.index)
          (wire lane.target_chain)
          lane.stealth_config
        ≡ ok derivation
    pub is_account : derivation.account.address ≡ a

  pub passkey_account-Derives :
      (lane : StoredLane) (a : Text) → passkey_account lane ≡ ok a → Derives lane a
  unfolding passkey_account
  passkey_account-Derives lane a h =
      let from = λ (secret : List ℕ).
        derive_stealth_address sha256 curves accounts secret lane.id (pos lane.index)
          (wire lane.target_chain) lane.stealth_config in
      let (secret, s, h1) =
        >>=-eq_ok (prf (lane_salt sha256 lane.id) (credential_of lane.prf_credential_id))
          (λ x. lift from_stealth (from x) >>= λ d. ok d.account.address) h in
      let (d, e, h2) = >>=-eq_ok (lift from_stealth (from secret)) (λ d. ok d.account.address) h1 in
      record {
        secret = secret;
        derivation = d;
        is_secret = s;
        is_derived = lift-eq_ok from_stealth (from secret) d e;
        is_account = ok-injective d.account.address a h2;
      }
