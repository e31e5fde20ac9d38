-- ===== src/Stealth/Signer.antt =====
-- The account that a lane shows and the one that claims from it are the same, and neither is
-- derived from a config that is not complete.
use open_beanie.Base.{
  ℕ, ◌≤◌, ◌≡◌, refl, Bool, true, not, ◌&&◌, ◌||◌, ltb, if◌then◌else◌, List, Option, none, some,
  Text, length, arith, &&-true,
}
use open_beanie.Base.Result.{
  Result, ok, err, ℤ, pos, negsuc, ◌>>=◌, ◌>>◌, guard, >>=-eq_ok, guard-eq_ok,
}
use open_beanie.Chains.{Chain, chain_by_key}
use open_beanie.Chains.Config.{StealthConfig}
use open_beanie.Chains.Ready.{is_some, stealth_ready}
use open_beanie.Onchain.Accounts.{Accounts}
use open_beanie.Stealth.{
  StealthError, invalid_secret, unknown_chain, not_enabled, Secret, Derived, Curves,
  is_valid_config, config_or_pinned, or_throw, require_ready, check_index, derive_on, derive,
  derive_stealth_address, derive_stealth_signer,
}

-- What is done behind a chain of steps may be done behind each.
bind_map {ℓ} :
    {E : Type 0} {A : Type ℓ} {B C : Type 0} (m : Result E A) (f : A → Result E B)
    (h : B → Result E C) (g : A → Result E C)
    → ((a : A) → g a ≡ (f a >>= h))
    → (m >>= g) ≡ ((m >>= f) >>= h)
bind_map (ok a) f h g e = e a
bind_map (err _) f h g e = refl

abbrev pub public_part : Derived → Derived
public_part d = record d { secret = none }

or_throw-eq_ok :
    {A : Type 0} (e : StealthError) (o : Option A) (a : A) → or_throw e o ≡ ok a → o ≡ some a
or_throw-eq_ok e none a h = cc
or_throw-eq_ok e (some b) a h = cc

check_index-eq_ok : (i : ℤ) (n : ℕ) → check_index i ≡ ok n → i ≡ pos n
check_index-eq_ok (pos m) n h = cc
check_index-eq_ok (negsuc m) n h = cc

-- Where an account is derived.
pub record Enabled (key : Text) (given : Option StealthConfig) (chain : Chain)
    (config : StealthConfig) : Type 0 where
  pub is_chain : chain_by_key key ≡ some chain
  pub is_config : config ≡ config_or_pinned chain given
  pub is_valid : is_valid_config chain.kind config ≡ true
  pub is_ready : (is_some given || stealth_ready chain) ≡ true

require_ready-Enabled :
    (key : Text) (given : Option StealthConfig) (r : Chain × StealthConfig)
    → require_ready key given ≡ ok r
    → Enabled key given r.0 r.1
unfolding require_ready
require_ready-Enabled key given r h =
    let (chain, known, h1) = >>=-eq_ok (or_throw (unknown_chain key) (chain_by_key key)) _ h in
    let config = config_or_pinned chain given in
    let test = is_valid_config chain.kind config && (is_some given || stealth_ready chain) in
    let (_, passed, h2) =
      >>=-eq_ok (guard test (not_enabled chain.name)) (λ _. ok (chain, config)) h1 in
    let (valid, ready) =
      &&-true (is_valid_config chain.kind config) _ (guard-eq_ok test _ passed) in
    let same : (chain, config) ≡ r = cc in
    rw (← same) (record {
      is_chain = or_throw-eq_ok _ _ chain known;
      is_config = refl;
      is_valid = valid;
      is_ready = ready;
    })

module _ (sha256 : List ℕ → List ℕ) (curves : Curves) (accounts : Text → Accounts) where
  -- For a secret, a lane, an index, a chain and a config, what is derived for display is what is
  -- derived for a claim without its private part, and fails with the same error.
  pub derive_stealth_address-signer :
      (secret : List ℕ) (lane_id : Text) (index : ℤ) (chain : Text) (config : Option StealthConfig)
      → derive_stealth_address sha256 curves accounts secret lane_id index chain config ≡ (
          derive_stealth_signer sha256 curves accounts secret lane_id index chain config >>= λ d.
          ok (public_part d))
  unfolding derive_stealth_address derive_stealth_signer derive
  derive_stealth_address-signer secret lane_id index chain config =
      bind_map (guard (not (ltb (length secret) 32)) invalid_secret >> check_index index) _ _ _ λ n.
        bind_map (require_ready chain config) _ _ _ λ ready.
          bind_map (derive_on sha256 curves accounts ready.0.kind secret lane_id n ready.0 ready.1)
            _ _ _ λ r. refl

  -- An account is derived only from a secret of 32 bytes or more, for an index that is not
  -- negative, on a chain that is known, and with the config that is given, or else the pinned one
  -- of a chain that is ready, if that config is valid for the kind of chain; the private part is
  -- given only where it is asked for.
  pub derive_fails_closed :
      (secret : List ℕ) (lane_id : Text) (index : ℤ) (key : Text) (private : Bool)
      (given : Option StealthConfig) (d : Derived)
      → derive sha256 curves accounts secret lane_id index key private given ≡ ok d
      → (32 ≤ length secret)
        × (n : ℕ) × (index ≡ pos n)
        × (chain : Chain) × (config : StealthConfig) × Enabled key given chain config
        × (s : Secret) × (derive_on sha256 curves accounts chain.kind secret lane_id n chain config
            ≡ ok (d.account, s))
        × (d.secret ≡ (if private then some s else none))
  unfolding derive
  derive_fails_closed secret lane_id index key private given d h =
      let (n, start, h2) =
        >>=-eq_ok (guard (not (ltb (length secret) 32)) invalid_secret >> check_index index) _ h in
      let (_, long, is_n) =
        >>=-eq_ok (guard (not (ltb (length secret) 32)) invalid_secret) (λ _. check_index index)
          start in
      let (ready, enabled, h3) = >>=-eq_ok (require_ready key given) _ h2 in
      let (r, made, h4) =
        >>=-eq_ok (derive_on sha256 curves accounts ready.0.kind secret lane_id n ready.0 ready.1) _
          h3 in
      let enough = guard-eq_ok (not (ltb (length secret) 32)) invalid_secret long in
      let same : ◌≡◌ {A = Derived}
          (record { account = r.0; secret = if private then some r.1 else none }) d =
        cc in
      (
        ground (arith, enough),
        n,
        check_index-eq_ok index n is_n,
        ready.0,
        ready.1,
        require_ready-Enabled key given ready enabled,
        r.1,
        rw (← same) made,
        rw (← same) refl,
      )
