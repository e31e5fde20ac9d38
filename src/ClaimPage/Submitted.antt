-- ===== src/ClaimPage/Submitted.antt =====
-- What a claim that was submitted is about.
use open_beanie.Base.{
  ℕ, ◌<◌, ◌≡◌, refl, sym, ap, ◌∙◌, true, Option, none, some, Text, text_eq, text_eq→eq, arith,
}
use open_beanie.Base.Result.{Result, ok, err, pos, guard, >>=-eq_ok, guard-eq_ok, ok-injective}
use open_beanie.Chains.{chain_by_key}
use open_beanie.Chains.Config.{StealthConfig}
use open_beanie.Identity.{canonical_address}
use open_beanie.Stealth.{lane_salt, derive_stealth_signer}
use open_beanie.Claim.{Signer, Built}
use open_beanie.Lane.Passkey.{credential_of}
use open_beanie.Lane.Resolve.{resolve_stealth_config}
use open_beanie.ClaimPage.{
  PageError, select_first, invalid_destination, nothing_to_claim, not_supported, wrong_passkey,
  incomplete_claim, from_lane, from_stealth, from_claim, Row, Job, Services, lift, or_throw,
  has_balance, or_zero, start_claim, signer_for, is_complete, claim_binding, submission_of, Done,
  build_claim, derive_signer, run_claim,
}

lift-eq_ok {ℓ} :
    {E : Type 0} {A : Type ℓ} (f : E → PageError) (m : Result E A) (a : A)
    → lift f m ≡ ok a
    → m ≡ ok a
lift-eq_ok f (ok b) a h = ap (λ x. ok x) (ok-injective b a h)
lift-eq_ok f (err e) a h = cc

or_throw-eq_ok {ℓ} :
    {A : Type ℓ} (e : PageError) (o : Option A) (a : A) → or_throw e o ≡ ok a → o ≡ some a
or_throw-eq_ok e (some b) a h = ap (λ x. some x) (ok-injective b a h)
or_throw-eq_ok e none a h = cc

has_balance-or_zero :
    (o : Option ℕ) → has_balance o ≡ true → (o ≡ some (or_zero o)) × (0 < or_zero o)
has_balance-or_zero none h = cc
has_balance-or_zero (some n) h = (refl, ground arith)

-- A job that is started is about the row that is selected.
pub record Started (selected : Option Row) (input : Text) (job : Job) : Type 0 where
  pub row : Row
  pub is_selected : selected ≡ some row
  pub is_lane : job.lane ≡ row.lane
  pub is_balance : row.balance ≡ some job.balance
  pub not_empty : 0 < job.balance
  pub is_destination : canonical_address job.lane.target_chain input ≡ some job.destination
  pub is_chain : chain_by_key job.lane.target_chain ≡ some job.chain

pub start_claim-Started :
    (selected : Option Row) (input : Text) (job : Job)
    → start_claim selected input ≡ ok job
    → Started selected input job
unfolding start_claim
start_claim-Started selected input job h =
    let (row, r, h1) = >>=-eq_ok (or_throw select_first selected) _ h in
    let (destination, d, h2) =
      >>=-eq_ok
        (or_throw (invalid_destination row.lane.target_chain)
          (canonical_address row.lane.target_chain input))
        _ h1 in
    let (_, g, h3) = >>=-eq_ok (guard (has_balance row.balance) nothing_to_claim) _ h2 in
    let (chain, c, h4) =
      >>=-eq_ok
        (or_throw (not_supported row.lane.target_chain) (chain_by_key row.lane.target_chain)) _
        h3 in
    let (there, positive) = has_balance-or_zero row.balance (guard-eq_ok _ _ g) in
    rw (← ok-injective _ job h4) (record {
      row = row;
      is_selected = or_throw-eq_ok _ selected row r;
      is_lane = refl;
      is_balance = there;
      not_empty = positive;
      is_destination = or_throw-eq_ok _ _ destination d;
      is_chain = or_throw-eq_ok _ _ chain c;
    })

-- A claim that was submitted for a job: built for its destination and its whole balance by the
-- signer of the account of the lane, with a token for the hash that was built.
pub record Sound (services : Services) (job : Job) (done : Done) : Type 0 where
  pub config : StealthConfig
  pub signer : Signer
  pub built : Built
  pub token : Text
  pub is_config :
      resolve_stealth_config job.chain services.published job.lane.stealth_config ≡ ok config
  pub is_own : signer.address ≡ job.lane.target_recipient
  pub is_built :
      build_claim services job.chain.kind signer job.destination job.balance config ≡ ok built
  pub is_token : services.token (claim_binding job.lane.target_chain built) ≡ ok token
  pub is_submitted : done.submission ≡ submission_of job.lane.target_chain built token

derive_signer-own :
    (services : Services) (job : Job) (config : StealthConfig) (signer : Signer)
    → derive_signer services job config ≡ ok signer
    → signer.address ≡ job.lane.target_recipient
unfolding derive_signer
derive_signer-own services job config signer h =
    let (secret, _, h1) =
      >>=-eq_ok
        (services.prf (lane_salt services.sha256 job.lane.id)
          (credential_of job.lane.prf_credential_id))
        _ h in
    let (d, _, h2) =
      >>=-eq_ok
        (lift from_stealth (
          derive_stealth_signer services.sha256 services.curves services.accounts secret job.lane.id
            (pos job.lane.index) job.lane.target_chain (some config)))
        _ h1 in
    let (s, _, h3) = >>=-eq_ok (signer_for d) _ h2 in
    let (_, g, h4) =
      >>=-eq_ok (guard (text_eq s.address job.lane.target_recipient) wrong_passkey) _ h3 in
    let same = ok-injective s signer h4 in
    sym (ap (λ (x : Signer). x.address) same) ∙ text_eq→eq _ _ (guard-eq_ok _ _ g)

pub run_claim-Sound :
    (services : Services) (job : Job) (done : Done)
    → run_claim services job ≡ ok done
    → Sound services job done
unfolding run_claim
run_claim-Sound services job done h =
    let (config, c, h1) =
      >>=-eq_ok
        (lift from_lane
          (resolve_stealth_config job.chain services.published job.lane.stealth_config))
        _ h in
    let (signer, s, h2) = >>=-eq_ok (derive_signer services job config) _ h1 in
    let (built, b, h3) =
      >>=-eq_ok
        (lift from_claim
          (build_claim services job.chain.kind signer job.destination job.balance config))
        _ h2 in
    let (_, _, h4) = >>=-eq_ok (guard (is_complete built) incomplete_claim) _ h3 in
    let (token, t, h5) =
      >>=-eq_ok (services.token (claim_binding job.lane.target_chain built)) _ h4 in
    let (answer, _, h6) =
      >>=-eq_ok (services.submit (submission_of job.lane.target_chain built token)) _ h5 in
    record {
      config = config;
      signer = signer;
      built = built;
      token = token;
      is_config = lift-eq_ok from_lane _ config c;
      is_own = derive_signer-own services job config signer s;
      is_built = lift-eq_ok from_claim _ built b;
      is_token = t;
      is_submitted = sym (ap (λ (x : Done). x.submission) (ok-injective _ done h6));
    }
