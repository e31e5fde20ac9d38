-- ===== src/ClaimPage.antt =====
-- stealth.js: the page of private lanes, with balances, the claim and its polls. The passkey, the
-- API, the clock, random numbers and what the libraries sign and hash are the record Services.
pub mod Submitted
pub mod Steps
use open_beanie.Base.{
  ℕ, ◌-◌, Bool, true, false, not, ◌&&◌, ltb, if◌then◌else◌, List, [], ◌∷◌, ◌++◌, map, Option, none,
  some, Text, text_eq, codes,
}
use open_beanie.Base.Result.{Result, ok, err, pos, ◌>>=◌, ◌>>◌, guard}
use open_beanie.Chains.{Kind, evm, starknet, solana, Chain, chain_by_key, api_chain, has_text}
use open_beanie.Chains.Config.{StealthConfig}
use open_beanie.Identity.{canonical_address}
use open_beanie.Onchain.{ChainError}
use open_beanie.Onchain.Accounts.{Accounts, token_balance}
use open_beanie.Stealth.{StealthError, Curves, Derived, lane_salt, derive_stealth_signer}
use open_beanie.Claim.{
  ClaimError, Signer, signer_of, ClientSig, Call, Auth3009, StarknetPart, Built,
}
use open_beanie.Claim.Evm.{Domain, TransferAuthorization, build_evm_claim}
use open_beanie.Claim.Solana.{build_solana_claim}
use open_beanie.Claim.Starknet.{StarknetLib, build_starknet_claim}
use open_beanie.Lane.{LaneError}
use open_beanie.Lane.Passkey.{credential_of}
use open_beanie.Lane.Record.{LaneRecord}
use open_beanie.Lane.Resolve.{Published, resolve_stealth_config}

pub data PageError : Type 0 where
  select_first : PageError
  invalid_destination : Text → PageError
  nothing_to_claim : PageError
  not_supported : Text → PageError
  wrong_passkey : PageError
  incomplete_claim : PageError
  rejected : PageError
  from_lane : LaneError → PageError
  from_stealth : StealthError → PageError
  from_claim : ClaimError → PageError

-- `{ lane, balance }`; a balance that could not be read is `none`.
pub record Row : Type 0 where
  pub lane : LaneRecord
  pub balance : Option ℕ

-- What a claim is started with.
pub record Job : Type 0 where
  pub lane : LaneRecord
  pub chain : Chain
  pub destination : Text
  pub balance : ℕ

-- What `api.submitStealthClaim` is given.
pub record Submission : Type 0 where
  pub chain : Text
  pub tx_hash : Text
  pub derived_address : Text
  pub client_sig : ClientSig
  pub verified_token : Text
  pub calls : List Call
  pub auth3009 : Option Auth3009
  pub starknet : Option StarknetPart
  pub message_bytes : Option Text

-- The passkey, the API and the libraries: `prf` evaluates a salt with a credential, `token`
-- confirms a binding, `submit` gives the hash of a transaction or nothing.
pub record Services : Type 0 where
  pub sha256 : List ℕ → List ℕ
  pub accounts : Text → Accounts
  pub published : Result LaneError (List Published)
  pub prf : List ℕ → Option Text → Result PageError (List ℕ)
  pub curves : Curves
  pub typed_hash : Domain → TransferAuthorization → Text
  pub sign_hash : Text → Text → Text × Text × ℕ
  pub sign_bytes : List ℕ → Text → List ℕ
  pub starknet : StarknetLib
  pub seconds : ℕ
  pub random : List ℕ
  pub token : Text → Result PageError Text
  pub submit : Submission → Result PageError (Option Text)

abbrev pub lift {ℓ} : {E : Type 0} {A : Type ℓ} → (E → PageError) → Result E A → Result PageError A
lift f (ok a) = ok a
lift f (err e) = err (f e)

abbrev pub or_throw {ℓ} : {A : Type ℓ} → PageError → Option A → Result PageError A
or_throw e none = err e
or_throw e (some a) = ok a

-- `!(balance > 0n)`
abbrev pub has_balance : Option ℕ → Bool
has_balance none = false
has_balance (some n) = ltb 0 n

abbrev pub or_zero : Option ℕ → ℕ
or_zero none = 0
or_zero (some n) = n

-- `claim` up to its first wait: the row that is selected and the text of the input.
unfoldable pub start_claim : Option Row → Text → Result PageError Job
unfolding canonical_address chain_by_key
start_claim selected input = or_throw select_first selected >>= λ row.
    or_throw (invalid_destination row.lane.target_chain)
      (canonical_address row.lane.target_chain input)
    >>= λ destination. guard (has_balance row.balance) nothing_to_claim >>= λ _.
        or_throw (not_supported row.lane.target_chain) (chain_by_key row.lane.target_chain)
        >>= λ chain. ok (record {
          lane = row.lane;
          chain = chain;
          destination = destination;
          balance = or_zero row.balance;
        })

-- A signer that is derived for a claim has its private part.
abbrev pub signer_for : Derived → Result PageError Signer
signer_for d = elim d.secret [ none ↦ err incomplete_claim | some s ↦ ok (signer_of d.account s) ]

-- `!built?.txHash || !built?.derivedAddress`
abbrev pub is_complete : Built → Bool
is_complete b = has_text (some b.tx_hash) && has_text (some b.derived_address)

abbrev pub claim_binding : Text → Built → Text
unfolding api_chain
claim_binding chain b =
    codes "claim:" ++ (api_chain chain ++ (b':' ∷ (b.derived_address ++ (b':' ∷ b.tx_hash))))

abbrev pub submission_of : Text → Built → Text → Submission
submission_of chain b token = record {
  chain = chain;
  tx_hash = b.tx_hash;
  derived_address = b.derived_address;
  client_sig = b.client_sig;
  verified_token = token;
  calls = b.calls;
  auth3009 = b.auth3009;
  starknet = b.starknet;
  message_bytes = b.message_bytes;
}

-- `res?.transaction_hash || built.txHash`
abbrev pub reference_of : Option Text → Text → Text
reference_of none hash = hash
reference_of (some []) hash = hash
reference_of (some (c ∷ t)) hash = c ∷ t

-- The claim that was submitted, and the reference that is shown.
pub record Done : Type 0 where
  pub submission : Submission
  pub reference : Text

module _ (services : Services) where
  -- `CLAIM_BUILDERS[chain?.kind]`
  unfoldable pub build_claim : Kind → Signer → Text → ℕ → StealthConfig → Result ClaimError Built
  unfolding build_evm_claim build_starknet_claim build_solana_claim
  build_claim evm =
      build_evm_claim services.typed_hash services.sign_hash services.seconds services.random
  build_claim starknet = build_starknet_claim services.sha256 services.accounts services.starknet
  build_claim solana = build_solana_claim services.sha256 services.accounts services.sign_bytes

  abbrev pub derive_signer : Job → StealthConfig → Result PageError Signer
  unfolding lane_salt derive_stealth_signer text_eq
  derive_signer job config =
      services.prf (lane_salt services.sha256 job.lane.id)
        (credential_of job.lane.prf_credential_id)
      >>= λ secret.
          lift from_stealth (
            derive_stealth_signer services.sha256 services.curves services.accounts secret
              job.lane.id (pos job.lane.index) job.lane.target_chain (some config))
          >>= λ d. signer_for d >>= λ signer.
              guard (text_eq signer.address job.lane.target_recipient) wrong_passkey >> ok signer

  abbrev pub submit_built : Job → Built → Result PageError Done
  unfolding api_chain
  submit_built job b = guard (is_complete b) incomplete_claim >>= λ _.
      services.token (claim_binding job.lane.target_chain b) >>= λ token.
      let submission = submission_of job.lane.target_chain b token in
      services.submit submission >>= λ answer.
      ok (record { submission = submission; reference = reference_of answer b.tx_hash })

  -- The rest of `claim`, in its `try`.
  unfoldable pub run_claim : Job → Result PageError Done
  unfolding resolve_stealth_config build_claim lane_salt derive_stealth_signer text_eq api_chain
  run_claim job =
      lift from_lane (resolve_stealth_config job.chain services.published job.lane.stealth_config)
      >>= λ config. derive_signer job config >>= λ signer.
          lift from_claim (build_claim job.chain.kind signer job.destination job.balance config)
          >>= λ built. submit_built job built

-- The polls for a claim that is queued, with the tries that are left.
pub record Poll : Type 0 where
  pub lane : LaneRecord
  pub previous : ℕ
  pub left : ℕ

-- The page: what is shown, what is selected, the lock, the claims and the polls that are waiting
-- for an answer, and the claims that were submitted.
pub record Page : Type 0 where
  pub rows : List Row
  pub selected : Option Row
  pub busy : Bool
  pub in_flight : List Job
  pub polls : List Poll
  pub submitted : List Done

abbrev pub opened : Page
opened = record {
  rows = [];
  selected = none;
  busy = false;
  in_flight = [];
  polls = [];
  submitted = [];
}

-- `refresh`: the lanes of the store with their balances.
abbrev pub balance_of : Result ChainError ℕ → Option ℕ
balance_of (ok n) = some n
balance_of (err _) = none

abbrev pub row_of : (List ℕ → List ℕ) → (Text → Accounts) → LaneRecord → Row
unfolding token_balance
row_of sha256 accounts lane = record {
  lane = lane;
  balance = balance_of (token_balance sha256 accounts lane.target_chain lane.target_recipient);
}

unfoldable pub refresh : (List ℕ → List ℕ) → (Text → Accounts) → List LaneRecord → Page → Page
unfolding token_balance
refresh sha256 accounts lanes p = record p { rows = map (row_of sha256 accounts) lanes }

abbrev pub select : Row → Page → Page
select row p = record p { selected = some row }

-- A press of the button, up to the first wait.
abbrev pub begun : Result PageError Job → Page → Page
begun (err _) p = p
begun (ok job) p = record p { busy = true; in_flight = job ∷ p.in_flight }

unfoldable pub begin_claim : Text → Page → Page
unfolding start_claim
begin_claim input p = if p.busy then p else begun (start_claim p.selected input) p

-- The end of a claim, whose answer came while the `others` wait.
abbrev pub ended : Job → Result PageError Done → Page → Page
ended job (err _) p = p
ended job (ok done) p = record p {
  polls = record { lane = job.lane; previous = job.balance; left = 5 } ∷ p.polls;
  submitted = done ∷ p.submitted;
}

unfoldable pub end_claim : Services → Job → List Job → Page → Page
unfolding run_claim
end_claim services job others p =
    ended job (run_claim services job) (record p { busy = false; in_flight = others })

-- One try of `pollClaimBalance`: the rows and the selected row of the lane have the new balance.
abbrev pub with_balance : LaneRecord → ℕ → Row → Row
unfolding text_eq
with_balance lane n row =
    if text_eq row.lane.id lane.id then record row { balance = some n } else row

abbrev pub reselect : LaneRecord → ℕ → Option Row → Option Row
unfolding text_eq
reselect lane n none = none
reselect lane n (some row) =
    if text_eq row.lane.id lane.id
    then some (record { lane = lane; balance = some n })
    else some row

abbrev pub again : Poll → List Poll
again poll = if ltb 1 poll.left then record poll { left = poll.left - 1 } ∷ [] else []

unfoldable pub poll_once : Poll → List Poll → Result ChainError ℕ → Page → Page
unfolding text_eq
poll_once poll others (err _) p = record p { polls = again poll ++ others }
poll_once poll others (ok n) p = record p {
  rows = map (with_balance poll.lane n) p.rows;
  selected = reselect poll.lane n p.selected;
  polls = (if ltb n poll.previous then [] else again poll) ++ others;
}
