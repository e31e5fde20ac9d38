-- ===== src/Tests/Page.antt =====
-- The page of private lanes: a row is selected and claimed, and the answer comes.
use open_beanie.Base.{◌≡◌, refl, List, [], ◌∷◌, ◌++◌, none, some, text_eq, codes}
use open_beanie.Base.Result.{ok, err}
use open_beanie.Base.Strings.{to_lower, lower_unit, to_upper, upper_unit, trim, trim_start}
use open_beanie.Chains.{base, wire, chain_by_key, find_chain}
use open_beanie.Identity.{canonical_address, canonical_evm}
use open_beanie.Lane.{api_failed}
use open_beanie.ClaimPage.{
  Row, Job, rejected, Services, start_claim, begin_claim, end_claim, select, opened, Page,
}
use open_beanie.ClaimPage.Steps.{
  Event, press, answer_to, other, selected, pressed, answered, Reach, start, next, IsSafe,
  Reach-IsSafe,
}
use open_beanie.Tests.Create.{lane}
use open_beanie.Tests.Claim.{accounts, typed_hash, sign_hash, sign, evm_destination}
use open_beanie.Tests.Stealth.{no_hash, curves}

abbrev services : Services
services = record {
  sha256 = no_hash;
  accounts = accounts;
  published = err api_failed;
  prf = λ salt credential. err rejected;
  curves = curves;
  typed_hash = typed_hash;
  sign_hash = sign_hash;
  sign_bytes = sign;
  starknet = record {
    selector = λ name. name;
    compile = λ data_felts. data_felts;
    invoke_hash = λ invoke. [];
    sign = λ hash key. (hash, key);
  };
  seconds = 1000;
  random = 1 ∷ [];
  token = λ binding. ok binding;
  submit = λ submission. ok none;
}

abbrev row : Row
row = record { lane = lane; balance = some 250 }

abbrev job : Job
job = record {
  lane = lane;
  chain = base;
  destination = codes "0x833589fcd6edb6e08f4c7c32d4f71b54bda02913";
  balance = 250;
}

abbrev waiting : Page
waiting = begin_claim evm_destination (select row opened)

one_waits : waiting.in_flight ≡ [] ++ (job ∷ [])
unfolding begin_claim start_claim canonical_address canonical_evm wire chain_by_key find_chain
    text_eq to_lower lower_unit to_upper upper_unit trim trim_start
one_waits = refl

abbrev happened : List Event
happened = answer_to services job ∷ press (some row) evm_destination ∷ other ∷ []

abbrev reached : Reach (end_claim services job ([] ++ []) waiting) happened
reached =
    next (next (next start (selected opened row)) (pressed (select row opened) evm_destination))
      (answered waiting services [] [] job one_waits)

Reach-IsSafe_example : IsSafe happened (end_claim services job ([] ++ []) waiting)
Reach-IsSafe_example = Reach-IsSafe (end_claim services job ([] ++ []) waiting) happened reached
