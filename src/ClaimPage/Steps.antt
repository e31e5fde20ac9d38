-- ===== src/ClaimPage/Steps.antt =====
-- The page as a state machine: what the user does and what answers come, in any order.
use open_beanie.Base.{
  ℕ, ◌≡◌, refl, sym, ap, ◌∙◌, Bool, true, false, if◌then◌else◌, List, [], ◌∷◌, ◌++◌, Option, Text,
  All, All-imp, inl, inr, ◌⊎◌, Bool-cases,
}
use mathlib.Core.Path.{subst}
use mathlib.Core.List.{Mem, mem-cons_self, mem-cons_of_mem}
use open_beanie.Base.Result.{Result, ok, err}
use open_beanie.Onchain.{ChainError}
use open_beanie.Onchain.Accounts.{Accounts}
use open_beanie.Lane.Record.{LaneRecord}
use open_beanie.ClaimPage.{
  PageError, Row, Job, Services, Done, start_claim, run_claim, Poll, Page, opened, refresh, select,
  begun, begin_claim, ended, end_claim, poll_once,
}
use open_beanie.ClaimPage.Submitted.{Started, start_claim-Started, Sound, run_claim-Sound}

-- What happens on the page: a press, with the row that is selected then and the text of the input;
-- the answer to a claim, with the services that gave it; or anything else.
pub data Event : Type 0 where
  press : Option Row → Text → Event
  answer_to : Services → Job → Event
  other : Event

-- A claim ends when its answer comes, wherever it waits among the claims; so does a poll.
pub data Step : Page → Event → Page → Type 0 where
  refreshed :
      (p : Page) (sha256 : List ℕ → List ℕ) (accounts : Text → Accounts) (lanes : List LaneRecord)
      → Step p other (refresh sha256 accounts lanes p)
  selected : (p : Page) (row : Row) → Step p other (select row p)
  pressed : (p : Page) (input : Text) → Step p (press p.selected input) (begin_claim input p)
  answered :
      (p : Page) (services : Services) (before after : List Job) (job : Job)
      → p.in_flight ≡ before ++ (job ∷ after)
      → Step p (answer_to services job) (end_claim services job (before ++ after) p)
  polled :
      (p : Page) (before after : List Poll) (poll : Poll) (answer : Result ChainError ℕ)
      → p.polls ≡ before ++ (poll ∷ after)
      → Step p other (poll_once poll (before ++ after) answer p)

-- The pages that are reached, with what happened so far, the latest first.
pub data Reach : Page → List Event → Type 0 where
  start : Reach opened []
  next : {p q : Page} {e : Event} {es : List Event} → Reach p es → Step p e q → Reach q (e ∷ es)

-- The button is locked for just as long as one claim waits.
abbrev pub Locked : Bool → List Job → Type 0
Locked busy jobs = ((busy ≡ false) × (jobs ≡ [])) ⊎ (busy ≡ true) × (job : Job) × (jobs ≡ job ∷ [])

-- A press started the job: it is about the row that was selected at that press, and its input.
pub record WasStarted (es : List Event) (job : Job) : Type 0 where
  pub selected : Option Row
  pub input : Text
  pub happened : Mem (press selected input) es
  pub began : Started selected input job

-- The claim was submitted for a job that a press had started, by the services that answered to it.
pub record WasSound (es : List Event) (done : Done) : Type 0 where
  pub services : Services
  pub job : Job
  pub happened : Mem (answer_to services job) es
  pub was_started : WasStarted es job
  pub submitted : Sound services job done

pub record IsSafe (es : List Event) (p : Page) : Type 0 where
  pub locked : Locked p.busy p.in_flight
  pub started : All (WasStarted es) p.in_flight
  pub sound : All (WasSound es) p.submitted

-- What was so stays so when more happens.
WasStarted-later :
    (e : Event) (es : List Event) (job : Job) → WasStarted es job → WasStarted (e ∷ es) job
WasStarted-later e es job w = record {
  selected = w.selected;
  input = w.input;
  happened = mem-cons_of_mem e w.happened;
  began = w.began;
}

WasSound-later :
    (e : Event) (es : List Event) (done : Done) → WasSound es done → WasSound (e ∷ es) done
WasSound-later e es done w = record {
  services = w.services;
  job = w.job;
  happened = mem-cons_of_mem e w.happened;
  was_started = WasStarted-later e es w.job w.was_started;
  submitted = w.submitted;
}

IsSafe-later : (e : Event) (es : List Event) (p : Page) → IsSafe es p → IsSafe (e ∷ es) p
IsSafe-later e es p safe = record {
  locked = safe.locked;
  started =
      All-imp (WasStarted es) (WasStarted (e ∷ es)) (WasStarted-later e es) p.in_flight
        safe.started;
  sound = All-imp (WasSound es) (WasSound (e ∷ es)) (WasSound-later e es) p.submitted safe.sound;
}

one_left :
    (before after : List Job) (a job : Job)
    → a ∷ [] ≡ before ++ (job ∷ after)
    → (before ++ after ≡ []) × (a ≡ job)
one_left [] [] a job h = (refl, cc)
one_left [] (b ∷ after) a job h = cc
one_left (b ∷ []) after a job h = cc
one_left (b ∷ c ∷ before) after a job h = cc

unlocked : (busy : Bool) (jobs : List Job) → Locked busy jobs → busy ≡ false → jobs ≡ []
unlocked busy jobs (inl (_, e)) h = e
unlocked busy jobs (inr (b, _, _)) h = cc

module _ (p : Page) (input : Text) (es : List Event) where
  abbrev now : List Event
  now = press p.selected input ∷ es

  begun-IsSafe :
      (r : Result PageError Job)
      → start_claim p.selected input ≡ r
      → p.busy ≡ false
      → IsSafe now p
      → IsSafe now (begun r p)
  begun-IsSafe (err e) h free safe = safe
  begun-IsSafe (ok job) h free safe =
      let alone = unlocked p.busy p.in_flight safe.locked free in
      let began : WasStarted now job = record {
        selected = p.selected;
        input = input;
        happened = mem-cons_self;
        began = start_claim-Started p.selected input job h;
      } in
      record {
        locked = inr (refl, job, ap (λ (js : List Job). job ∷ js) alone);
        started = (began, safe.started);
        sound = safe.sound;
      }

  begin_claim-IsSafe : IsSafe now p → IsSafe now (begin_claim input p)
  unfolding begin_claim
  begin_claim-IsSafe safe = elim (Bool-cases p.busy) [
    | inl e ↦
        subst (λ (b : Bool). IsSafe now (if b then p else begun (start_claim p.selected input) p))
          (sym e) safe
    | inr e ↦
        subst (λ (b : Bool). IsSafe now (if b then p else begun (start_claim p.selected input) p))
          (sym e) (begun-IsSafe (start_claim p.selected input) refl e safe)
  ]

-- The claim that ends is the one that waited.
only_one :
    (busy : Bool) (jobs before after : List Job) (job : Job)
    → Locked busy jobs
    → jobs ≡ before ++ (job ∷ after)
    → before ++ after ≡ []
only_one busy jobs [] after job (inl (_, e)) at = cc
only_one busy jobs (b ∷ before) after job (inl (_, e)) at = cc
only_one busy jobs before after job (inr (_, a, e)) at =
    (one_left before after a job (sym e ∙ at)).0

All-middle :
    (es : List Event) (before after : List Job) (job : Job)
    → All (WasStarted es) (before ++ (job ∷ after))
    → WasStarted es job
All-middle es [] after job (h, hs) = h
All-middle es (b ∷ before) after job (h, hs) = All-middle es before after job hs

module _ (p : Page) (services : Services) (job : Job) (es : List Event) where
  abbrev then_on : List Event
  then_on = answer_to services job ∷ es

  ended-IsSafe :
      (others : List Job) (r : Result PageError Done)
      → run_claim services job ≡ r
      → others ≡ []
      → WasStarted then_on job
      → All (WasSound then_on) p.submitted
      → IsSafe then_on (ended job r (record p { busy = false; in_flight = others }))
  ended-IsSafe others (err e) h alone began sound = record {
    locked = inl (refl, alone);
    started = subst (λ (js : List Job). All (WasStarted then_on) js) (sym alone) tt;
    sound = sound;
  }
  ended-IsSafe others (ok done) h alone began sound =
      let new : WasSound then_on done = record {
        services = services;
        job = job;
        happened = mem-cons_self;
        was_started = began;
        submitted = run_claim-Sound services job done h;
      } in
      record {
        locked = inl (refl, alone);
        started = subst (λ (js : List Job). All (WasStarted then_on) js) (sym alone) tt;
        sound = (new, sound);
      }

  end_claim-IsSafe :
      (before after : List Job)
      → p.in_flight ≡ before ++ (job ∷ after)
      → IsSafe then_on p
      → IsSafe then_on (end_claim services job (before ++ after) p)
  unfolding end_claim
  end_claim-IsSafe before after at safe =
      ended-IsSafe (before ++ after) (run_claim services job) refl
        (only_one p.busy p.in_flight before after job safe.locked at)
        (All-middle then_on before after job
          (subst (λ (js : List Job). All (WasStarted then_on) js) at safe.started))
        safe.sound

poll_once-IsSafe :
    (es : List Event) (p : Page) (poll : Poll) (others : List Poll) (answer : Result ChainError ℕ)
    → IsSafe es p
    → IsSafe es (poll_once poll others answer p)
unfolding poll_once
poll_once-IsSafe es p poll others (ok n) safe = record {
  locked = safe.locked;
  started = safe.started;
  sound = safe.sound;
}
poll_once-IsSafe es p poll others (err e) safe = record {
  locked = safe.locked;
  started = safe.started;
  sound = safe.sound;
}

Step-IsSafe :
    {p q : Page} {e : Event} {es : List Event} → Step p e q → IsSafe (e ∷ es) p → IsSafe (e ∷ es) q
unfolding refresh
Step-IsSafe (refreshed p sha256 accounts lanes) safe = record {
  locked = safe.locked;
  started = safe.started;
  sound = safe.sound;
}
Step-IsSafe (selected p row) safe = record {
  locked = safe.locked;
  started = safe.started;
  sound = safe.sound;
}
Step-IsSafe {es = es} (pressed p input) safe = begin_claim-IsSafe p input es safe
Step-IsSafe {es = es} (answered p services before after job at) safe =
    end_claim-IsSafe p services job es before after at safe
Step-IsSafe {es = es} (polled p before after poll answer at) safe =
    poll_once-IsSafe (other ∷ es) p poll (before ++ after) answer safe

-- On the page of private lanes, in whatever order presses, selections, refreshes and answers come:
-- the lock is set for just as long as one claim waits, and never do two; for each claim that waits
-- there was a press at which a row was selected, and it is for that row's lane, for the whole
-- balance of the row, which is not 0, and for the canonical form of the destination that was typed
-- at that press; and each that was submitted was built for the destination and the balance of a
-- claim that was started so, by the services that answered to it, with the signer of the account
-- of the lane, with the settings that were resolved for the lane, and with a token for the hash
-- that was built.
pub Reach-IsSafe : (p : Page) (es : List Event) → Reach p es → IsSafe es p
Reach-IsSafe p es start = record { locked = inl (refl, refl); started = tt; sound = tt }
Reach-IsSafe p es (next {p = before} {e = e} {es = earlier} r s) =
    Step-IsSafe s (IsSafe-later e earlier before (Reach-IsSafe before earlier r))
