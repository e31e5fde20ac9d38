-- ===== src/Watcher.antt =====
-- watcher.js: the scans of a receiver and of a chain, with the back-off after a failure.
pub mod Cursor
pub mod Backoff
use open_beanie.Base.{
  ℕ, zero, suc, ◌+◌, ◌*◌, ◌^◌, min, Bool, true, false, ◌==◌, ltb, if◌then◌else◌, List, [], ◌∷◌,
  ◌++◌, Option, none, some, Text,
}
use open_beanie.Base.Result.{Result, ok, err}
use open_beanie.Onchain.{ChainError, Net, head_block}
use open_beanie.Onchain.Deposits.{Scan, scan_deposits}
use open_beanie.Store.{Entry, Storage, Receiver, get_cursor, record_scan, set_cursor}

abbrev pub tick_ms : ℕ
tick_ms = 20000

abbrev pub max_windows_per_receiver : ℕ
max_windows_per_receiver = 8

abbrev pub max_backoff_ms : ℕ
max_backoff_ms = 5 * 60 * 1000

pub data WatchError : Type 0 where
  chain_failed : ChainError → WatchError
  not_persisted : WatchError

-- A receiver of a lane, with the lane's id.
pub record Job : Type 0 where
  pub lane_id : Option Text
  pub receiver : Receiver

-- What a run leaves: the storage, the deposits given to the listeners, and the error it threw.
pub record Outcome : Type 0 where
  pub storage : Storage
  pub emitted : List Entry
  pub failure : Option WatchError

-- An entry of `chainState`; a chain that has none starts with zeros.
pub record ChainState : Type 0 where
  pub failures : ℕ
  pub next_at : ℕ

abbrev pub delay_after : ℕ → ℕ
delay_after failures = min (tick_ms * 2 ^ failures) max_backoff_ms

-- Answers of the network and readings of the clock change from one round to the next: `net i` and
-- `clock i` are those of the round `i`. A failing listener is caught, and changes nothing here.
module _ (sha256 : List ℕ → List ℕ) (max_pages : ℕ) (fits : Storage → Bool) (net : ℕ → Net)
    (clock : ℕ → ℕ) where
  abbrev pub window : Receiver → ℕ → ℕ → Result ChainError Scan
  window r i cursor = scan_deposits sha256 (net i) max_pages r.chain r.address cursor

  abbrev pub recorded : Job → Scan → ℕ → Storage → Storage × Option (List Entry)
  recorded job scan i s =
      record_scan fits job.receiver scan.deposits scan.next_block job.lane_id (clock i) s

  -- The loop over the windows, with those that are left.
  unfoldable pub window_loop : Job → ℕ → ℕ → ℕ → Storage → Outcome
  window_loop job zero i cursor s = record { storage = s; emitted = []; failure = none }
  window_loop job (suc n) i cursor s = elim (window job.receiver i cursor) [
    | err e ↦ record { storage = s; emitted = []; failure = some (chain_failed e) }
    | ok scan ↦
        let rest = window_loop job n (i + 1) scan.next_block (recorded job scan i s).0 in
        if scan.next_block == cursor
        then record { storage = s; emitted = []; failure = none }
        else elim (recorded job scan i s).1 [
          | none ↦ record {
            storage = (recorded job scan i s).0;
            emitted = [];
            failure = some not_persisted;
          }
          | some new ↦ record rest { emitted = new ++ rest.emitted }
        ]
  ]

  abbrev pub from_start : Job → ℕ → ℕ → Storage → Outcome
  unfolding window_loop
  from_start job i cursor s =
      window_loop job max_windows_per_receiver i cursor (set_cursor fits job.receiver cursor s)

  -- The head is read in the round `i`, and the windows are those of the rounds from `i + 1` on.
  unfoldable pub scan_receiver : Job → ℕ → Storage → Outcome
  unfolding window_loop
  scan_receiver job i s = elim (get_cursor s job.receiver.chain job.receiver.address) [
    | some cursor ↦ window_loop job max_windows_per_receiver (i + 1) cursor s
    | none ↦ elim job.receiver.start_block [
      | some block ↦ from_start job (i + 1) block s
      | none ↦ elim (head_block (net i) job.receiver.chain) [
        | err e ↦ record { storage = s; emitted = []; failure = some (chain_failed e) }
        | ok head ↦ from_start job (i + 1) head s
      ]
    ]
  ]

  -- The receivers of a chain, one after the other, up to the first that fails. Each takes nine
  -- rounds at most.
  unfoldable pub job_loop : List Job → ℕ → Storage → Outcome
  unfolding scan_receiver
  job_loop [] i s = record { storage = s; emitted = []; failure = none }
  job_loop (job ∷ jobs) i s =
      let first = scan_receiver job i s in
      let rest = job_loop jobs (i + 9) first.storage in
      elim first.failure [
        | some e ↦ first
        | none ↦ record rest { emitted = first.emitted ++ rest.emitted }
      ]

  -- `started` and `ended` are the readings of the clock before the scans and after them.
  unfoldable pub scan_chain :
      List Job → ℕ → ℕ → ℕ → ChainState → Storage → ChainState × Storage × List Entry
  unfolding job_loop
  scan_chain jobs i started ended st s =
      let run = job_loop jobs i s in
      if ltb started st.next_at then (st, s, []) else elim run.failure [
        | none ↦ (record { failures = 0; next_at = 0 }, run.storage, run.emitted)
        | some e ↦ (
          record { failures = st.failures + 1; next_at = ended + delay_after (st.failures + 1) },
          run.storage,
          run.emitted,
        )
      ]
