-- ===== src/Tests/Watcher.antt =====
-- The theorems on watcher.js at a receiver on Base.
use open_beanie.Base.{
  ℕ, ◌+◌, ◌*◌, ◌≤◌, ◌<◌, ◌≡◌, ◌⊎◌, refl, Bool, true, List, [], ◌∷◌, some, none, text_eq, codes,
  arith,
}
use open_beanie.Base.Json.{nat}
use open_beanie.Base.Result.{err}
use open_beanie.Base.Strings.{to_lower, lower_unit, to_upper, upper_unit}
use open_beanie.Chains.{wire, chain_by_key, find_chain}
use open_beanie.Onchain.{Net, head_block, require_chain, rpc, transport, Node}
use open_beanie.Store.{absent, stored, Storage, get_cursor, lookup, receiver_key}
use open_beanie.Tests.Onchain.{node_with, two_nodes}
use open_beanie.Watcher.{
  Job, ChainState, scan_receiver, job_loop, scan_chain, tick_ms, max_backoff_ms,
}
use open_beanie.Watcher.Cursor.{Recorded, scan_receiver_windows}
use open_beanie.Watcher.Backoff.{scan_chain_backoff}

abbrev no_hash : List ℕ → List ℕ
no_hash bytes = []

abbrev always : Storage → Bool
always s = true

abbrev nets : ℕ → Net
nets i = two_nodes

abbrev clock : ℕ → ℕ
clock i = i

abbrev job : Job
job = record {
  lane_id = none;
  receiver = record { chain = codes "BASE"; address = codes "0xab"; start_block = none };
}

abbrev started : Storage
started = record {
  lanes = absent;
  history = absent;
  cursors = stored ((codes "BASE:0xab", nat 3) ∷ []);
  seen = 0;
}

at_three : get_cursor started (codes "BASE") (codes "0xab") ≡ some 3
unfolding get_cursor lookup receiver_key wire chain_by_key find_chain to_upper upper_unit to_lower
    lower_unit text_eq
at_three = refl

scan_receiver_windows_example :
    (e : ℕ) × (s2 : Storage) × Recorded no_hash 10 always nets clock job
      (0 + 1)
      3
      started
      e
      s2
      (scan_receiver no_hash 10 always nets clock job 0 started).emitted
    × (3 ≤ e)
    × (get_cursor
          (scan_receiver no_hash 10 always nets clock job 0 started).storage
          (codes "BASE")
          (codes "0xab")
        ≡ some e)
scan_receiver_windows_example =
    scan_receiver_windows no_hash 10 always nets clock job 0 3 started at_three

-- A node that answers nothing.
abbrev silent : Node
silent = record (node_with "") { eth_block_number = err (transport []) }

abbrev silent_nets : ℕ → Net
silent_nets i = record { proxy = silent; public = silent }

abbrev fresh : Storage
fresh = record { lanes = absent; history = absent; cursors = absent; seen = 0 }

abbrev failed_twice : ChainState
failed_twice = record { failures = 2; next_at = 500 }

abbrev failed_thrice : ChainState
failed_thrice = record { failures = 3; next_at = 160700 }

failing :
    scan_chain no_hash 10 always silent_nets clock (job ∷ []) 0 600 700 failed_twice fresh
    ≡ (failed_thrice, fresh, [])
unfolding scan_chain job_loop scan_receiver get_cursor lookup head_block require_chain rpc wire
    chain_by_key find_chain to_upper upper_unit text_eq
failing = refl

scan_chain_backoff_example :
    (((job_loop no_hash 10 always silent_nets clock (job ∷ []) 0 fresh).failure ≡ none)
      × (◌≡◌ {A = ℕ} 3 0)
      × (◌≡◌ {A = ℕ} 160700 0))
    ⊎ ((◌≡◌ {A = ℕ} 3 (2 + 1))
        × (700 + 2 * tick_ms ≤ 160700)
        × (160700 ≤ 700 + max_backoff_ms)
        × ((i' started' ended' : ℕ) (s1 : Storage)
            → started' < 160700
            → scan_chain no_hash 10 always silent_nets clock
                (job ∷ [])
                i'
                started'
                ended'
                failed_thrice
                s1
              ≡ (failed_thrice, s1, [])))
scan_chain_backoff_example =
    scan_chain_backoff no_hash 10 always silent_nets clock (job ∷ []) 0 600 700 failed_twice
      failed_thrice fresh fresh [] (omega arith) failing
