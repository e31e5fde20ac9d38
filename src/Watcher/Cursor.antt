-- ===== src/Watcher/Cursor.antt =====
-- The cursor of a receiver stands at the end of the windows that were recorded.
use open_beanie.Base.{
  ℕ, zero, suc, ◌+◌, ◌≤◌, ◌≡◌, refl, ap, Bool, ◌==◌, List, [], ◌++◌, Option, some, arith,
  Bool-cases, Option-cases, inl, inr,
}
use open_beanie.Base.Result.{ok, Result-cases}
use open_beanie.Onchain.{Net}
use open_beanie.Onchain.Deposits.{Scan}
use open_beanie.Onchain.Windows.{scan_deposits_window}
use open_beanie.Store.{Entry, Storage, get_cursor}
use open_beanie.Store.Scans.{get_cursor-record_scan, cursors-record_scan_refused}
use open_beanie.Watcher.{
  Job, Outcome, window, recorded, window_loop, scan_receiver, max_windows_per_receiver,
}

module _ (sha256 : List ℕ → List ℕ) (max_pages : ℕ) (fits : Storage → Bool) (net : ℕ → Net)
    (clock : ℕ → ℕ) (job : Job) where
  -- Windows that were read and recorded one behind the other, from a cursor to a cursor, with the
  -- entries that they gave.
  pub data Recorded : ℕ → ℕ → Storage → ℕ → Storage → List Entry → Type 0 where
    stop : (i c : ℕ) (s : Storage) → Recorded i c s c s []
    step :
        (i c : ℕ) (s : Storage) (scan : Scan) (s1 : Storage) (new : List Entry) (e : ℕ)
        (s2 : Storage) (rest : List Entry)
        → window sha256 max_pages fits net clock job.receiver i c ≡ ok scan
        → recorded sha256 max_pages fits net clock job scan i s ≡ (s1, some new)
        → Recorded (i + 1) scan.next_block s1 e s2 rest
        → Recorded i c s e s2 (new ++ rest)

  cursor-Recorded :
      (i c : ℕ) (s : Storage) (e : ℕ) (s2 : Storage) (new : List Entry)
      → Recorded i c s e s2 new
      → get_cursor s job.receiver.chain job.receiver.address ≡ some c
      → (c ≤ e) × (get_cursor s2 job.receiver.chain job.receiver.address ≡ some e)
  cursor-Recorded i c s e s2 new (stop _ _ _) at = (omega arith, at)
  cursor-Recorded i c s e s2 _ (step _ _ _ scan s1 new _ _ rest read kept more) at =
      let r = job.receiver in
      let moved =
        get_cursor-record_scan fits r scan.deposits scan.next_block job.lane_id (clock i) s s1 new
          kept in
      let (le, end) = cursor-Recorded (i + 1) scan.next_block s1 e s2 rest more moved in
      let (head, _, cases) =
        scan_deposits_window sha256 (net i) max_pages r.chain r.address c scan read in
      let from : c ≤ scan.next_block = elim cases [
        | inl (_, same, _) ↦ omega (arith, same)
        | inr (_, past, _) ↦ omega (arith, past)
      ] in
      (omega arith, end)

  -- What is left is the storage behind the windows, or has its cursors.
  abbrev Reaches : ℕ → ℕ → Storage → Outcome → Type 0
  Reaches i c s out =
      (e : ℕ) × (s2 : Storage) × Recorded i c s e s2 out.emitted
      × (out.storage.cursors ≡ s2.cursors)

  window_loop-Reaches :
      (n i c : ℕ) (s : Storage)
      → Reaches i c s (window_loop sha256 max_pages fits net clock job n i c s)
  unfolding window_loop
  window_loop-Reaches zero i c s = (c, s, stop i c s, refl)
  window_loop-Reaches (suc n) i c s =
      elim (Result-cases (window sha256 max_pages fits net clock job.receiver i c)) [
        | inr (e, failed) ↦ rw (failed, window_loop) (c, s, stop i c s, refl)
        | inl (scan, read) ↦ elim (Bool-cases (scan.next_block == c)) [
          | inl t ↦ rw (read, window_loop, t) (c, s, stop i c s, refl)
          | inr t ↦
              let run = recorded sha256 max_pages fits net clock job scan i s in
              elim (Option-cases run.1) [
                | inl none_new ↦
                    rw (read, window_loop, t, none_new)
                      (
                        c,
                        s,
                        stop i c s,
                        cursors-record_scan_refused fits job.receiver scan.deposits scan.next_block
                            job.lane_id (clock i) s run.0
                            (ap (λ (o : Option (List Entry)). (run.0, o)) none_new),
                      )
                | inr (new, some_new) ↦
                    let (e, s2, windows, same) =
                      window_loop-Reaches n (i + 1) scan.next_block run.0 in
                    rw (read, window_loop, t, some_new)
                      (
                        e,
                        s2,
                        step i c s scan run.0 new e s2 _ read
                            (ap (λ (o : Option (List Entry)). (run.0, o)) some_new) windows,
                        same,
                      )
              ]
        ]
      ]

  cursor-by_cursors :
      (s s2 : Storage) (c : Option ℕ)
      → s.cursors ≡ s2.cursors
      → get_cursor s2 job.receiver.chain job.receiver.address ≡ c
      → get_cursor s job.receiver.chain job.receiver.address ≡ c
  unfolding get_cursor
  cursor-by_cursors s s2 c same at = rw same at

  -- For a receiver with a cursor c, however its scan ends, caught up, after its eight windows or
  -- by an error: the windows that were recorded follow one another from c to some e not below c,
  -- the deposits that were emitted are theirs, and the cursor that is stored is e.
  pub scan_receiver_windows :
      (i c : ℕ) (s : Storage)
      → get_cursor s job.receiver.chain job.receiver.address ≡ some c
      → (e : ℕ) × (s2 : Storage) × Recorded
          (i + 1)
          c
          s
          e
          s2
          (scan_receiver sha256 max_pages fits net clock job i s).emitted
        × (c ≤ e)
        × (get_cursor
              (scan_receiver sha256 max_pages fits net clock job i s).storage
              job.receiver.chain
              job.receiver.address
            ≡ some e)
  unfolding scan_receiver
  scan_receiver_windows i c s at =
      let (e, s2, windows, same) = window_loop-Reaches max_windows_per_receiver (i + 1) c s in
      let (le, end) = cursor-Recorded (i + 1) c s e s2 _ windows at in
      rw (at, scan_receiver) (e, s2, windows, le, cursor-by_cursors _ s2 (some e) same end)
