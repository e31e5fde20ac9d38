-- ===== src/Store/Scans.antt =====
-- What `recordScan` does to the history and to the cursors.
use open_beanie.Base.{
  ℕ, ◌≡◌, ◌≢◌, refl, sym, ap, ◌∙◌, Bool, true, false, if◌then◌else◌, List, [], ◌∷◌, ◌++◌, reverse,
  Option, none, some, Text, text_eq_refl, text_eq_iff, take, arith, inl, inr, ◌⊎◌,
}
use open_beanie.Base.Json.{Value, nat}
use open_beanie.Store.{
  Cell, stored, Entry, Storage, Deposit, Receiver, max_history, receiver_key, read, get_history,
  lookup, assign, get_cursor, ids_of, scan_loop, write, put_history, put_cursor, record_scan,
}

module _ {V : Type 0} where
  pub lookup-assign_self :
      (k : Text) (v : V) (m : List (Text × V)) → lookup k (assign k v m) ≡ some v
  unfolding lookup assign
  lookup-assign_self k v [] = rw (text_eq_refl k)
  lookup-assign_self k v ((j, w) ∷ m) = ground (arith, lookup-assign_self k v m)

  pub lookup-assign_ne :
      (k j : Text) (v : V) (m : List (Text × V)) → j ≢ k → lookup j (assign k v m) ≡ lookup j m
  unfolding lookup assign
  lookup-assign_ne k j v [] h = ground (arith, text_eq_iff j k)
  lookup-assign_ne k j v ((i, w) ∷ m) h =
      ground (arith, text_eq_iff j k, text_eq_iff k i, text_eq_iff j i, lookup-assign_ne k j v m)

-- What a successful scan leaves.
abbrev pub merged : List Entry → List Entry → List Entry
merged [] history = history
merged (e ∷ added) history = take max_history (reverse (e ∷ added) ++ history)

module _ (fits : Storage → Bool) (r : Receiver) where
  abbrev pub key : Text
  key = receiver_key r.chain r.address

  abbrev pub found : Option Text → ℕ → List Deposit → Storage → List Entry
  found lane_id now ds s = scan_loop r lane_id now (ids_of (get_history s)) ds []

  write-true : (old new : Storage) → (write fits old new).1 ≡ true → (write fits old new).0 ≡ new
  write-true old new h = ground arith

  write-false : (old new : Storage) → (write fits old new).1 ≡ false → (write fits old new).0 ≡ old
  write-false old new h = ground arith

  history-put_history :
      (added : List Entry) (s : Storage)
      → (put_history fits added s).1 ≡ true
      → (get_history (put_history fits added s).0 ≡ merged added (get_history s))
        × ((put_history fits added s).0.cursors ≡ s.cursors)
  unfolding get_history
  history-put_history [] s h = (refl, refl)
  history-put_history (e ∷ added) s h = rw (write-true s _ h) (refl, refl)

  cursors-put_history :
      (added : List Entry) (s : Storage) → (put_history fits added s).0.cursors ≡ s.cursors
  cursors-put_history [] s = refl
  cursors-put_history (e ∷ added) s = ground arith

  abbrev outcome : Bool → Bool → Storage → Storage → List Entry → Storage × Option (List Entry)
  outcome kept moved s1 s2 added =
      if kept then (if moved then (s2, some added) else (s2, none)) else (s1, none)

  outcome-some :
      (kept moved : Bool) (s1 s2 s' : Storage) (added added' : List Entry)
      → outcome kept moved s1 s2 added ≡ (s', some added')
      → (kept ≡ true) × (moved ≡ true) × (s2 ≡ s') × (added ≡ added')
  outcome-some true true s1 s2 s' added added' h = (refl, refl, cc, cc)
  outcome-some true false s1 s2 s' added added' h = cc
  outcome-some false moved s1 s2 s' added added' h = cc

  outcome-none :
      (kept moved : Bool) (s1 s2 s' : Storage) (added : List Entry)
      → outcome kept moved s1 s2 added ≡ (s', none)
      → ((kept ≡ false) × (s1 ≡ s')) ⊎ ((kept ≡ true) × (moved ≡ false) × (s2 ≡ s'))
  outcome-none true true s1 s2 s' added h = cc
  outcome-none true false s1 s2 s' added h = inr (refl, refl, cc)
  outcome-none false moved s1 s2 s' added h = inl (refl, cc)

  -- Both writes went through.
  pub record Succeeded (ds : List Deposit) (nb : ℕ) (lane_id : Option Text) (now : ℕ)
      (s s' : Storage) (added : List Entry) : Type 0 where
    pub is_found : added ≡ found lane_id now ds s
    pub new_history : get_history s' ≡ merged added (get_history s)
    pub new_cursors : s'.cursors ≡ stored (assign key (nat nb) (read s.cursors []))

  pub succeeded :
      (ds : List Deposit) (nb : ℕ) (lane_id : Option Text) (now : ℕ) (s s' : Storage)
      (added : List Entry)
      → record_scan fits r ds nb lane_id now s ≡ (s', some added)
      → Succeeded ds nb lane_id now s s' added
  unfolding record_scan
  succeeded ds nb lane_id now s s' added h =
      let p = put_history fits (found lane_id now ds s) s in
      let q = put_cursor fits r nb p.0 in
      let (kept, moved, same, is_found) = outcome-some p.1 q.1 p.0 q.0 s' _ added h in
      let (history, cursors) = history-put_history (found lane_id now ds s) s kept in
      let e = sym same ∙ write-true p.0 _ moved in
      record {
        is_found = sym is_found;
        new_history =
            ap get_history e ∙ history ∙ ap (λ (a : List Entry). merged a (get_history s)) is_found;
        new_cursors =
            ap (λ (t : Storage). t.cursors) e
            ∙ ap (λ (c : Cell (List (Text × Value))). stored (assign key (nat nb) (read c [])))
                cursors;
      }

  -- After a scan that succeeds, the cursor of the receiver is the next block.
  pub get_cursor-record_scan :
      (ds : List Deposit) (nb : ℕ) (lane_id : Option Text) (now : ℕ) (s s' : Storage)
      (added : List Entry)
      → record_scan fits r ds nb lane_id now s ≡ (s', some added)
      → get_cursor s' r.chain r.address ≡ some nb
  unfolding get_cursor
  get_cursor-record_scan ds nb lane_id now s s' added h =
      let ok_s = succeeded ds nb lane_id now s s' added h in
      rw (ok_s.new_cursors, lookup-assign_self key (nat nb) (read s.cursors []))

  -- A scan that succeeds leaves the cursor of every receiver with another key as it was.
  get_cursor-record_scan_ne :
      (ds : List Deposit) (nb : ℕ) (lane_id : Option Text) (now : ℕ) (s s' : Storage)
      (added : List Entry) (chain address : Text)
      → record_scan fits r ds nb lane_id now s ≡ (s', some added)
      → receiver_key chain address ≢ key
      → get_cursor s' chain address ≡ get_cursor s chain address
  unfolding get_cursor
  get_cursor-record_scan_ne ds nb lane_id now s s' added chain address h ne =
      let ok_s = succeeded ds nb lane_id now s s' added h in
      rw (
        ok_s.new_cursors,
        lookup-assign_ne key (receiver_key chain address) (nat nb) (read s.cursors []) ne,
      )

  -- A scan that reports a refused write leaves all cursors as they were.
  pub cursors-record_scan_refused :
      (ds : List Deposit) (nb : ℕ) (lane_id : Option Text) (now : ℕ) (s s' : Storage)
      → record_scan fits r ds nb lane_id now s ≡ (s', none)
      → s'.cursors ≡ s.cursors
  unfolding record_scan
  cursors-record_scan_refused ds nb lane_id now s s' h =
      let p = put_history fits (found lane_id now ds s) s in
      let q = put_cursor fits r nb p.0 in
      let first = cursors-put_history (found lane_id now ds s) s in
      elim (outcome-none p.1 q.1 p.0 q.0 s' (found lane_id now ds s) h) [
        | inl (_, same) ↦ ap (λ (t : Storage). t.cursors) (sym same) ∙ first
        | inr (_, moved, same) ↦
            ap (λ (t : Storage). t.cursors) (sym same ∙ write-false p.0 _ moved) ∙ first
      ]
