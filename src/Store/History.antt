-- ===== src/Store/History.antt =====
-- Deposits are recorded once: what a scan records, and what a repeated scan finds new.
use open_beanie.Base.{
  ℕ, zero, suc, ◌+◌, ◌≤◌, ◌≡◌, refl, sym, ap, ◌∙◌, Bool, true, false, ◌||◌, List, [], ◌∷◌, ◌++◌,
  map, reverse, Option, some, Text, text_eq_refl, length, take, All, All-imp, All-reverse, arith,
  Bool-cases, inl, inr, length-append, length-reverse, length-take,
}
use open_beanie.Store.{
  Entry, Storage, Deposit, Receiver, max_history, receiver_key, get_history, assign, base_of, id_of,
  ordinal, seen_id, ids_of, entry_of, scan_loop, record_scan,
}
use open_beanie.Store.Scans.{merged, succeeded}
use mathlib.Core.Path.{subst}
use mathlib.Core.List.{map-append, reverse-reverse}

-- What of a deposit is recorded.
pub record Paid : Type 0 where
  pub tx : Text
  pub amount : Text
  pub block : ℕ

abbrev pub paid : Deposit → Paid
paid d = record { tx = d.tx; amount = d.amount; block = d.block }

abbrev pub paid_entry : Entry → Paid
paid_entry e = record { tx = e.tx; amount = e.amount; block = e.block }

module _ (r : Receiver) where
  scan_loop-nothing_seen :
      (lane_id : Option Text) (now : ℕ) (ds : List Deposit) (ordinals : List (Text × ℕ))
      → map paid_entry (scan_loop r lane_id now [] ds ordinals) ≡ map paid ds
  unfolding scan_loop seen_id
  scan_loop-nothing_seen lane_id now [] ordinals = refl
  scan_loop-nothing_seen lane_id now (d ∷ ds) ordinals =
      ap (paid d ∷◌) (scan_loop-nothing_seen lane_id now ds _)

  abbrev base_at : Deposit → Text
  base_at d = base_of (receiver_key r.chain r.address) d

  abbrev id_at : Deposit → List (Text × ℕ) → Text
  id_at d ordinals = id_of (base_at d) (ordinal (base_at d) ordinals)

  abbrev next_ordinals : Deposit → List (Text × ℕ) → List (Text × ℕ)
  next_ordinals d ordinals = assign (base_at d) (ordinal (base_at d) ordinals + 1) ordinals

  scan_loop-cons_seen :
      (lane_id : Option Text) (now : ℕ) (seen : List Text) (d : Deposit) (ds : List Deposit)
      (ordinals : List (Text × ℕ))
      → seen_id (id_at d ordinals) seen ≡ true
      → scan_loop r lane_id now seen (d ∷ ds) ordinals
        ≡ scan_loop r lane_id now seen ds (next_ordinals d ordinals)
  unfolding scan_loop
  scan_loop-cons_seen lane_id now seen d ds ordinals h = rw h

  scan_loop-cons_new :
      (lane_id : Option Text) (now : ℕ) (seen : List Text) (d : Deposit) (ds : List Deposit)
      (ordinals : List (Text × ℕ))
      → seen_id (id_at d ordinals) seen ≡ false
      → scan_loop r lane_id now seen (d ∷ ds) ordinals
        ≡ entry_of (id_at d ordinals) r lane_id now d
          ∷ scan_loop r lane_id now seen ds (next_ordinals d ordinals)
  unfolding scan_loop
  scan_loop-cons_new lane_id now seen d ds ordinals h = rw h

  -- Where the ids that a loop gives are all seen the next time, that time gives none.
  scan_loop_repeated :
      (lane_id lane_id' : Option Text) (now now' : ℕ) (old new : List Text) (ds : List Deposit)
      (ordinals : List (Text × ℕ))
      → ((id : Text) → seen_id id old ≡ true → seen_id id new ≡ true)
      → All (λ e. seen_id e.id new ≡ true) (scan_loop r lane_id now old ds ordinals)
      → scan_loop r lane_id' now' new ds ordinals ≡ []
  unfolding scan_loop
  scan_loop_repeated lane_id lane_id' now now' old new [] ordinals more all_new = refl
  scan_loop_repeated lane_id lane_id' now now' old new (d ∷ ds) ordinals more all_new =
      let rest =
        scan_loop_repeated lane_id lane_id' now now' old new ds (next_ordinals d ordinals) more in
      elim (Bool-cases (seen_id (id_at d ordinals) old)) [
        | inl e ↦
            scan_loop-cons_seen lane_id' now' new d ds ordinals (more (id_at d ordinals) e)
            ∙ rest (
                subst (λ (es : List Entry). All (λ e. seen_id e.id new ≡ true) es)
                  (scan_loop-cons_seen lane_id now old d ds ordinals e) all_new)
        | inr e ↦
            let h =
              subst (λ (es : List Entry). All (λ e. seen_id e.id new ≡ true) es)
                (scan_loop-cons_new lane_id now old d ds ordinals e) all_new in
            scan_loop-cons_seen lane_id' now' new d ds ordinals h.0 ∙ rest h.1
      ]

seen_id-append :
    (id : Text) (xs ys : List Text) → seen_id id (xs ++ ys) ≡ (seen_id id xs || seen_id id ys)
unfolding seen_id
seen_id-append id [] ys = refl
seen_id-append id (x ∷ xs) ys = ground (arith, seen_id-append id xs ys)

take-all : (n : ℕ) (es : List Entry) → length es ≤ n → take n es ≡ es
take-all zero [] h = refl
take-all zero (e ∷ es) h = absurd (omega arith)
take-all (suc n) [] h = refl
take-all (suc n) (e ∷ es) h = ap (e ∷◌) (take-all n es (omega arith))

||-true : (b : Bool) → (b || true) ≡ true
||-true true = refl
||-true false = refl

merged-take :
    (added history : List Entry)
    → length history ≤ max_history
    → merged added history ≡ take max_history (reverse added ++ history)
merged-take [] history h = sym (take-all max_history history h)
merged-take (e ∷ added) history h = refl

-- Every id of a history is seen in it.
ids-seen : (es : List Entry) → All (λ e. seen_id e.id (ids_of es) ≡ true) es
unfolding seen_id
ids-seen [] = tt
ids-seen (e ∷ es) = (
  rw (text_eq_refl e.id),
  All-imp (λ x. seen_id x.id (ids_of es) ≡ true) (λ x. seen_id x.id (e.id ∷ ids_of es) ≡ true)
      (λ x h. ground (arith, h)) es (ids-seen es),
)

All-left : (P : Entry → Type 0) (xs ys : List Entry) → All P (xs ++ ys) → All P xs
All-left P [] ys h = tt
All-left P (x ∷ xs) ys h = (h.0, All-left P xs ys h.1)

merged-fits :
    (added history : List Entry)
    → length added + length history ≤ max_history
    → merged added history ≡ reverse added ++ history
merged-fits [] history h = refl
merged-fits (e ∷ added) history h =
    take-all max_history (reverse (e ∷ added) ++ history)
      (rw (length-append (reverse (e ∷ added)) history, length-reverse (e ∷ added)) h)

added-seen :
    (added history : List Entry)
    → All (λ e. seen_id e.id (ids_of (reverse added ++ history)) ≡ true) added
added-seen added history =
    let P = λ (e : Entry). seen_id e.id (ids_of (reverse added ++ history)) ≡ true in
    subst (All P) (reverse-reverse added) (
      All-reverse P (reverse added)
        (All-left P (reverse added) history (ids-seen (reverse added ++ history))))

old-seen :
    (added history : List Entry) (id : Text)
    → seen_id id (ids_of history) ≡ true
    → seen_id id (ids_of (reverse added ++ history)) ≡ true
old-seen added history id h =
    rw
      (
        map-append (λ (e : Entry). e.id) (reverse added) history,
        seen_id-append id (ids_of (reverse added)) (ids_of history),
        h,
      )
      (||-true (seen_id id (ids_of (reverse added))))

module _ (fits : Storage → Bool) (r : Receiver) where
  -- If a scan succeeds and its entries and the history together are at most 500, then scanning the
  -- same deposits again from the storage that it left, with any next block, lane and time, gives
  -- no entry and leaves the history as it is.
  pub record_scan-again :
      (ds : List Deposit) (nb nb' : ℕ) (lane_id lane_id' : Option Text) (now now' : ℕ)
      (s s' s'' : Storage) (added added' : List Entry)
      → record_scan fits r ds nb lane_id now s ≡ (s', some added)
      → length added + length (get_history s) ≤ max_history
      → record_scan fits r ds nb' lane_id' now' s' ≡ (s'', some added')
      → (added' ≡ []) × (get_history s'' ≡ get_history s')
  record_scan-again ds nb nb' lane_id lane_id' now now' s s' s'' added added' h room k =
      let first = succeeded fits r ds nb lane_id now s s' added h in
      let second = succeeded fits r ds nb' lane_id' now' s' s'' added' k in
      let kept = first.new_history ∙ merged-fits added (get_history s) room in
      let P = λ (e : Entry). seen_id e.id (ids_of (get_history s')) ≡ true in
      let none_new =
        scan_loop_repeated r lane_id lane_id' now now' (ids_of (get_history s))
          (ids_of (get_history s')) ds []
          (λ id old. rw kept (old-seen added (get_history s) id old))
          (subst (All P) first.is_found (rw kept (added-seen added (get_history s)))) in
      let empty = second.is_found ∙ none_new in
      (empty, second.new_history ∙ ap (λ (a : List Entry). merged a (get_history s')) empty)

  -- A scan that succeeds on an empty history gives an entry for every deposit, equal ones too, in
  -- order, with its transaction, amount and block.
  pub record_scan_complete :
      (ds : List Deposit) (nb : ℕ) (lane_id : Option Text) (now : ℕ) (s s' : Storage)
      (added : List Entry)
      → get_history s ≡ []
      → record_scan fits r ds nb lane_id now s ≡ (s', some added)
      → map paid_entry added ≡ map paid ds
  record_scan_complete ds nb lane_id now s s' added empty h =
      let first = succeeded fits r ds nb lane_id now s s' added h in
      rw (first.is_found, empty) (scan_loop-nothing_seen r lane_id now ds [])

  length-merged :
      (added history : List Entry)
      → length history ≤ max_history
      → length (merged added history) ≤ max_history
  length-merged [] history h = h
  length-merged (e ∷ added) history h =
      rw (length-take max_history (reverse (e ∷ added) ++ history)) (omega arith)

  -- A scan that succeeds on a history of at most 500 entries leaves at most 500: the entries that
  -- it gives, the last first, in front of the history, cut off at 500.
  pub history-record_scan :
      (ds : List Deposit) (nb : ℕ) (lane_id : Option Text) (now : ℕ) (s s' : Storage)
      (added : List Entry)
      → length (get_history s) ≤ max_history
      → record_scan fits r ds nb lane_id now s ≡ (s', some added)
      → (length (get_history s') ≤ max_history)
        × (get_history s' ≡ take max_history (reverse added ++ get_history s))
  history-record_scan ds nb lane_id now s s' added bound h =
      let first = succeeded fits r ds nb lane_id now s s' added h in
      (
        rw first.new_history (length-merged added (get_history s) bound),
        first.new_history ∙ merged-take added (get_history s) bound,
      )
