-- ===== src/Store.antt =====
-- store.js: what is kept in `localStorage`, and the scans that are recorded there.
pub mod History
pub mod Scans
pub mod Lanes
pub mod Config
pub mod Backup
use open_beanie.Base.{
  ℕ, zero, suc, ◌+◌, Bool, true, false, not, ◌==◌, ltb, if◌then◌else◌, List, [], ◌∷◌, ◌++◌, map,
  Option, none, some, Text, text_eq, codes, length, take, reverse,
}
use open_beanie.Base.Json.{Value, nat}
use open_beanie.Base.Strings.{to_lower, to_string}
use open_beanie.Chains.{Kind, evm, starknet, solana, Chain, chain_by_key, wire}

-- The text under a key: none (or an empty one), one that `JSON.parse` refuses, or a value.
pub data Cell {ℓ} (A : Type ℓ) : Type ℓ where
  absent : Cell A
  unreadable : Cell A
  stored : A → Cell A

-- An entry of the history, with the fields that `recordScan` gives it.
pub record Entry : Type 0 where
  pub id : Text
  pub chain : Text
  pub address : Text
  pub lane_id : Option Text
  pub amount : Text
  pub tx : Text
  pub block : ℕ
  pub time : ℕ

-- `none` in the history is a value that is no array. The cursors are an object, by receiver.
pub record Storage : Type 0 where
  pub lanes : Cell Value
  pub history : Cell (Option (List Entry))
  pub cursors : Cell (List (Text × Value))
  pub seen : ℕ

-- What a scan finds, as `scanDeposits` gives it; only on Solana it tells who pays.
pub record Deposit : Type 0 where
  pub amount : Text
  pub from : Option Text
  pub tx : Text
  pub block : ℕ

pub record Receiver : Type 0 where
  pub chain : Text
  pub address : Text
  pub start_block : Option ℕ

abbrev pub max_history : ℕ
max_history = 500

abbrev keeps_case : Option Chain → Bool
keeps_case none = false
keeps_case (some c) = elim c.kind [ solana ↦ true | _ ↦ false ]

unfoldable pub receiver_key : Text → Text → Text
receiver_key chain address =
    wire chain ++ (b':' ∷ (if keeps_case (chain_by_key chain) then address else to_lower address))

-- `read` with its fallback
abbrev pub read {ℓ} : {A : Type ℓ} → Cell A → A → A
read absent fallback = fallback
read unreadable fallback = fallback
read (stored a) fallback = a

abbrev pub entries : Option (List Entry) → List Entry
entries none = []
entries (some es) = es

unfoldable pub get_history : Storage → List Entry
get_history s = entries (read s.history (some []))

-- A field of an object, and its assignment, which keeps the field's place.
module _ {V : Type 0} where
  unfoldable pub lookup : Text → List (Text × V) → Option V
  lookup k [] = none
  lookup k ((j, v) ∷ m) = if text_eq k j then some v else lookup k m

  unfoldable pub assign : Text → V → List (Text × V) → List (Text × V)
  assign k v [] = (k, v) ∷ []
  assign k v ((j, w) ∷ m) = if text_eq k j then (j, v) ∷ m else (j, w) ∷ assign k v m

-- `Number.isInteger(n) && n >= 0 ? n : null`
abbrev pub as_natural : Option Value → Option ℕ
as_natural (some (nat n)) = some n
as_natural _ = none

unfoldable pub get_cursor : Storage → Text → Text → Option ℕ
unfolding lookup
get_cursor s chain address = as_natural (lookup (receiver_key chain address) (read s.cursors []))

-- `key:tx:amount`, and the id with the ordinal.
abbrev pub base_of : Text → Deposit → Text
base_of key d = key ++ (b':' ∷ (d.tx ++ (b':' ∷ d.amount)))

abbrev pub id_of : Text → ℕ → Text
id_of base n = base ++ (b':' ∷ to_string 10 n)

-- `ordinals.get(base) ?? 0`
abbrev pub ordinal : Text → List (Text × ℕ) → ℕ
ordinal base ordinals = elim (lookup base ordinals) [ none ↦ 0 | some n ↦ n ]

unfoldable pub seen_id : Text → List Text → Bool
seen_id id [] = false
seen_id id (x ∷ ids) = if text_eq id x then true else seen_id id ids

abbrev pub ids_of : List Entry → List Text
ids_of = map (λ e. e.id)

-- Every reading of the clock in one call is `now`.
abbrev pub entry_of : Text → Receiver → Option Text → ℕ → Deposit → Entry
entry_of id receiver lane_id now d = record {
  id = id;
  chain = wire receiver.chain;
  address = receiver.address;
  lane_id = lane_id;
  amount = d.amount;
  tx = d.tx;
  block = d.block;
  time = now;
}

-- The loop over the deposits, with the ids that were seen before it.
unfoldable pub scan_loop :
    Receiver → Option Text → ℕ → List Text → List Deposit → List (Text × ℕ) → List Entry
scan_loop receiver lane_id now seen [] ordinals = []
scan_loop receiver lane_id now seen (d ∷ ds) ordinals =
    let base = base_of (receiver_key receiver.chain receiver.address) d in
    let n = ordinal base ordinals in
    let rest = scan_loop receiver lane_id now seen ds (assign base (n + 1) ordinals) in
    if seen_id (id_of base n) seen
    then rest
    else entry_of (id_of base n) receiver lane_id now d ∷ rest

-- `localStorage.setItem` refuses what does not fit, and then changes nothing.
module _ (fits : Storage → Bool) where
  abbrev pub write : Storage → Storage → Storage × Bool
  write old new = if fits new then (new, true) else (old, false)

  abbrev put_history : List Entry → Storage → Storage × Bool
  put_history [] s = (s, true)
  put_history (e ∷ added) s = write s (record s {
    history = stored (some (take max_history (reverse (e ∷ added) ++ get_history s)));
  })

  abbrev put_cursor : Receiver → ℕ → Storage → Storage × Bool
  put_cursor receiver next_block s = write s (record s {
    cursors = stored (
        assign (receiver_key receiver.chain receiver.address) (nat next_block) (read s.cursors []));
  })

  -- The entries that were new, or none where the storage refused a write.
  unfoldable pub record_scan :
      Receiver → List Deposit → ℕ → Option Text → ℕ → Storage → Storage × Option (List Entry)
  unfolding scan_loop get_history
  record_scan receiver deposits next_block lane_id now s =
      let added = scan_loop receiver lane_id now (ids_of (get_history s)) deposits [] in
      let (s1, kept) = put_history added s in
      let (s2, moved) = put_cursor receiver next_block s1 in
      if kept then (if moved then (s2, some added) else (s2, none)) else (s1, none)

  -- The result of the write is not looked at.
  unfoldable pub set_cursor : Receiver → ℕ → Storage → Storage
  set_cursor receiver block s = (put_cursor receiver block s).0

  unfoldable pub mark_seen : ℕ → Storage → Storage
  mark_seen now s = (write s (record s { seen = now })).0

-- `getHistory().filter((h) => h.time > t).length`
unfoldable pub count_after : ℕ → List Entry → ℕ
count_after t [] = 0
count_after t (e ∷ es) = if ltb t e.time then suc (count_after t es) else count_after t es

unfoldable pub unseen_count : Storage → ℕ
unfolding get_history count_after
unseen_count s = count_after s.seen (get_history s)
