-- ===== src/Tests/Store.antt =====
-- The theorems on store.js at a scan of three deposits, two of them equal.
use open_beanie.Base.{
  ℕ, ◌≤◌, ◌≡◌, ◌≢◌, refl, Bool, true, false, ltb, List, [], ◌∷◌, ◌++◌, map, reverse, some, none,
  Text, text_eq, text_eq_iff, codes, length, take, arith,
}
use open_beanie.Base.Positional.{digits_loop}
use open_beanie.Base.Strings.{to_string, digit, to_lower, lower_unit, to_upper, upper_unit}
use open_beanie.Chains.{wire, chain_by_key, find_chain}
use open_beanie.Store.{
  absent, Entry, Storage, Deposit, Receiver, max_history, get_history, record_scan, scan_loop,
  seen_id, lookup, assign, receiver_key,
}
use open_beanie.Store.History.{
  paid, paid_entry, record_scan-again, record_scan_complete, history-record_scan,
}

abbrev nothing : Storage
nothing = record { lanes = absent; history = absent; cursors = absent; seen = 0 }

abbrev receiver : Receiver
receiver = record { chain = codes "BASE"; address = codes "0xAb"; start_block = none }

-- Two equal transfers in one transaction, and another.
abbrev deposits : List Deposit
deposits =
    record { amount = codes "5"; from = none; tx = codes "0x1"; block = 7 }
    ∷ record { amount = codes "5"; from = none; tx = codes "0x1"; block = 7 }
    ∷ record { amount = codes "6"; from = none; tx = codes "0x2"; block = 8 }
    ∷ []

abbrev always : Storage → Bool
always s = true

abbrev no_room : Storage → Bool
no_room s = ltb (length (get_history s)) 2

abbrev entry : Text → Text → Text → ℕ → Entry
entry id amount tx block = record {
  id = id;
  chain = codes "BASE";
  address = codes "0xAb";
  lane_id = none;
  amount = amount;
  tx = tx;
  block = block;
  time = 100;
}

abbrev added : List Entry
added =
    entry (codes "BASE:0xab:0x1:5:0") (codes "5") (codes "0x1") 7
    ∷ entry (codes "BASE:0xab:0x1:5:1") (codes "5") (codes "0x1") 7
    ∷ entry (codes "BASE:0xab:0x2:6:0") (codes "6") (codes "0x2") 8
    ∷ []

abbrev after : Storage
after = (record_scan always receiver deposits 9 none 100 nothing).0

first : record_scan always receiver deposits 9 none 100 nothing ≡ (after, some added)
unfolding record_scan scan_loop get_history receiver_key wire chain_by_key find_chain to_upper
    upper_unit to_lower lower_unit text_eq seen_id lookup assign to_string digits_loop digit
first = refl

again : record_scan always receiver deposits 9 none 200 after ≡ (after, some [])
unfolding record_scan scan_loop get_history receiver_key wire chain_by_key find_chain to_upper
    upper_unit to_lower lower_unit text_eq seen_id lookup assign to_string digits_loop digit
again = refl

refused : record_scan no_room receiver deposits 9 none 100 nothing ≡ (nothing, none)
unfolding record_scan scan_loop get_history receiver_key wire chain_by_key find_chain to_upper
    upper_unit to_lower lower_unit text_eq seen_id lookup assign to_string digits_loop digit
refused = refl

record_scan-again_example : (◌≡◌ {A = List Entry} [] []) × (get_history after ≡ get_history after)
record_scan-again_example =
    record_scan-again always receiver deposits 9 9 none none 100 200 nothing after after added []
      first (unfold get_history in omega arith) again

record_scan_complete_example : map paid_entry added ≡ map paid deposits
record_scan_complete_example =
    record_scan_complete always receiver deposits 9 none 100 nothing after added
      (unfold get_history in refl) first

history-record_scan_example :
    (length (get_history after) ≤ max_history)
    × (get_history after ≡ take max_history (reverse added ++ get_history nothing))
history-record_scan_example =
    history-record_scan always receiver deposits 9 none 100 nothing after added
      (unfold get_history in omega arith) first

keys-differ :
    receiver_key (codes "BASE") (codes "0xAc") ≢ receiver_key (codes "BASE") (codes "0xAb")
unfolding receiver_key wire chain_by_key find_chain to_upper upper_unit to_lower lower_unit text_eq
keys-differ h =
    let same : false ≡ true =
      (text_eq_iff (receiver_key (codes "BASE") (codes "0xAc"))
          (receiver_key (codes "BASE") (codes "0xAb"))).1
        h in
    cc
