-- ===== src/Store/Lanes.antt =====
-- store.js: the lanes that are kept, as the values that `JSON.parse` gives.
pub mod Marked
use open_beanie.Base.{
  Bool, true, false, not, ◌&&◌, if◌then◌else◌, List, [], ◌∷◌, Option, none, some, Text, text_eq,
  codes, all,
}
use open_beanie.Base.Json.{
  Value, str, arr, obj, nil, Fields, end, field, of_list, prop, truthy, text_of, as_string,
  as_array,
}
use open_beanie.Chains.{Chain, chain_by_key}
use open_beanie.Store.{stored, Storage, read, write}

-- `String(key || "")`
unfoldable pub key_text : Value → Text
unfolding text_of truthy
key_text v = if truthy v then text_of v else []

abbrev pub is_known : Option Chain → Bool
is_known none = false
is_known (some _) = true

-- `chainByKey(v)` is not null. The keys of the table are upper case, like every text looked up.
abbrev pub has_chain : Value → Bool
has_chain v = is_known (chain_by_key (key_text v))

abbrev pub is_string : Value → Bool
is_string (str _) = true
is_string _ = false

unfoldable pub is_receiver : Value → Bool
unfolding truthy prop
is_receiver r =
    truthy r && has_chain (prop (codes "chain") r) && is_string (prop (codes "address") r)

abbrev pub all_receivers : Option (List Value) → Bool
all_receivers none = false
all_receivers (some rs) = all is_receiver rs

unfoldable pub is_lane : Value → Bool
unfolding truthy prop
is_lane l =
    truthy l
    && is_string (prop (codes "id") l)
    && has_chain (prop (codes "targetChain") l)
    && all_receivers (as_array (prop (codes "receivers") l))

unfoldable pub filter_values : (Value → Bool) → List Value → List Value
filter_values p [] = []
filter_values p (v ∷ vs) = let rest = filter_values p vs in if p v then v ∷ rest else rest

abbrev pub items : Option (List Value) → List Value
items none = []
items (some vs) = vs

unfoldable pub get_lanes : Storage → List Value
unfolding filter_values is_lane
get_lanes s = filter_values is_lane (items (as_array (read s.lanes (arr nil))))

-- `l.id === id`, for a text `id`
unfoldable pub has_id : Text → Value → Bool
unfolding prop
has_id id l = elim (as_string (prop (codes "id") l)) [ none ↦ false | some i ↦ text_eq i id ]

unfoldable pub find_lane : Text → List Value → Option Value
find_lane id [] = none
find_lane id (l ∷ ls) = if has_id id l then some l else find_lane id ls

unfoldable pub get_lane : Text → Storage → Option Value
unfolding find_lane get_lanes
get_lane id s = find_lane id (get_lanes s)

-- `delete v[k]`
unfoldable pub remove_field : Text → Fields → Fields
remove_field k end = end
remove_field k (field j v fs) =
    let rest = remove_field k fs in if text_eq k j then rest else field j v rest

pub without : Text → Value → Value
unfolding remove_field
without k (obj fs) = obj (remove_field k fs)
without k v = v

-- The change of the lane that was found, which is the first.
unfoldable pub verify_first : Text → List Value → List Value
verify_first id [] = []
verify_first id (l ∷ ls) =
    let rest = verify_first id ls in
    if has_id id l then without (codes "needsVerify") l ∷ ls else l ∷ rest

module _ (fits : Storage → Bool) where
  abbrev pub put_lanes : List Value → Storage → Storage × Bool
  put_lanes ls s = write fits s (record s { lanes = stored (arr (of_list ls)) })

  -- The lane has the id `id`. Whether the storage took it is told.
  unfoldable pub save_lane : Text → Value → Storage → Storage × Bool
  unfolding get_lanes filter_values
  save_lane id lane s = put_lanes (lane ∷ filter_values (λ l. not (has_id id l)) (get_lanes s)) s

  unfoldable pub mark_verified : Text → Storage → Storage × Bool
  unfolding get_lanes find_lane verify_first
  mark_verified id s = elim (find_lane id (get_lanes s)) [
    | none ↦ (s, false)
    | some _ ↦ put_lanes (verify_first id (get_lanes s)) s
  ]
