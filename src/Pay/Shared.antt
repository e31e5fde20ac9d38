-- ===== src/Pay/Shared.antt =====
-- A link that is shared reads back.
use open_beanie.Base.{
  ◌≡◌, refl, ap, ◌∙◌, Bool, true, ◌&&◌, not, ◌==◌, List, [], ◌∷◌, ◌++◌, map, Option, some, Text,
  text_eq, text_eq→eq, codes, All, all, Bool-cases, inl, inr, &&-true,
}
use open_beanie.Base.Strings.{to_upper, upper_unit}
use open_beanie.Chains.{Chain, find_chain, chains, wire}
use open_beanie.Identity.{canonical_address}
use open_beanie.Store.{Storage}
use open_beanie.Lane.Record.{LaneReceiver, LaneRecord}
use open_beanie.Pay.{
  Route, Link, route_pair, route_param, lane_share_params, get_param, get_all, split_colon,
  is_known, route_on, route_of, parse_routes, with_stored, known_target, known_merchant, linked,
  parse_link, merchant_for,
}

-- A key of the table is in upper case and has no colon.
abbrev no_colon : Text → Bool
no_colon t = all (λ c. not (c == b':')) t

abbrev is_plain : Text → Bool
unfolding wire text_eq
is_plain k = text_eq (wire k) k && no_colon k

abbrev all_plain : List Chain → Bool
unfolding wire text_eq
all_plain cs = all (λ (c : Chain). is_plain c.key) cs

chains_plain : all_plain chains ≡ true
unfolding wire to_upper upper_unit text_eq
chains_plain = refl

find_chain-plain :
    (k : Text) (cs : List Chain) (c : Chain)
    → all_plain cs ≡ true
    → find_chain k cs ≡ some c
    → is_plain k ≡ true
unfolding find_chain is_plain all_plain
find_chain-plain k (d ∷ cs) c plain h =
    let (first, others) = &&-true (is_plain d.key) (all_plain cs) plain in
    elim (Bool-cases (text_eq k d.key)) [
      | inl e ↦ let same = text_eq→eq k d.key e in rw same first
      | inr e ↦ find_chain-plain k cs c others (rw (find_chain, e) at h)
    ]
find_chain-plain k [] c plain h = cc

plain : (k : Text) (c : Chain) → find_chain k chains ≡ some c → (wire k ≡ k) × (no_colon k ≡ true)
unfolding is_plain
plain k c h =
    let (a, b) =
      &&-true (text_eq (wire k) k) (no_colon k) (find_chain-plain k chains c chains_plain h) in
    (text_eq→eq (wire k) k a, b)

split_colon-pair :
    (chain address : Text)
    → no_colon chain ≡ true
    → split_colon (chain ++ (b':' ∷ address)) ≡ some (chain, address)
unfolding split_colon
split_colon-pair [] address h = refl
split_colon-pair (c ∷ t) address h =
    let (a, b) = &&-true (not (c == b':')) (no_colon t) h in
    elim (Bool-cases (c == b':')) [
      | inl e ↦ cc (rw e at a)
      | inr e ↦ rw (split_colon, e, split_colon-pair t address b) refl
    ]

-- A receiver on a chain of the table, with its canonical address.
pub record IsShared (r : LaneReceiver) : Type 0 where
  pub on : Chain
  pub is_chain : find_chain r.chain chains ≡ some on
  pub is_canonical : canonical_address r.chain r.address ≡ some r.address

abbrev pub shown : LaneReceiver → Route
shown r = record { chain = r.chain; address = r.address }

is_known-found : (k : Text) (c : Chain) → find_chain k chains ≡ some c → is_known k ≡ true
unfolding is_known
is_known-found k c h = rw (is_known, h) refl

route_on-found :
    (k address : Text) (c : Chain)
    → find_chain k chains ≡ some c
    → route_on k (some address) ≡ some (record { chain = k; address = address })
unfolding route_on
route_on-found k address c h = rw (is_known-found k c h) refl

route_of-pair :
    (r : LaneReceiver) → IsShared r → route_of (split_colon (route_pair r)) ≡ some (shown r)
unfolding route_of
route_of-pair r shared =
    let (upper, clean) = plain r.chain shared.on shared.is_chain in
    ap route_of (split_colon-pair r.chain r.address clean)
    ∙ ap (λ (k : Text). route_on k (canonical_address k r.address)) upper
    ∙ ap (λ (o : Option Text). route_on r.chain o) shared.is_canonical
    ∙ route_on-found r.chain r.address shared.on shared.is_chain

parse_routes-pairs :
    (rs : List LaneReceiver) → All IsShared rs → parse_routes (map route_pair rs) ≡ map shown rs
unfolding parse_routes
parse_routes-pairs [] h = refl
parse_routes-pairs (r ∷ rs) (h, hs) =
    rw (parse_routes, route_of-pair r h, parse_routes-pairs rs hs) refl

get_all-routes :
    (rs : List LaneReceiver) → get_all (codes "r") (map route_param rs) ≡ map route_pair rs
unfolding get_all text_eq
get_all-routes [] = refl
get_all-routes (r ∷ rs) = rw (get_all-routes rs) refl

get_all-shared :
    (lane : LaneRecord)
    → get_all (codes "r") (lane_share_params lane) ≡ map route_pair lane.receivers
unfolding get_all lane_share_params text_eq
get_all-shared lane = elim (Bool-cases lane.privacy) [
  | inl e ↦ rw (e, get_all-routes lane.receivers) refl
  | inr e ↦ rw (e, get_all-routes lane.receivers) refl
]

abbrev link_of : Text → List Route → Text → Text → Link
link_of lane_id routes target merchant = record {
  lane_id = lane_id;
  routes = routes;
  target = target;
  merchant = merchant;
}

linked-shared :
    (lane : LaneRecord)
    → All IsShared lane.receivers
    → wire lane.target_chain ≡ lane.target_chain
    → linked (lane_share_params lane)
      ≡ link_of lane.id (map shown lane.receivers) lane.target_chain lane.target_recipient
unfolding linked get_param lane_share_params text_eq
linked-shared lane shared upper =
    let routes = ap parse_routes (get_all-shared lane) ∙ parse_routes-pairs lane.receivers shared in
    ap (λ (rs : List Route). link_of lane.id rs (wire lane.target_chain) lane.target_recipient)
      routes
    ∙ ap (λ (t : Text). link_of lane.id (map shown lane.receivers) t lane.target_recipient) upper

known_target-known : (link : Link) → is_known link.target ≡ true → known_target link ≡ link
unfolding known_target
known_target-known link h = rw h refl

merchant_for-canonical :
    (target merchant c : Text) → merchant_for target merchant (some c) ≡ merchant
merchant_for-canonical [] merchant c = refl
merchant_for-canonical (t ∷ ts) merchant c = refl

known_merchant-canonical :
    (lane_id target merchant : Text) (rs : List Route) (c : Text)
    → canonical_address target merchant ≡ some c
    → known_merchant (link_of lane_id rs target merchant) ≡ link_of lane_id rs target merchant
unfolding known_merchant
known_merchant-canonical lane_id target merchant rs c h =
    ap (λ (o : Option Text). link_of lane_id rs target (merchant_for target merchant o)) h
    ∙ ap (λ (m : Text). link_of lane_id rs target m) (merchant_for-canonical target merchant c)

-- The link of a lane that has receivers, each on a chain of the table with a canonical address, a
-- target of the table and a canonical recipient, reads back as the id, the receivers, the target
-- and the recipient of the lane, whatever is stored.
pub parse_link-lane_share_params :
    (s : Storage) (lane : LaneRecord) (r : LaneReceiver) (rs : List LaneReceiver) (on : Chain)
    → lane.receivers ≡ r ∷ rs
    → All IsShared lane.receivers
    → find_chain lane.target_chain chains ≡ some on
    → canonical_address lane.target_chain lane.target_recipient ≡ some lane.target_recipient
    → parse_link s (lane_share_params lane) ≡ record {
      lane_id = lane.id;
      routes = map shown lane.receivers;
      target = lane.target_chain;
      merchant = lane.target_recipient;
    }
unfolding parse_link with_stored
parse_link-lane_share_params s lane r rs on e shared known canonical =
    let (upper, _) = plain lane.target_chain on known in
    let link = link_of lane.id (map shown lane.receivers) lane.target_chain lane.target_recipient in
    let stays : with_stored s link ≡ link = rw e refl in
    ap (λ (l : Link). known_merchant (known_target (with_stored s l)))
      (linked-shared lane shared upper)
    ∙ ap (λ (l : Link). known_merchant (known_target l)) stays
    ∙ ap known_merchant (known_target-known link (is_known-found lane.target_chain on known))
    ∙ known_merchant-canonical lane.id lane.target_chain lane.target_recipient
        (map shown lane.receivers) lane.target_recipient canonical
