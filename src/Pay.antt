-- ===== src/Pay.antt =====
-- The link of a lane: lane.js, `laneShareUrl`, and pay.js, `parseLink`. How the browser writes the
-- parameters into a URL and reads them again is its own; here a link is their list.
pub mod Shared
pub mod Checkout
use open_beanie.Base.{
  ℕ, Bool, true, false, not, ◌&&◌, ◌==◌, if◌then◌else◌, List, [], ◌∷◌, ◌++◌, map, Option, none,
  some, Text, text_eq, codes,
}
use open_beanie.Base.Json.{Value, prop, truthy, as_array}
use open_beanie.Chains.{Chain, find_chain, chains, wire}
use open_beanie.Identity.{canonical_address}
use open_beanie.Store.{Storage}
use open_beanie.Store.Lanes.{key_text, get_lane, items}
use open_beanie.Lane.Record.{LaneReceiver, LaneRecord}

abbrev pub Params : Type 0
Params = List (Text × Text)

pub record Route : Type 0 where
  pub chain : Text
  pub address : Text

-- `lane=`, `target=` and `merchant=` with no text are empty.
pub record Link : Type 0 where
  pub lane_id : Text
  pub routes : List Route
  pub target : Text
  pub merchant : Text

abbrev pub route_pair : LaneReceiver → Text
route_pair r = r.chain ++ (b':' ∷ r.address)

abbrev pub route_param : LaneReceiver → Text × Text
route_param r = (codes "r", route_pair r)

abbrev pub privacy_params : Bool → Params
privacy_params true = (codes "privacy", codes "1") ∷ []
privacy_params false = []

unfoldable pub lane_share_params : LaneRecord → Params
lane_share_params lane =
    (codes "lane", lane.id)
    ∷ (codes "target", lane.target_chain)
    ∷ (codes "merchant", lane.target_recipient)
    ∷ (privacy_params lane.privacy ++ map route_param lane.receivers)

-- `params.get(k) || ""`, the first value of a name.
unfoldable pub get_param : Text → Params → Text
unfolding text_eq
get_param k [] = []
get_param k (p ∷ ps) = if text_eq p.0 k then p.1 else get_param k ps

unfoldable pub get_all : Text → Params → List Text
unfolding text_eq
get_all k [] = []
get_all k (p ∷ ps) = let rest = get_all k ps in if text_eq p.0 k then p.1 ∷ rest else rest

abbrev pub in_front : ℕ → Option (Text × Text) → Option (Text × Text)
in_front c none = none
in_front c (some (a, b)) = some (c ∷ a, b)

-- The texts before and behind the first colon.
unfoldable pub split_colon : Text → Option (Text × Text)
split_colon [] = none
split_colon (c ∷ t) =
    let rest = split_colon t in if c == b':' then some ([], t) else in_front c rest

abbrev pub is_known : Text → Bool
unfolding find_chain
is_known key = elim (find_chain key chains) [ none ↦ false | some _ ↦ true ]

abbrev pub route_on : Text → Option Text → Option Route
unfolding find_chain
route_on chain none = none
route_on chain (some address) =
    if is_known chain then some (record { chain = chain; address = address }) else none

abbrev pub route_of : Option (Text × Text) → Option Route
unfolding find_chain wire canonical_address
route_of none = none
route_of (some pair) = route_on (wire pair.0) (canonical_address (wire pair.0) pair.1)

-- `.map(…).filter(Boolean)`
unfoldable pub parse_routes : List Text → List Route
unfolding split_colon find_chain wire canonical_address
parse_routes [] = []
parse_routes (t ∷ ts) =
    let rest = parse_routes ts in
    elim (route_of (split_colon t)) [ none ↦ rest | some r ↦ r ∷ rest ]

-- `a || b`
abbrev pub or_else : Text → Text → Text
or_else [] b = b
or_else (c ∷ t) b = c ∷ t

abbrev pub stored_route : Value → Route
unfolding prop key_text
stored_route r = record {
  chain = key_text (prop (codes "chain") r);
  address = key_text (prop (codes "address") r);
}

abbrev pub from_lane : Value → Link → Link
unfolding prop key_text
from_lane lane link = record {
  lane_id = link.lane_id;
  routes = map stored_route (items (as_array (prop (codes "receivers") lane)));
  target = or_else link.target (key_text (prop (codes "targetChain") lane));
  merchant = or_else link.merchant (key_text (prop (codes "targetRecipient") lane));
}

abbrev pub lane_or_link : Option Value → Link → Link
unfolding prop truthy key_text
lane_or_link none link = link
lane_or_link (some lane) link =
    if truthy (prop (codes "needsVerify") lane) then link else from_lane lane link

-- In the merchant's own browser, a link without routes is filled from the lane that is stored.
abbrev pub with_stored : Storage → Link → Link
unfolding get_lane prop truthy key_text
with_stored s link = elim link.routes [
  | [] ↦ elim link.lane_id [ [] ↦ link | _ ↦ lane_or_link (get_lane link.lane_id s) link ]
  | _ ↦ link
]

abbrev pub known_target : Link → Link
unfolding find_chain
known_target link = if is_known link.target then link else record link { target = [] }

abbrev pub merchant_for : Text → Text → Option Text → Text
merchant_for [] merchant c = merchant
merchant_for (t ∷ ts) merchant none = []
merchant_for (t ∷ ts) merchant (some _) = merchant

abbrev pub known_merchant : Link → Link
unfolding canonical_address
known_merchant link = record link {
  merchant = merchant_for link.target link.merchant (canonical_address link.target link.merchant);
}

abbrev pub linked : Params → Link
unfolding get_param get_all parse_routes wire
linked ps = record {
  lane_id = get_param (codes "lane") ps;
  routes = parse_routes (get_all (codes "r") ps);
  target = wire (get_param (codes "target") ps);
  merchant = get_param (codes "merchant") ps;
}

unfoldable pub parse_link : Storage → Params → Link
unfolding get_param get_all parse_routes wire find_chain canonical_address get_lane prop truthy
    key_text
parse_link s ps = known_merchant (known_target (with_stored s (linked ps)))
