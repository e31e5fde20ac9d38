-- ===== src/Lane/Record.antt =====
-- lane.js, the lane that `createLane` stores, and as `verifyLane` reads it.
use open_beanie.Base.{ℕ, Bool, List, [], Option, none, some, Text, codes, map}
use open_beanie.Base.Json.{Value, null, bool, nat, str, arr, obj, Fields, end, field, of_list}
use open_beanie.Chains.{Bound, ResourceBounds, Eip712}
use open_beanie.Chains.Config.{ChainId, number, felt, StealthConfig}
use open_beanie.Lane.{StoredReceiver, StoredLane}

-- A receiver of a lane, with the block that its watching starts at.
pub record LaneReceiver : Type 0 where
  pub chain : Text
  pub address : Text
  pub merchant : Text
  pub start_block : Option ℕ

pub record LaneRecord : Type 0 where
  pub id : Text
  pub privacy : Bool
  pub target_chain : Text
  pub target_recipient : Text
  pub merchant_address : Option Text
  pub index : ℕ
  pub prf_credential_id : Option Text
  pub webhook_url : Option Text
  pub created_at : ℕ
  pub stealth_config : Option StealthConfig
  pub receivers : List LaneReceiver

-- A field that is missing is left out by `JSON.stringify`.
abbrev opt_field : Text → Option Value → Fields → Fields
opt_field k none fs = fs
opt_field k (some v) fs = field k v fs

abbrev opt_map : {A : Type 0} → (A → Value) → Option A → Option Value
opt_map f none = none
opt_map f (some a) = some (f a)

abbrev or_null : {A : Type 0} → (A → Value) → Option A → Value
or_null f none = null
or_null f (some a) = f a

abbrev chain_id_value : ChainId → Value
chain_id_value (number n) = nat n
chain_id_value (felt t) = str t

abbrev eip712_value : Eip712 → Value
eip712_value e =
    obj (field (codes "name") (str e.name) (field (codes "version") (str e.version) end))

abbrev bound_value : Bound → Value
bound_value b = obj (
    field (codes "max_amount") (str b.max_amount)
      (field (codes "max_price_per_unit") (str b.max_price_per_unit) end))

abbrev bounds_value : ResourceBounds → Value
bounds_value r = obj (
    field (codes "l1_gas") (bound_value r.l1_gas) (
      field (codes "l2_gas") (bound_value r.l2_gas)
        (field (codes "l1_data_gas") (bound_value r.l1_data_gas) end)))

abbrev text_value : Text → Value
text_value t = str t

abbrev number_value : ℕ → Value
number_value n = nat n

unfoldable pub config_value : StealthConfig → Value
config_value c = obj (
    opt_field (codes "factory") (opt_map text_value c.factory) (
      opt_field (codes "cosigner") (opt_map text_value c.cosigner) (
        opt_field (codes "relayer") (opt_map text_value c.relayer) (
          opt_field (codes "classHash") (opt_map text_value c.class_hash) (
            opt_field (codes "usdc") (opt_map text_value c.usdc) (
              opt_field (codes "chainId") (opt_map chain_id_value c.chain_id) (
                opt_field (codes "eip712") (opt_map eip712_value c.eip712) (
                  opt_field (codes "maxAuthWindowSecs")
                    (opt_map number_value c.max_auth_window_secs)
                    (opt_field (codes "maxFeeFri") (opt_map text_value c.max_fee_fri) (
                      opt_field (codes "resourceBounds") (opt_map bounds_value c.resource_bounds)
                        end))))))))))

abbrev receiver_value : LaneReceiver → Value
receiver_value r = obj (
    field (codes "chain") (str r.chain) (
      field (codes "address") (str r.address) (
        field (codes "merchant") (str r.merchant)
          (field (codes "startBlock") (or_null number_value r.start_block) end))))

-- The lane as it is stored.
unfoldable pub record_value : LaneRecord → Value
unfolding config_value
record_value l = obj (
    field (codes "v") (nat 2) (
      field (codes "id") (str l.id) (
        field (codes "privacy") (bool l.privacy) (
          field (codes "targetChain") (str l.target_chain) (
            field (codes "targetRecipient") (str l.target_recipient) (
              field (codes "merchantAddress") (or_null text_value l.merchant_address) (
                field (codes "index") (nat l.index) (
                  field (codes "prfCredentialId") (or_null text_value l.prf_credential_id) (
                    field (codes "webhookUrl") (or_null text_value l.webhook_url) (
                      field (codes "createdAt") (nat l.created_at) (
                        field (codes "stealthConfig") (or_null config_value l.stealth_config) (
                          field (codes "receivers") (arr (of_list (map receiver_value l.receivers)))
                            end))))))))))))

abbrev pub stored_receiver : LaneReceiver → StoredReceiver
stored_receiver r = record { chain = r.chain; address = r.address }

abbrev pub text_or_empty : Option Text → Text
text_or_empty none = []
text_or_empty (some t) = t

-- The lane as `verifyLane` reads it.
abbrev pub stored_lane : LaneRecord → StoredLane
stored_lane l = record {
  id = l.id;
  privacy = l.privacy;
  target_chain = l.target_chain;
  target_recipient = l.target_recipient;
  merchant_address = text_or_empty l.merchant_address;
  receivers = map stored_receiver l.receivers;
  index = l.index;
  prf_credential_id = l.prf_credential_id;
  stealth_config = l.stealth_config;
}
