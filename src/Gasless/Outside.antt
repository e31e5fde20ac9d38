-- ===== src/Gasless/Outside.antt =====
-- gasless.js, the typed data of a SNIP-9 outside execution, in its two versions.
use open_beanie.Base.{ℕ, List, [], ◌∷◌, map, Text, codes, length, String}
use open_beanie.Base.Json.{Value, nat, str, arr, obj, Fields, end, field, of_list}
use open_beanie.Gasless.Evm.{typed_field}

pub data Version : Type 0 where
  v1 v2 : Version

abbrev pub version_text : Version → Text
version_text v1 = codes "1"
version_text v2 = codes "2"

pub record StarknetCall : Type 0 where
  pub to : Text
  pub selector : Text
  pub calldata : List Text

pub record Execution : Type 0 where
  pub caller : Text
  pub nonce : Text
  pub execute_after : ℕ
  pub execute_before : ℕ
  pub calls : List StarknetCall

abbrev pub texts : List Text → Value
texts ts = arr (of_list (map (λ t. str t) ts))

abbrev pub fields_of : List (String × Value) → Fields
fields_of [] = end
fields_of ((k, v) ∷ kvs) = field (codes k) v (fields_of kvs)

abbrev pub type_of : List (String × String) → Value
type_of fs = arr (of_list (map (λ (f : String × String). typed_field f.0 f.1) fs))

-- `TYPES_REV0`
abbrev pub types_rev0 : Value
types_rev0 = obj (
    fields_of (
      (
        "StarkNetDomain",
        type_of (("name", "felt") ∷ ("version", "felt") ∷ ("chainId", "felt") ∷ []),
      )
      ∷ (
        "OutsideExecution",
        type_of (
            ("caller", "felt")
            ∷ ("nonce", "felt")
            ∷ ("execute_after", "felt")
            ∷ ("execute_before", "felt")
            ∷ ("calls_len", "felt")
            ∷ ("calls", "OutsideCall*")
            ∷ []),
      )
      ∷ (
        "OutsideCall",
        type_of (
            ("to", "felt")
            ∷ ("selector", "felt")
            ∷ ("calldata_len", "felt")
            ∷ ("calldata", "felt*")
            ∷ []),
      )
      ∷ []))

-- `TYPES_REV1`
abbrev pub types_rev1 : Value
types_rev1 = obj (
    fields_of (
      (
        "StarknetDomain",
        type_of (
            ("name", "shortstring")
            ∷ ("version", "shortstring")
            ∷ ("chainId", "shortstring")
            ∷ ("revision", "shortstring")
            ∷ []),
      )
      ∷ (
        "OutsideExecution",
        type_of (
            ("Caller", "ContractAddress")
            ∷ ("Nonce", "felt")
            ∷ ("Execute After", "u128")
            ∷ ("Execute Before", "u128")
            ∷ ("Calls", "Call*")
            ∷ []),
      )
      ∷ (
        "Call",
        type_of (("To", "ContractAddress") ∷ ("Selector", "selector") ∷ ("Calldata", "felt*") ∷ []),
      )
      ∷ []))

abbrev pub call_rev1 : StarknetCall → Value
call_rev1 c = obj (
    fields_of
      (("To", str c.to) ∷ ("Selector", str c.selector) ∷ ("Calldata", texts c.calldata) ∷ []))

abbrev pub call_rev0 : StarknetCall → Value
call_rev0 c = obj (
    fields_of (
      ("to", str c.to)
      ∷ ("selector", str c.selector)
      ∷ ("calldata", texts c.calldata)
      ∷ ("calldata_len", nat (length c.calldata))
      ∷ []))

abbrev pub message_rev1 : Execution → Value
message_rev1 e = obj (
    fields_of (
      ("Caller", str e.caller)
      ∷ ("Nonce", str e.nonce)
      ∷ ("Execute After", nat e.execute_after)
      ∷ ("Execute Before", nat e.execute_before)
      ∷ ("Calls", arr (of_list (map call_rev1 e.calls)))
      ∷ []))

abbrev pub message_rev0 : Execution → Value
message_rev0 e = obj (
    fields_of (
      ("caller", str e.caller)
      ∷ ("nonce", str e.nonce)
      ∷ ("execute_after", nat e.execute_after)
      ∷ ("execute_before", nat e.execute_before)
      ∷ ("calls", arr (of_list (map call_rev0 e.calls)))
      ∷ ("calls_len", nat (length e.calls))
      ∷ []))

abbrev pub outside_domain : Version → Text → List (String × Value) → Value
outside_domain version chain_id more = obj (
    fields_of (
      ("name", str (codes "Account.execute_from_outside"))
      ∷ ("version", str (version_text version))
      ∷ ("chainId", str chain_id)
      ∷ more))

unfoldable pub build_typed_data : Execution → Text → Version → Value
build_typed_data e chain_id v2 = obj (
    fields_of (
      ("types", types_rev1)
      ∷ ("primaryType", str (codes "OutsideExecution"))
      ∷ ("domain", outside_domain v2 chain_id (("revision", str (codes "1")) ∷ []))
      ∷ ("message", message_rev1 e)
      ∷ []))
build_typed_data e chain_id v1 = obj (
    fields_of (
      ("types", types_rev0)
      ∷ ("primaryType", str (codes "OutsideExecution"))
      ∷ ("domain", outside_domain v1 chain_id [])
      ∷ ("message", message_rev0 e)
      ∷ []))
