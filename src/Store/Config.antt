-- ===== src/Store/Config.antt =====
-- store.js: the fields of a lane in a backup, and `sanitizeStealthConfig`.
use open_beanie.Base.{
  Bool, true, false, not, ◌&&◌, ◌||◌, ◌==◌, leb, if◌then◌else◌, List, [], ◌∷◌, Option, none, some,
  Text, codes, length, drop, all,
}
use open_beanie.Base.Json.{
  Value, undefined, null, bool, nat, number, str, arr, obj, Fields, end, field, prop, truthy,
  text_of,
}
use open_beanie.Base.Strings.{to_lower, trim, of_string, is_digit}
use open_beanie.Chains.{evm, starknet, solana, Chain, chain_by_key}
use open_beanie.Chains.Ready.{is_hex_text}
use open_beanie.Identity.{canonical_address, canonical_evm}

abbrev pub opt_string : Value → Value
opt_string (str t) = if leb (length t) 2048 then str t else null
opt_string _ = null

abbrev pub opt_int : Value → Value
opt_int (nat n) = nat n
opt_int _ = null

-- `Number` of a text, where it is a natural number in digits or in hex. Spellings like 1e3 or 5.0
-- are not read.
abbrev pub number_text : Text → Value
number_text [] = nat 0
number_text (c ∷ t) =
    if all is_digit (c ∷ t)
    then nat (of_string 10 (c ∷ t))
    else if is_hex_text 1 (length t) (c ∷ t)
    then nat (of_string 16 (drop 1 t))
    else null

-- `Number(v)`, where it is a natural number.
abbrev pub number_of : Value → Value
unfolding text_of
number_of undefined = null
number_of null = nat 0
number_of (bool b) = nat (if b then 1 else 0)
number_of (nat n) = nat n
number_of (number t f) = number t f
number_of (str t) = number_text (trim t)
number_of (arr vs) = number_text (trim (text_of (arr vs)))
number_of (obj _) = null

abbrev pub felt_string : Value → Value
felt_string (str t) = if is_hex_text 1 64 t then str (to_lower t) else null
felt_string _ = null

abbrev pub str_or_null : Option Text → Value
str_or_null none = null
str_or_null (some t) = str t

-- `String(v ?? "")`
unfoldable pub nullish_text : Value → Text
unfolding text_of
nullish_text undefined = []
nullish_text null = []
nullish_text v = text_of v

abbrev pub address_string : Text → Value → Value
address_string chain v = str_or_null (canonical_address chain (nullish_text v))

abbrev pub is_object : Value → Bool
is_object (obj _) = true
is_object (arr _) = true
is_object _ = false

abbrev pub or_value : Value → Value → Value
or_value null d = d
or_value v d = v

abbrev pub all_truthy : List Value → Bool
unfolding truthy
all_truthy = all truthy

unfoldable pub evm_config : Text → Value → Value
unfolding prop truthy
evm_config chain raw =
    let factory = address_string chain (prop (codes "factory") raw) in
    let cosigner = address_string chain (prop (codes "cosigner") raw) in
    let chain_id = opt_int (number_of (prop (codes "chainId") raw)) in
    let usdc = address_string chain (prop (codes "usdc") raw) in
    let name = opt_string (prop (codes "name") (prop (codes "eip712") raw)) in
    let version = opt_string (prop (codes "version") (prop (codes "eip712") raw)) in
    if all_truthy (factory ∷ cosigner ∷ chain_id ∷ usdc ∷ name ∷ version ∷ [])
    then obj (
        field (codes "factory") factory (
          field (codes "cosigner") cosigner (
            field (codes "chainId") chain_id (
              field (codes "usdc") usdc (
                field (codes "eip712")
                  (obj (field (codes "name") name (field (codes "version") version end)))
                  (field (codes "maxAuthWindowSecs")
                    (or_value (opt_int (prop (codes "maxAuthWindowSecs") raw)) (nat 86400))
                    end))))))
    else null

-- `/^(0x[0-9a-f]+|[0-9]+)$/i`
abbrev pub is_amount : Value → Bool
is_amount (str t) = is_hex_text 1 (length t) t || (not (length t == 0) && all is_digit t)
is_amount _ = false

abbrev pub bound_names : List Text
bound_names = codes "l1_gas" ∷ codes "l2_gas" ∷ codes "l1_data_gas" ∷ []

abbrev pub is_bound : Value → Text → Bool
unfolding prop
is_bound bounds k =
    is_amount (prop (codes "max_amount") (prop k bounds))
    && is_amount (prop (codes "max_price_per_unit") (prop k bounds))

unfoldable pub bounds_of : List Text → Value → Fields
unfolding prop
bounds_of [] bounds = end
bounds_of (k ∷ ks) bounds =
    field k
      (obj (
        field (codes "max_amount") (prop (codes "max_amount") (prop k bounds)) (
          field (codes "max_price_per_unit") (prop (codes "max_price_per_unit") (prop k bounds))
            end)))
      (bounds_of ks bounds)

unfoldable pub starknet_config : Text → Value → Value
unfolding prop truthy bounds_of
starknet_config chain raw =
    let class_hash = felt_string (prop (codes "classHash") raw) in
    let cosigner = str_or_null (canonical_evm (nullish_text (prop (codes "cosigner") raw))) in
    let chain_id = felt_string (prop (codes "chainId") raw) in
    let usdc = address_string chain (prop (codes "usdc") raw) in
    let max_fee_fri = opt_string (prop (codes "maxFeeFri") raw) in
    let bounds = prop (codes "resourceBounds") raw in
    if all_truthy (class_hash ∷ cosigner ∷ chain_id ∷ usdc ∷ max_fee_fri ∷ bounds ∷ [])
      && all (is_bound bounds) bound_names
    then obj (
        field (codes "classHash") class_hash (
          field (codes "cosigner") cosigner (
            field (codes "chainId") chain_id (
              field (codes "usdc") usdc (
                field (codes "maxFeeFri") max_fee_fri
                  (field (codes "resourceBounds") (obj (bounds_of bound_names bounds)) end))))))
    else null

unfoldable pub solana_config : Text → Value → Value
unfolding prop truthy
solana_config chain raw =
    let cosigner = address_string chain (prop (codes "cosigner") raw) in
    let relayer = address_string chain (prop (codes "relayer") raw) in
    let usdc = address_string chain (prop (codes "usdc") raw) in
    if all_truthy (cosigner ∷ relayer ∷ usdc ∷ [])
    then obj (
        field (codes "cosigner") cosigner
          (field (codes "relayer") relayer (field (codes "usdc") usdc end)))
    else null

abbrev pub config_for : Option Chain → Text → Value → Value
unfolding evm_config starknet_config solana_config
config_for none chain raw = null
config_for (some c) chain raw = elim c.kind [
  | evm ↦ evm_config chain raw
  | starknet ↦ starknet_config chain raw
  | solana ↦ solana_config chain raw
]

unfoldable pub sanitize_stealth_config : Value → Text → Value
sanitize_stealth_config raw chain =
    if is_object raw then config_for (chain_by_key chain) chain raw else null
