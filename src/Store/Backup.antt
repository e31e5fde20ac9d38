-- ===== src/Store/Backup.antt =====
-- store.js: the backup. What a file holds is checked field by field, and lanes that are there stay.
pub mod Loop
pub mod Import
use open_beanie.Base.{
  ℕ, zero, suc, ◌+◌, Bool, true, false, not, ◌&&◌, ◌||◌, ◌==◌, leb, if◌then◌else◌, List, [], ◌∷◌,
  ◌++◌, map, Option, none, some, Text, text_eq, codes, length, drop, all,
}
use open_beanie.Base.Json.{
  Value, undefined, null, bool, nat, number, str, arr, obj, Fields, end, field, of_list, prop,
  truthy, text_of, as_string, as_array,
}
use open_beanie.Base.Result.{Result, ok, err}
use open_beanie.Base.Strings.{to_lower, trim, of_string, is_hex, is_digit}
use open_beanie.Chains.{Kind, evm, starknet, solana, Chain, chain_by_key, wire}
use open_beanie.Chains.Ready.{is_hex_text}
use open_beanie.Identity.{canonical_address, canonical_evm}
use open_beanie.Store.{Storage}
use open_beanie.Store.Lanes.{key_text, get_lanes, save_lane, items, is_known}
use open_beanie.Store.Config.{opt_string, opt_int, nullish_text, or_value, sanitize_stealth_config}

-- `/^[A-Za-z0-9_-]{1,128}$/`
abbrev pub is_id_unit : ℕ → Bool
is_id_unit c =
    (leb b'A' c && leb c b'Z') || (leb b'a' c && leb c b'z') || is_digit c || c == b'_' || c == b'-'

abbrev pub is_lane_id : Text → Bool
is_lane_id t = leb 1 (length t) && leb (length t) 128 && all is_id_unit t

unfoldable pub receiver_value : Text → Text → Value → Value
unfolding prop
receiver_value chain address r = obj (
    field (codes "chain") (str chain) (
      field (codes "address") (str address) (
        field (codes "merchant") (opt_string (prop (codes "merchant") r))
          (field (codes "startBlock") (opt_int (prop (codes "startBlock") r)) end))))

-- The loop over the receivers; one that is refused ends it.
unfoldable pub sanitize_receivers : List Value → Option (List Value)
unfolding prop
sanitize_receivers [] = some []
sanitize_receivers (r ∷ rs) =
    let rest = sanitize_receivers rs in
    let chain = wire (key_text (prop (codes "chain") r)) in
    elim (canonical_address chain (nullish_text (prop (codes "address") r))) [
      | none ↦ none
      | some address ↦
          if is_known (chain_by_key chain)
          then elim rest [ none ↦ none | some vs ↦ some (receiver_value chain address r ∷ vs) ]
          else none
    ]

abbrev pub is_finite : Value → Bool
is_finite (nat _) = true
is_finite (number _ f) = f
is_finite _ = false

-- The lane that is made of a file's, with its id, target, recipient and receivers.
unfoldable pub lane_value : Value → ℕ → Text → Text → Text → List Value → Value
unfolding prop truthy sanitize_stealth_config
lane_value raw now id target recipient receivers = obj (
    field (codes "v") (nat 2) (
      field (codes "id") (str id) (
        field (codes "privacy") (bool (truthy (prop (codes "privacy") raw))) (
          field (codes "targetChain") (str target) (
            field (codes "targetRecipient") (str recipient) (
              field (codes "merchantAddress") (opt_string (prop (codes "merchantAddress") raw)) (
                field (codes "index") (or_value (opt_int (prop (codes "index") raw)) (nat 0)) (
                  field (codes "prfCredentialId") (opt_string (prop (codes "prfCredentialId") raw))
                    (field (codes "webhookUrl") (opt_string (prop (codes "webhookUrl") raw)) (
                      field (codes "createdAt")
                        (if is_finite (prop (codes "createdAt") raw)
                          then prop (codes "createdAt") raw
                          else nat now)
                        (field (codes "stealthConfig")
                          (sanitize_stealth_config (prop (codes "stealthConfig") raw) target)
                          (field (codes "receivers") (arr (of_list receivers))
                            (field (codes "needsVerify") (bool true) end)))))))))))))

-- A lane that is accepted, with its id.
pub record Sanitized : Type 0 where
  pub id : Text
  pub lane : Value

unfoldable pub receivers_of : Value → Option (List Value)
unfolding prop sanitize_receivers
receivers_of raw = elim (as_array (prop (codes "receivers") raw)) [
  | none ↦ none
  | some rs ↦ if length rs == 0 || not (leb (length rs) 8) then none else sanitize_receivers rs
]

unfoldable pub sanitize_lane : Value → ℕ → Option Sanitized
unfolding prop
sanitize_lane raw now =
    let target = wire (key_text (prop (codes "targetChain") raw)) in
    elim (as_string (prop (codes "id") raw)) [
      | none ↦ none
      | some id ↦
          elim (canonical_address target (nullish_text (prop (codes "targetRecipient") raw))) [
            | none ↦ none
            | some recipient ↦ elim (receivers_of raw) [
              | none ↦ none
              | some receivers ↦
                  if is_lane_id id && is_known (chain_by_key target)
                  then some
                      (record { id = id; lane = lane_value raw now id target recipient receivers })
                  else none
            ]
          ]
    ]

pub data ImportError : Type 0 where
  not_json : ImportError
  not_backup : ImportError

pub record Counts : Type 0 where
  pub added : ℕ
  pub skipped : ℕ

unfoldable pub has_text_in : Text → List Text → Bool
has_text_in t [] = false
has_text_in t (s ∷ ss) = if text_eq t s then true else has_text_in t ss

-- The ids of the lanes, which are texts.
unfoldable pub lane_ids : List Value → List Text
unfolding prop
lane_ids [] = []
lane_ids (l ∷ ls) = elim (as_string (prop (codes "id") l)) [
  | none ↦ lane_ids ls
  | some id ↦ id ∷ lane_ids ls
]

module _ (fits : Storage → Bool) (now : ℕ) where
  -- The loop over the file's lanes, with the ids that are there and the counts so far.
  unfoldable pub import_loop : List Value → List Text → Counts → Storage → Storage × Counts
  unfolding sanitize_lane save_lane has_text_in
  import_loop [] existing n s = (s, n)
  import_loop (raw ∷ raws) existing n s = elim (sanitize_lane raw now) [
    | none ↦ import_loop raws existing (record n { skipped = n.skipped + 1 }) s
    | some c ↦
        let saved = save_lane fits c.id c.lane s in
        if has_text_in c.id existing
        then import_loop raws existing (record n { skipped = n.skipped + 1 }) s
        else if saved.1
        then import_loop raws (c.id ∷ existing) (record n { added = n.added + 1 }) saved.0
        else import_loop raws existing (record n { skipped = n.skipped + 1 }) saved.0
  ]

  -- `none` is a text that `JSON.parse` refuses.
  unfoldable pub import_backup : Option Value → Storage → Storage × Result ImportError Counts
  unfolding prop import_loop get_lanes lane_ids
  import_backup none s = (s, err not_json)
  import_backup (some data_value) s = elim (as_string (prop (codes "app") data_value)) [
    | none ↦ (s, err not_backup)
    | some app ↦ elim (as_array (prop (codes "lanes") data_value)) [
      | none ↦ (s, err not_backup)
      | some raws ↦
          let run =
            import_loop raws (lane_ids (get_lanes s)) (record { added = 0; skipped = 0 }) s in
          if text_eq app (codes "beanie") then (run.0, ok run.1) else (s, err not_backup)
    ]
  ]
