-- ===== src/Tests/Backup.antt =====
-- The theorems on the import of a backup, with a file of two lanes, one of them there already.
use open_beanie.Base.{◌≡◌, ◌⊎◌, refl, Bool, true, [], ◌∷◌, some, Text, text_eq, codes, inl}
use open_beanie.Base.Json.{
  Value, bool, str, arr, obj, end, field, of_list, prop, field_of, truthy, text_of,
}
use open_beanie.Base.Result.{ok}
use open_beanie.Base.Strings.{to_lower, lower_unit, to_upper, upper_unit, trim, trim_start}
use open_beanie.Chains.{wire, chain_by_key, find_chain}
use open_beanie.Identity.{canonical_address, canonical_evm}
use open_beanie.Store.{absent, stored, Storage}
use open_beanie.Store.Lanes.{
  get_lanes, filter_values, is_lane, save_lane, has_id, key_text, is_receiver,
}
use open_beanie.Store.Backup.{
  receivers_of, lane_value, receiver_value, sanitize_lane, sanitize_receivers, lane_ids,
  has_text_in, import_loop, import_backup,
}
use open_beanie.Store.Backup.Loop.{Among}
use open_beanie.Store.Config.{nullish_text, sanitize_stealth_config}
use open_beanie.Store.Backup.Import.{import_backup_marks, import_backup_keeps}

abbrev always : Storage → Bool
always s = true

-- A lane of a file.
abbrev lane : Text → Value
lane id = obj (
    field (codes "id") (str id) (
      field (codes "targetChain") (str (codes "BASE")) (
        field (codes "targetRecipient") (str (codes "0x833589fCD6eDb6E08f4c7C32D4f71b54bdA02913")) (
          field (codes "receivers")
            (arr (
              of_list (
                obj (
                  field (codes "chain") (str (codes "BASE")) (
                    field (codes "address")
                      (str (codes "0x833589fCD6eDb6E08f4c7C32D4f71b54bdA02913")) end))
                ∷ [])))
            end))))

abbrev one_lane : Storage
one_lane = record {
  lanes = stored (arr (of_list (lane (codes "a") ∷ [])));
  history = absent;
  cursors = absent;
  seen = 0;
}

abbrev file : Value
file = obj (
    field (codes "app") (str (codes "beanie"))
      (field (codes "lanes") (arr (of_list (lane (codes "a") ∷ lane (codes "b") ∷ []))) end))

abbrev after_import : Storage
after_import = (import_backup always 5 (some file) one_lane).0

imported :
    import_backup always 5 (some file) one_lane
    ≡ (after_import, ok (record { added = 1; skipped = 1 }))
unfolding import_backup import_loop sanitize_lane sanitize_receivers save_lane get_lanes
    filter_values is_lane lane_ids has_text_in prop field_of truthy text_of canonical_address
    canonical_evm wire key_text is_receiver has_id nullish_text receivers_of lane_value
    receiver_value sanitize_stealth_config chain_by_key find_chain to_upper upper_unit to_lower
    lower_unit trim trim_start text_eq
imported = refl

lane_there : Among (lane (codes "a")) (get_lanes one_lane)
unfolding get_lanes filter_values is_lane prop field_of truthy key_text text_of is_receiver wire
    chain_by_key find_chain to_upper upper_unit text_eq
lane_there = inl refl

import_backup_keeps_example : Among (lane (codes "a")) (get_lanes after_import)
import_backup_keeps_example =
    import_backup_keeps always 5 (some file) one_lane (lane (codes "a")) lane_there

import_backup_marks_example :
    Among (lane (codes "a")) (get_lanes one_lane)
    ⊎ (prop (codes "needsVerify") (lane (codes "a")) ≡ bool true)
import_backup_marks_example =
    import_backup_marks always 5 (some file) one_lane (lane (codes "a")) import_backup_keeps_example
