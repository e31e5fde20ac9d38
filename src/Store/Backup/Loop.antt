-- ===== src/Store/Backup/Loop.antt =====
-- What the loop over a backup's lanes keeps, and what it counts.
use open_beanie.Base.{
  ℕ, ◌+◌, ◌≡◌, refl, Bool, true, false, not, List, [], ◌∷◌, some, Text, length, arith, Bool-cases,
  Option-cases, inl, inr, ◌⊎◌,
}
use open_beanie.Base.Json.{Value, arr, of_list, to_list-of_list, as_array, nil}
use open_beanie.Store.{stored, Storage, read}
use open_beanie.Store.Lanes.{is_lane, filter_values, items, get_lanes, has_id, save_lane}
use open_beanie.Store.Backup.{Sanitized, sanitize_lane, Counts, has_text_in, import_loop}

abbrev pub Among : Value → List Value → Type 0
Among v [] = ⊥
Among v (x ∷ xs) = (v ≡ x) ⊎ Among v xs

pub Among-filter :
    (p : Value → Bool) (v : Value) (xs : List Value)
    → Among v xs
    → p v ≡ true
    → Among v (filter_values p xs)
unfolding filter_values
Among-filter p v [] m h = elim m [ ]
Among-filter p v (x ∷ xs) m h = elim (Bool-cases (p x)) [
  | inl t ↦ elim m [ inl e ↦ rw t (inl e) | inr there ↦ rw t (inr (Among-filter p v xs there h)) ]
  | inr t ↦ elim m [ inl e ↦ cc (rw e at h) | inr there ↦ rw t (Among-filter p v xs there h) ]
]

pub filter-Among :
    (p : Value → Bool) (v : Value) (xs : List Value)
    → Among v (filter_values p xs)
    → (p v ≡ true) × Among v xs
unfolding filter_values
filter-Among p v [] m = elim m [ ]
filter-Among p v (x ∷ xs) m = elim (Bool-cases (p x)) [
  | inl t ↦ elim (rw (filter_values, t) at m) [
    | inl e ↦ (rw e t, inl e)
    | inr there ↦ let (h, k) = filter-Among p v xs there in (h, inr k)
  ]
  | inr t ↦ let (h, k) = filter-Among p v xs (rw (filter_values, t) at m) in (h, inr k)
]

get_lanes-stored :
    (s : Storage) (ls : List Value)
    → get_lanes (record s { lanes = stored (arr (of_list ls)) }) ≡ filter_values is_lane ls
unfolding get_lanes
get_lanes-stored s ls = rw (to_list-of_list ls) refl

pub get_lanes-Among : (v : Value) (s : Storage) → Among v (get_lanes s) → is_lane v ≡ true
unfolding get_lanes
get_lanes-Among v s m = (filter-Among is_lane v (items (as_array (read s.lanes (arr nil)))) m).0

module _ (fits : Storage → Bool) (id : Text) (lane : Value) where
  abbrev saved : Storage → Storage × Bool
  saved s = save_lane fits id lane s

  abbrev others : Storage → List Value
  others s = filter_values (λ l. not (has_id id l)) (get_lanes s)

  pub save_lane-kept :
      (v : Value) (s : Storage)
      → Among v (get_lanes s)
      → has_id id v ≡ false
      → Among v (get_lanes (saved s).0)
  unfolding save_lane
  save_lane-kept v s m h =
      elim (Bool-cases (fits (record s { lanes = stored (arr (of_list (lane ∷ others s))) }))) [
        | inr e ↦ rw (e, save_lane) m
        | inl e ↦
            rw (e, save_lane, get_lanes-stored s (lane ∷ others s))
              (Among-filter is_lane v (lane ∷ others s)
                (inr (Among-filter (λ l. not (has_id id l)) v (get_lanes s) m (rw h refl)))
                (get_lanes-Among v s m))
      ]

  pub save_lane-only :
      (v : Value) (s : Storage)
      → Among v (get_lanes (saved s).0)
      → (v ≡ lane) ⊎ Among v (get_lanes s)
  unfolding save_lane
  save_lane-only v s m =
      elim (Bool-cases (fits (record s { lanes = stored (arr (of_list (lane ∷ others s))) }))) [
        | inr e ↦ inr (rw (e, save_lane) at m)
        | inl e ↦
            let m' = rw (e, save_lane, get_lanes-stored s (lane ∷ others s)) at m in
            elim (filter-Among is_lane v (lane ∷ others s) m').1 [
              | inl same ↦ inl same
              | inr there ↦ inr (filter-Among (λ l. not (has_id id l)) v (get_lanes s) there).1
            ]
      ]

module _ (fits : Storage → Bool) (now : ℕ) where
  -- A file's lane that was accepted.
  abbrev pub Made : Sanitized → Type 0
  Made c = (raw : Value) × (sanitize_lane raw now ≡ some c)

  -- What every lane that is saved keeps, the loop keeps.
  pub import_loop_keeps :
      (P : List Text → Storage → Type 0)
      → ((ids : List Text) (s : Storage) (c : Sanitized)
          → P ids s
          → has_text_in c.id ids ≡ false
          → Made c
          → P ids (save_lane fits c.id c.lane s).0
            × P (c.id ∷ ids) (save_lane fits c.id c.lane s).0)
      → (raws : List Value) (ids : List Text) (n : Counts) (s : Storage) → P ids s
      → (ids' : List Text) × P ids' (import_loop fits now raws ids n s).0
  unfolding import_loop
  import_loop_keeps P keep [] ids n s p = (ids, p)
  import_loop_keeps P keep (raw ∷ raws) ids n s p = elim (Option-cases (sanitize_lane raw now)) [
    | inl e ↦ rw (e, import_loop) (import_loop_keeps P keep raws ids _ s p)
    | inr (c, e) ↦ elim (Bool-cases (has_text_in c.id ids)) [
      | inl there ↦ rw (e, import_loop, there) (import_loop_keeps P keep raws ids _ s p)
      | inr fresh ↦
          let (old, new) = keep ids s c p fresh (raw, e) in
          elim (Bool-cases (save_lane fits c.id c.lane s).1) [
            | inl t ↦
                rw (e, import_loop, fresh, t) (import_loop_keeps P keep raws (c.id ∷ ids) _ _ new)
            | inr t ↦ rw (e, import_loop, fresh, t) (import_loop_keeps P keep raws ids _ _ old)
          ]
    ]
  ]

  pub import_loop-counts :
      (raws : List Value) (ids : List Text) (n : Counts) (s : Storage)
      → (import_loop fits now raws ids n s).1.added + (import_loop fits now raws ids n s).1.skipped
        ≡ n.added + n.skipped + length raws
  unfolding import_loop
  import_loop-counts [] ids n s = omega arith
  import_loop-counts (raw ∷ raws) ids n s = elim (Option-cases (sanitize_lane raw now)) [
    | inl e ↦
        let ih = import_loop-counts raws ids (record n { skipped = n.skipped + 1 }) s in
        rw (e, import_loop) (omega (arith, ih))
    | inr (c, e) ↦ elim (Bool-cases (has_text_in c.id ids)) [
      | inl there ↦
          let ih = import_loop-counts raws ids (record n { skipped = n.skipped + 1 }) s in
          rw (e, import_loop, there) (omega (arith, ih))
      | inr fresh ↦
          let s' = (save_lane fits c.id c.lane s).0 in
          elim (Bool-cases (save_lane fits c.id c.lane s).1) [
            | inl t ↦
                let ih =
                  import_loop-counts raws (c.id ∷ ids) (record n { added = n.added + 1 }) s' in
                rw (e, import_loop, fresh, t) (omega (arith, ih))
            | inr t ↦
                let ih = import_loop-counts raws ids (record n { skipped = n.skipped + 1 }) s' in
                rw (e, import_loop, fresh, t) (omega (arith, ih))
          ]
    ]
  ]
