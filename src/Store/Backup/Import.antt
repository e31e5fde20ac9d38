-- ===== src/Store/Backup/Import.antt =====
-- The import of a backup keeps the lanes that are there, and marks those that it adds.
use open_beanie.Base.{
  ℕ, ◌+◌, ◌≡◌, refl, Bool, true, false, ◌&&◌, List, [], ◌∷◌, Option, none, some, Text, text_eq,
  text_eq_refl, text_eq→eq, length, arith, codes, Bool-cases, Option-cases, inl, inr, ◌⊎◌, &&-true,
}
use open_beanie.Base.Json.{Value, bool, str, arr, prop, field_of, as_string, as_array}
use open_beanie.Base.Result.{ok}
use open_beanie.Store.{Storage}
use open_beanie.Chains.{chain_by_key, wire}
use open_beanie.Identity.{canonical_address}
use open_beanie.Store.Lanes.{key_text, is_known, is_lane, get_lanes, has_id, save_lane, is_string}
use open_beanie.Store.Backup.{
  Sanitized, sanitize_lane, lane_value, Counts, has_text_in, lane_ids, import_loop, import_backup,
  receivers_of, is_lane_id, nullish_text,
}
use open_beanie.Store.Backup.Loop.{
  Among, get_lanes-Among, save_lane-kept, save_lane-only, Made, import_loop_keeps,
  import_loop-counts,
}

module _ (fits : Storage → Bool) (now : ℕ) where
  sanitize_lane-eq_some :
      (raw : Value) (c : Sanitized)
      → sanitize_lane raw now ≡ some c
      → (target recipient : Text) × (receivers : List Value) × (c.lane
          ≡ lane_value raw now c.id target recipient receivers)
  unfolding sanitize_lane
  sanitize_lane-eq_some raw c h =
      let target = wire (key_text (prop (codes "targetChain") raw)) in
      let spelt = nullish_text (prop (codes "targetRecipient") raw) in
      elim (Option-cases (as_string (prop (codes "id") raw))) [
        | inl e ↦ cc (rw (e, sanitize_lane) at h)
        | inr (id, e) ↦ elim (Option-cases (canonical_address target spelt)) [
          | inl r ↦ cc (rw (e, sanitize_lane, r) at h)
          | inr (recipient, r) ↦ elim (Option-cases (receivers_of raw)) [
            | inl l ↦ cc (rw (e, sanitize_lane, r, l) at h)
            | inr (receivers, l) ↦
                elim (Bool-cases (is_lane_id id && is_known (chain_by_key target))) [
                  | inl t ↦
                      let same : ◌≡◌ {A = Sanitized}
                          (record {
                            id = id;
                            lane = lane_value raw now id target recipient receivers;
                          })
                          c =
                        cc (rw (e, sanitize_lane, r, l, t) at h) in
                      rw (← same) (target, recipient, receivers, refl)
                  | inr t ↦ cc (rw (e, sanitize_lane, r, l, t) at h)
                ]
          ]
        ]
      ]

  Made-marked : (c : Sanitized) → Made fits now c → prop (codes "needsVerify") c.lane ≡ bool true
  unfolding prop field_of text_eq lane_value
  Made-marked c (raw, h) =
      let (target, recipient, receivers, e) = sanitize_lane-eq_some raw c h in rw e refl

  -- The storage after an import is what it was, or what the loop leaves.
  import_cases :
      (file : Option Value) (s : Storage)
      → ((import_backup fits now file s).0 ≡ s)
        ⊎ ((raws : List Value) × ((import_backup fits now file s).0
              ≡ (import_loop fits now raws
                  (lane_ids (get_lanes s))
                  (record { added = 0; skipped = 0 })
                  s).0))
  unfolding import_backup
  import_cases none s = inl refl
  import_cases (some file) s = elim (Option-cases (as_string (prop (codes "app") file))) [
    | inl a ↦ inl (rw (a, import_backup) refl)
    | inr (app, a) ↦ elim (Option-cases (as_array (prop (codes "lanes") file))) [
      | inl l ↦ inl (rw (a, import_backup, l) refl)
      | inr (raws, l) ↦ elim (Bool-cases (text_eq app (codes "beanie"))) [
        | inl t ↦ inr (raws, rw (a, import_backup, l, t) refl)
        | inr t ↦ inl (rw (a, import_backup, l, t) refl)
      ]
    ]
  ]

  -- A lane that is there after an import was there before, or is marked to be verified.
  pub import_backup_marks :
      (file : Option Value) (s : Storage) (v : Value)
      → Among v (get_lanes (import_backup fits now file s).0)
      → Among v (get_lanes s) ⊎ (prop (codes "needsVerify") v ≡ bool true)
  import_backup_marks file s v m = elim (import_cases file s) [
    | inl same ↦ inl (rw same at m)
    | inr (raws, run) ↦
        let P : List Text → Storage → Type 0 = λ ids t.
          (w : Value)
          → Among w (get_lanes t)
          → Among w (get_lanes s) ⊎ (prop (codes "needsVerify") w ≡ bool true) in
        let keep : (ids : List Text) (t : Storage) (c : Sanitized)
            → P ids t
            → Made fits now c
            → P ids (save_lane fits c.id c.lane t).0 =
          λ ids t c p made w k. elim (save_lane-only fits c.id c.lane w t k) [
            | inl e ↦ inr (rw e (Made-marked c made))
            | inr there ↦ p w there
          ] in
        let (_, all_marked) =
          import_loop_keeps fits now P
            (λ ids t c p fresh made. (keep ids t c p made, keep ids t c p made)) raws
            (lane_ids (get_lanes s)) (record { added = 0; skipped = 0 }) s (λ w k. inl k) in
        all_marked v (rw run at m)
  ]

  string-text : (v : Value) → is_string v ≡ true → (t : Text) × (as_string v ≡ some t)
  string-text (str t) h = (t, refl)
  string-text (arr vs) h = cc
  string-text _ h = cc

  lane-has_id :
      (v : Value) → is_lane v ≡ true → (id : Text) × (as_string (prop (codes "id") v) ≡ some id)
  unfolding is_lane
  lane-has_id v h =
      string-text (prop (codes "id") v) (&&-true _ _ (&&-true _ _ (&&-true _ _ h).0).0).1

  lane_ids-Among :
      (v : Value) (id : Text) (ls : List Value)
      → as_string (prop (codes "id") v) ≡ some id
      → Among v ls
      → has_text_in id (lane_ids ls) ≡ true
  unfolding lane_ids has_text_in
  lane_ids-Among v id [] e m = elim m [ ]
  lane_ids-Among v id (l ∷ ls) e (inl same) =
      rw (← same) (rw (e, lane_ids) (rw (has_text_in, text_eq_refl id) refl))
  lane_ids-Among v id (l ∷ ls) e (inr there) =
      let ih = lane_ids-Among v id ls e there in
      elim (Option-cases (as_string (prop (codes "id") l))) [
        | inl n ↦ rw (n, lane_ids) ih
        | inr (i, n) ↦ rw (n, lane_ids) (ground (arith, ih))
      ]

  has_id-fresh :
      (v : Value) (id other : Text) (ids : List Text)
      → as_string (prop (codes "id") v) ≡ some id
      → has_text_in id ids ≡ true
      → has_text_in other ids ≡ false
      → has_id other v ≡ false
  unfolding has_id
  has_id-fresh v id other ids e there fresh = elim (Bool-cases (text_eq id other)) [
    | inl t ↦ let same = text_eq→eq id other t in cc (rw same at there)
    | inr t ↦ rw (e, has_id) t
  ]

  -- An import leaves every lane that is there as it is.
  pub import_backup_keeps :
      (file : Option Value) (s : Storage) (v : Value)
      → Among v (get_lanes s)
      → Among v (get_lanes (import_backup fits now file s).0)
  import_backup_keeps file s v m =
      let (id, e) = lane-has_id v (get_lanes-Among v s m) in
      elim (import_cases file s) [
        | inl same ↦ rw same m
        | inr (raws, run) ↦
            let P : List Text → Storage → Type 0 =
              λ ids t. Among v (get_lanes t) × (has_text_in id ids ≡ true) in
            let (_, kept) =
              import_loop_keeps fits now P
                (λ ids t c p fresh made.
                  let there =
                    save_lane-kept fits c.id c.lane v t p.0
                      (has_id-fresh v id c.id ids e p.1 fresh) in
                  ((there, p.1), (there, unfold has_text_in in ground (arith, p.1))))
                raws (lane_ids (get_lanes s)) (record { added = 0; skipped = 0 }) s
                (m, lane_ids-Among v id (get_lanes s) e m) in
            rw run kept.0
      ]

  -- The import of a backup that succeeds counts each lane of the file once, as added or as
  -- skipped.
  import_backup_counts :
      (file : Value) (s s' : Storage) (n : Counts)
      → import_backup fits now (some file) s ≡ (s', ok n)
      → (raws : List Value) × (as_array (prop (codes "lanes") file) ≡ some raws)
        × (n.added + n.skipped ≡ length raws)
  unfolding import_backup
  import_backup_counts file s s' n h = elim (Option-cases (as_string (prop (codes "app") file))) [
    | inl a ↦ cc (rw (a, import_backup) at h)
    | inr (app, a) ↦ elim (Option-cases (as_array (prop (codes "lanes") file))) [
      | inl l ↦ cc (rw (a, import_backup, l) at h)
      | inr (raws, l) ↦ elim (Bool-cases (text_eq app (codes "beanie"))) [
        | inl t ↦
            let zeros : Counts = record { added = 0; skipped = 0 } in
            let run = import_loop fits now raws (lane_ids (get_lanes s)) zeros s in
            let same : run.1 ≡ n = cc (rw (a, import_backup, l, t) at h) in
            (
              raws,
              l,
              rw (← same) (
                  omega (arith, import_loop-counts fits now raws (lane_ids (get_lanes s)) zeros s)),
            )
        | inr t ↦ cc (rw (a, import_backup, l, t) at h)
      ]
    ]
  ]
