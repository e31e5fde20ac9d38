-- ===== src/Store/Lanes/Marked.antt =====
-- What `markVerified` of store.js leaves of the lane that it marks.
use open_beanie.Base.{
  ◌≡◌, refl, sym, ap, ◌∙◌, Bool, false, List, [], ◌∷◌, some, Text, text_eq, text_eq→eq, codes,
  Bool-cases, Option-cases, inl, inr, ◌⊎◌, arith,
}
use open_beanie.Base.Json.{
  Value, undefined, null, bool, nat, number, str, arr, obj, Fields, end, field, field_of, of_list,
  prop,
}
use open_beanie.Store.{stored, Storage}
use open_beanie.Store.Lanes.{
  has_id, find_lane, get_lanes, remove_field, without, verify_first, mark_verified,
}

remove_field-gone : (k : Text) (fs : Fields) → field_of k (remove_field k fs) ≡ undefined
unfolding remove_field field_of
remove_field-gone k end = refl
remove_field-gone k (field j v fs) = elim (Bool-cases (text_eq k j)) [
  | inl e ↦ rw (remove_field, e) (remove_field-gone k fs)
  | inr e ↦ rw (remove_field, e, field_of, e) (remove_field-gone k fs)
]

remove_field-other :
    (k i : Text) (fs : Fields)
    → text_eq i k ≡ false
    → field_of i (remove_field k fs) ≡ field_of i fs
unfolding remove_field field_of
remove_field-other k i end h = refl
remove_field-other k i (field j v fs) h = elim (Bool-cases (text_eq k j)) [
  | inl e ↦
      let other : text_eq i j ≡ false = rw (text_eq→eq k j e) at h in
      rw (remove_field, e, field_of, other) (remove_field-other k i fs h)
  | inr e ↦ rw (remove_field, e, field_of) (ground (arith, remove_field-other k i fs h))
]

without-gone : (k : Text) (v : Value) → prop k (without k v) ≡ undefined
unfolding without prop
without-gone k undefined = refl
without-gone k null = refl
without-gone k (bool b) = refl
without-gone k (nat n) = refl
without-gone k (number a b) = refl
without-gone k (str t) = refl
without-gone k (arr vs) = refl
without-gone k (obj fs) = remove_field-gone k fs

without-other : (k i : Text) (v : Value) → text_eq i k ≡ false → prop i (without k v) ≡ prop i v
unfolding without prop
without-other k i undefined h = refl
without-other k i null h = refl
without-other k i (bool b) h = refl
without-other k i (nat n) h = refl
without-other k i (number a b) h = refl
without-other k i (str t) h = refl
without-other k i (arr vs) h = refl
without-other k i (obj fs) h = remove_field-other k i fs h

abbrev flag : Text
flag = codes "needsVerify"

has_id-without : (id : Text) (l : Value) → has_id id (without flag l) ≡ has_id id l
unfolding has_id
has_id-without id l = rw (has_id, without-other flag (codes "id") l refl) refl

-- The first lane with the id has no flag any more.
verify_first-marked :
    (id : Text) (ls : List Value) (l : Value)
    → find_lane id (verify_first id ls) ≡ some l
    → prop flag l ≡ undefined
unfolding find_lane verify_first
verify_first-marked id [] l h = cc
verify_first-marked id (x ∷ ls) l h = elim (Bool-cases (has_id id x)) [
  | inl e ↦
      let here = has_id-without id x ∙ e in
      let same : without flag x ≡ l = cc (rw (verify_first, e, find_lane, here) at h) in
      ap (prop flag) (sym same) ∙ without-gone flag x
  | inr e ↦ verify_first-marked id ls l (rw (verify_first, e, find_lane, e) at h)
]

-- The storage is as it was, or only its lanes are written again, and the first of them with the id
-- is not marked for verification.
abbrev pub Marks : Text → Storage → Storage → Type 0
Marks id s t =
    (t ≡ s)
    ⊎ (ls : List Value) × (t ≡ record s { lanes = stored (arr (of_list ls)) })
      × ((l : Value) → find_lane id ls ≡ some l → prop (codes "needsVerify") l ≡ undefined)

pub mark_verified-Marks :
    (fits : Storage → Bool) (id : Text) (s : Storage) → Marks id s (mark_verified fits id s).0
unfolding mark_verified
mark_verified-Marks fits id s = elim (Option-cases (find_lane id (get_lanes s))) [
  | inl e ↦ rw (mark_verified, e) (inl refl)
  | inr (l, e) ↦
      let ls = verify_first id (get_lanes s) in
      let written = record s { lanes = stored (arr (of_list ls)) } in
      elim (Bool-cases (fits written)) [
        | inl t ↦ rw (mark_verified, e, t) (inr (ls, refl, verify_first-marked id (get_lanes s)))
        | inr t ↦ rw (mark_verified, e, t) (inl refl)
      ]
]
