-- ===== src/Lane/Paid.antt =====
-- The account that a lane pays out to, as the check of the lane finds it.
use open_beanie.Base.{
  ℕ, ◌≡◌, sym, ap, ◌∙◌, Bool, true, false, if◌then◌else◌, List, Option, none, some, Text, text_eq,
  text_eq→eq, Bool-cases, inl, inr, ◌⊎◌,
}
use open_beanie.Base.Result.{Result, ok, ◌>>=◌, >>=-eq_ok}
use open_beanie.Chains.{wire}
use open_beanie.Identity.{canonical_address}
use open_beanie.Onchain.{ChainError, Net}
use open_beanie.Lane.{LaneError, accept, other_passkey, payout_mismatch, StoredLane, payout}

accept-eq_ok :
    (missing other : LaneError) (recipient : Text) (o : Option Text) (a : Text)
    → accept missing other recipient o ≡ ok a
    → (a ≡ recipient) × (o ≡ some recipient)
accept-eq_ok missing other recipient none a h = cc
accept-eq_ok missing other recipient (some b) a h = elim (Bool-cases (text_eq b recipient)) [
  | inl same ↦
      let got : b ≡ a = cc (rw same at h) in
      let is_it = text_eq→eq b recipient same in (sym got ∙ is_it, ap (λ (t : Text). some t) is_it)
  | inr apart ↦ cc (rw apart at h)
]

if_true : (b : Bool) (x y z : Result LaneError Text) → b ≡ true → (if b then x else y) ≡ z → x ≡ z
if_true true x y z e h = h
if_true false x y z e h = cc

if_false : (b : Bool) (x y z : Result LaneError Text) → b ≡ false → (if b then x else y) ≡ z → y ≡ z
if_false false x y z e h = h
if_false true x y z e h = cc

module _ (sha256 : List ℕ → List ℕ) (net : Text → Net)
    (owners : List Text → Result ChainError (List (Option Text)))
    (derived : StoredLane → Result LaneError Text) where
  -- The recipient of a lane is the account that the passkey derives for it where the lane is
  -- private, and else the canonical form of its merchant's address.
  abbrev pub IsPaid : StoredLane → Type 0
  IsPaid lane =
      ((lane.privacy ≡ true) × (derived lane ≡ ok lane.target_recipient))
      ⊎ (lane.privacy ≡ false)
        × (canonical_address (wire lane.target_chain) lane.merchant_address
            ≡ some lane.target_recipient)

  pub payout-IsPaid :
      (lane : StoredLane) (a : Text)
      → payout sha256 net owners derived lane ≡ ok a
      → (a ≡ lane.target_recipient) × IsPaid lane
  unfolding payout
  payout-IsPaid lane a h =
      let canonical = canonical_address (wire lane.target_chain) lane.merchant_address in
      let mine = λ (x : Text). accept other_passkey other_passkey lane.target_recipient (some x) in
      let private_one = derived lane >>= mine in
      let public_one = accept payout_mismatch payout_mismatch lane.target_recipient canonical in
      elim (Bool-cases lane.privacy) [
        | inl t ↦
            let (x, d, h1) =
              >>=-eq_ok (derived lane) mine
                (if_true lane.privacy private_one public_one (ok a) t h) in
            let (same, it) =
              accept-eq_ok other_passkey other_passkey lane.target_recipient (some x) a h1 in
            let is_x : x ≡ lane.target_recipient = cc in
            (same, inl (t, d ∙ ap (λ (y : Text). ok y) is_x))
        | inr t ↦
            let (same, it) =
              accept-eq_ok payout_mismatch payout_mismatch lane.target_recipient canonical a
                (if_false lane.privacy private_one public_one (ok a) t h) in
            (same, inr (t, it))
      ]
