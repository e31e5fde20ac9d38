-- ===== src/Lane/Owned.antt =====
-- What the check of a receiver on Solana finds on the chain.
use open_beanie.Base.{
  ℕ, ◌≡◌, sym, ap, ◌∙◌, Bool, true, false, List, [], ◌∷◌, Option, none, some, Text, text_eq,
  text_eq→eq, Bool-cases, inl, inr, ◌⊎◌,
}
use mathlib.Core.List.{Mem, mem-cons_self, mem-cons_of_mem}
use open_beanie.Base.Result.{Result, ok, err, ◌>>=◌, guard, >>=-eq_ok, guard-eq_ok, ok-injective}
use open_beanie.Chains.{solana_chain}
use open_beanie.Identity.{CctpRoute, cctp_route, merchant_identity}
use open_beanie.Onchain.{ChainError, Net}
use open_beanie.Solana.Program.{Factory, Pdas, receiver_pdas}
use open_beanie.Lane.{
  LaneError, from_chain, from_identity, from_program, not_announced, lift, StoredLane,
  StoredReceiver, has_program_account, solana_program, verify_solana_receiver, leg_merchant,
  solana_leg, check_solana,
}

pub lift-eq_ok :
    {E A : Type 0} (f : E → LaneError) (r : Result E A) (a : A) → lift f r ≡ ok a → r ≡ ok a
lift-eq_ok f (ok b) a h = cc
lift-eq_ok f (err e) a h = cc

has_program_account-Mem :
    (owners : List (Option Text)) (id : Text)
    → has_program_account owners id ≡ true
    → Mem (some id) owners
unfolding has_program_account
has_program_account-Mem [] id h = cc
has_program_account-Mem (none ∷ owners) id h =
    mem-cons_of_mem none (has_program_account-Mem owners id h)
has_program_account-Mem (some o ∷ owners) id h = elim (Bool-cases (text_eq o id)) [
  | inl e ↦ rw (text_eq→eq o id e) mem-cons_self
  | inr e ↦ mem-cons_of_mem (some o) (has_program_account-Mem owners id (rw e at h))
]

module _ (sha256 : List ℕ → List ℕ) (net : Text → Net)
    (owners : List Text → Result ChainError (List (Option Text)))
    (derived : StoredLane → Result LaneError Text) (merchant : Text) (route : CctpRoute)
    (receiver : Text) where
  -- Of the two accounts that are derived from the merchant, the receiver and the route, one is
  -- there and belongs to the program.
  pub record Owned : Type 0 where
    pub program : Factory
    pub pdas : Pdas
    pub found : List (Option Text)
    pub is_program : solana_program sha256 net owners derived ≡ ok program
    pub is_pdas :
        receiver_pdas sha256 program
          (record { merchant = merchant; chain32 = route.chain32; recipient32 = route.recipient32 })
          receiver
        ≡ ok pdas
    pub is_found : owners (pdas.config ∷ pdas.pending ∷ []) ≡ ok found
    pub is_owned : Mem (some program.id) found

  abbrev answer_of : Bool → Result LaneError Bool
  answer_of b = ok b

  pub verify_solana_receiver-Owned :
      verify_solana_receiver sha256 net owners derived merchant route receiver ≡ ok true → Owned
  unfolding verify_solana_receiver
  verify_solana_receiver-Owned h =
      let pdas_of = λ (x : Factory).
        receiver_pdas sha256 x
          (record { merchant = merchant; chain32 = route.chain32; recipient32 = route.recipient32 })
          receiver in
      let found_at = λ (d : Pdas). lift from_chain (owners (d.config ∷ d.pending ∷ [])) in
      let answer =
        λ (x : Factory) (found : List (Option Text)). answer_of (has_program_account found x.id) in
      let (program, p, h1) =
        >>=-eq_ok (solana_program sha256 net owners derived)
          (λ x. lift from_program (pdas_of x) >>= λ d. found_at d >>= answer x) h in
      let (pdas, d, h2) =
        >>=-eq_ok (lift from_program (pdas_of program)) (λ d. found_at d >>= answer program) h1 in
      let (found, f, h3) = >>=-eq_ok (found_at pdas) (answer program) h2 in
      record {
        program = program;
        pdas = pdas;
        found = found;
        is_program = p;
        is_pdas = lift-eq_ok from_program _ pdas d;
        is_found = lift-eq_ok from_chain _ found f;
        is_owned = has_program_account-Mem found program.id (ok-injective _ true h3);
      }

abbrev pair_of : Text → CctpRoute → Result LaneError (Text × CctpRoute)
pair_of m x = ok (m, x)

module _ (sha256 : List ℕ → List ℕ) (net : Text → Net)
    (owners : List Text → Result ChainError (List (Option Text)))
    (derived : StoredLane → Result LaneError Text) where
  -- The merchant of a leg: on the settlement leg it is the recipient, and elsewhere the identity of
  -- the address on the chain of the leg.
  abbrev pub IsMerchant : Text → Text → Text → Text → Text → Type 0
  IsMerchant key target recipient identity merchant =
      ((key ≡ target) × (merchant ≡ recipient))
      ⊎ (text_eq key target ≡ false) × (merchant_identity sha256 key identity ≡ ok merchant)

  pub leg_merchant-IsMerchant :
      (key target recipient identity merchant : Text)
      → leg_merchant sha256 net owners derived key target recipient identity ≡ ok merchant
      → IsMerchant key target recipient identity merchant
  leg_merchant-IsMerchant key target recipient identity merchant h =
      elim (Bool-cases (text_eq key target)) [
        | inl e ↦ inl (text_eq→eq key target e, sym (ok-injective recipient merchant (rw e at h)))
        | inr e ↦ inr (e, lift-eq_ok from_identity _ merchant (rw e at h))
      ]

  -- The accounts that are derived for a receiver on Solana are there, for the merchant and the route
  -- of the lane.
  pub record OnSolana (target a : Text) (r : StoredReceiver) : Type 0 where
    pub merchant : Text
    pub route : CctpRoute
    pub is_merchant : IsMerchant solana_chain.key target a a merchant
    pub is_route : cctp_route solana_chain.key target a ≡ ok route
    pub owned : Owned sha256 net owners derived merchant route r.address

  pub check_solana-OnSolana :
      (target a : Text) (r : StoredReceiver)
      → check_solana sha256 net owners derived target a a r ≡ ok tt
      → OnSolana target a r
  unfolding check_solana
  check_solana-OnSolana target a r h =
      let leg_of = leg_merchant sha256 net owners derived solana_chain.key target a a in
      let route_of = lift from_identity (cctp_route solana_chain.key target a) in
      let ((merchant, route), l, h1) =
        >>=-eq_ok (solana_leg sha256 net owners derived target a a)
          (λ leg.
            verify_solana_receiver sha256 net owners derived leg.0 leg.1 r.address >>= λ there.
            guard there not_announced)
          h in
      let (there, v, h2) =
        >>=-eq_ok (verify_solana_receiver sha256 net owners derived merchant route r.address)
          (λ there. guard there not_announced) h1 in
      let (m, is_m, l1) = >>=-eq_ok leg_of (λ m. route_of >>= λ x. pair_of m x) l in
      let (x, is_x, l2) = >>=-eq_ok route_of (λ x. pair_of m x) l1 in
      let same = ok-injective (m, x) (merchant, route) l2 in
      record {
        merchant = merchant;
        route = route;
        is_merchant =
            leg_merchant-IsMerchant solana_chain.key target a a merchant
              (is_m ∙ ap (λ (c : Text × CctpRoute). ok c.0) same);
        is_route = lift-eq_ok from_identity _ x is_x ∙ ap (λ (c : Text × CctpRoute). ok c.1) same;
        owned =
            verify_solana_receiver-Owned sha256 net owners derived merchant route r.address
              (v ∙ ap (λ (b : Bool). ok b) (guard-eq_ok there not_announced h2));
      }
