-- ===== src/Gasless/Evm/Authorized.antt =====
-- What is authorized by a payer on an EVM chain.
use open_beanie.Base.{
  ℕ, ◌+◌, ◌/◌, ◌≡◌, refl, true, List, Option, none, some, Text, ap, arith, Bool-cases, inl, inr,
}
use open_beanie.Base.Result.{ok, >>=-eq_ok, guard-eq_ok, ok-injective, err-ne-ok}
use open_beanie.Base.Strings.{to_string}
use open_beanie.Chains.{Chain, chains, find_chain}
use open_beanie.Chains.Ready.{can_gasless}
use open_beanie.Identity.{with_0x}
use open_beanie.Gasless.{no_wallet, wrong_network, or_fail}
use open_beanie.Gasless.Relayed.{or_fail-eq_ok}
use open_beanie.Gasless.Evm.{
  EvmWallet, parse_hex, chain_id_of, is_number, switched, ensure_evm_chain, EvmPayload, typed_data,
  first_account, gasless_chain, authorization, sign_evm_transfer,
}

is_number-eq_true : (o : Option ℕ) (n : ℕ) → is_number o n ≡ true → o ≡ some n
is_number-eq_true none n h = cc
is_number-eq_true (some m) n h = ground arith

gasless_chain-eq_ok :
    (o : Option Chain) (c : Chain) → gasless_chain o ≡ ok c → (o ≡ some c) × (can_gasless c ≡ true)
gasless_chain-eq_ok none c h = cc
gasless_chain-eq_ok (some d) c h = elim (Bool-cases (can_gasless d)) [
  | inl able ↦
      let same = ok-injective d c (rw able at h) in
      (ap (λ (x : Chain). some x) same, rw same at able)
  | inr unable ↦ absurd (err-ne-ok _ c (rw unable at h))
]

-- The payment that a payload authorizes on a chain.
pub record Authorizes (wallet : EvmWallet) (now : ℕ) (chain : Chain) (receiver amount_raw : Text)
    (p : EvmPayload) : Type 0 where
  pub reported : Text
  pub is_reported : wallet.reported_chain ≡ ok reported
  pub on_chain : parse_hex reported ≡ some (chain_id_of chain)
  pub to : p.message.to ≡ receiver
  pub value : p.message.value ≡ amount_raw
  pub expires : p.message.valid_before ≡ now / 1000 + 600
  pub is_signed :
      wallet.sign_typed_data p.message.from (typed_data chain p.message) ≡ ok p.signature

-- An authorization is made only on a chain that takes gasless payments and that the wallet reports
-- as its own; it names the receiver and the amount, expires 600 seconds from now, and its
-- signature is what the wallet gave for it.
pub sign_evm_transfer_sound :
    (provider : Option EvmWallet) (now : ℕ) (random : List ℕ) (chain_key receiver amount_raw : Text)
    (p : EvmPayload)
    → sign_evm_transfer provider now random chain_key receiver amount_raw ≡ ok p
    → (wallet : EvmWallet) × (chain : Chain) × (provider ≡ some wallet)
      × (find_chain chain_key chains ≡ some chain)
      × (can_gasless chain ≡ true)
      × Authorizes wallet now chain receiver amount_raw p
unfolding sign_evm_transfer ensure_evm_chain
sign_evm_transfer_sound provider now random chain_key receiver amount_raw p h =
    let (chain, c, h1) = >>=-eq_ok (gasless_chain (find_chain chain_key chains)) _ h in
    let (wallet, w, h2) = >>=-eq_ok (or_fail no_wallet provider) _ h1 in
    let (accounts, _, h3) = >>=-eq_ok wallet.request_accounts _ h2 in
    let (from, _, h4) = >>=-eq_ok (first_account accounts) _ h3 in
    let (_, ensured, h5) = >>=-eq_ok (ensure_evm_chain wallet chain) _ h4 in
    let message = authorization from receiver amount_raw now random in
    let (signature, signed, h6) =
      >>=-eq_ok (wallet.sign_typed_data from (typed_data chain message)) _ h5 in
    let (_, _, e1) =
      >>=-eq_ok (switched wallet chain (with_0x (to_string 16 (chain_id_of chain)))) _ ensured in
    let (reported, r, e2) = >>=-eq_ok wallet.reported_chain _ e1 in
    let on = guard-eq_ok _ (wrong_network chain.name) e2 in
    let (known, able) = gasless_chain-eq_ok (find_chain chain_key chains) chain c in
    let same = ok-injective (record { message = message; signature = signature }) p h6 in
    (
      wallet,
      chain,
      or_fail-eq_ok no_wallet provider wallet w,
      known,
      able,
      rw (← same) (record {
        reported = reported;
        is_reported = r;
        on_chain = is_number-eq_true (parse_hex reported) (chain_id_of chain) on;
        to = refl;
        value = refl;
        expires = refl;
        is_signed = signed;
      }),
    )
