-- ===== src/Pay/Checkout/Sound.antt =====
-- What a payment that was submitted is for.
use open_beanie.Base.{ℕ, ◌≡◌, refl, ap, true, Option, none, some, Text}
use mathlib.Core.Path.{subst}
use open_beanie.Base.Result.{Result, ok, err, guard, >>=-eq_ok, ok-injective}
use open_beanie.Amounts.{usdc_decimals, parse_decimal}
use open_beanie.Chains.{Kind, evm, starknet, solana, Chain, chains, find_chain, solana_chain}
use open_beanie.Chains.Ready.{can_gasless}
use open_beanie.Onchain.{big_int_of}
use open_beanie.Solana.Program.{usdc_ata}
use open_beanie.Gasless.{SignError, sign_solana_transfer}
use open_beanie.Gasless.Relayed.{Pays, Signed, sign_solana_transfer_sound}
use open_beanie.Gasless.Evm.{EvmWallet, sign_evm_transfer}
use open_beanie.Gasless.Evm.Authorized.{Authorizes, sign_evm_transfer_sound}
use open_beanie.Gasless.Starknet.{StarknetWallet, sign_starknet_transfer}
use open_beanie.Gasless.Starknet.Executed.{Executes, sign_starknet_transfer_sound}
use open_beanie.Gasless.Settlement.{Settled}
use open_beanie.Pay.{Params, Route, Link}
use open_beanie.Pay.Checkout.{
  PayError, no_gasless, invalid_amount, Signature, evm_signature, starknet_signature,
  solana_signature, Payment, SignedPay, Wallets, lift, or_throw, gasless_ok, sign_for, payment_of,
  paid_account, outcome, pay_route, evm_signed, starknet_signed, solana_signed,
}

lift-eq_ok {ℓ} : {A : Type ℓ} (m : Result SignError A) (a : A) → lift m ≡ ok a → m ≡ ok a
lift-eq_ok (ok b) a h = ap (λ x. ok x) (ok-injective b a h)
lift-eq_ok (err e) a h = cc

or_throw-eq_ok {ℓ} :
    {A : Type ℓ} (e : PayError) (o : Option A) (a : A) → or_throw e o ≡ ok a → o ≡ some a
or_throw-eq_ok e (some b) a h = ap (λ x. some x) (ok-injective b a h)
or_throw-eq_ok e none a h = cc

module _ (w : Wallets) where
  -- What a signature authorizes: a transfer of the amount to the receiver, whose account is told.
  -- The signature is of the kind of the chain.
  abbrev pub Authorized : Kind → Text → Text → Text → Option Text → Signature → Type 0
  Authorized evm key receiver amount_raw account (evm_signature p) =
      (wallet : EvmWallet) × (chain : Chain) × (w.evm_wallet ≡ some wallet)
      × (find_chain key chains ≡ some chain)
      × (can_gasless chain ≡ true)
      × Authorizes wallet w.now chain receiver amount_raw p
      × (account ≡ none)
  Authorized starknet key receiver amount_raw account (starknet_signature p) =
      (wallet : StarknetWallet) × (w.starknet_wallet ≡ some wallet)
      × Executes w.starknet_js w.supports wallet w.now receiver amount_raw p
      × (account ≡ none)
  Authorized solana key receiver amount_raw account (solana_signature p) =
      (n : ℕ) × (big_int_of amount_raw ≡ ok n)
      × (w.solana_account ≡ some p.owner)
      × (usdc_ata w.sha256 receiver solana_chain.usdc ≡ ok p.receiver_address)
      × Pays w.sha256 w.solana_account w.solana_wallet w.token_amount w.blockhash p n
      × Signed w.sha256 w.solana_account w.solana_wallet w.token_amount w.blockhash p
      × (account ≡ some p.receiver_address)
  Authorized _ key receiver amount_raw account _ = ⊥

  sign_for-Authorized :
      (kind : Kind) (key receiver amount_raw : Text) (s : SignedPay)
      → sign_for w kind key receiver amount_raw ≡ ok s
      → Authorized kind key receiver amount_raw s.receiver_address s.signature
  unfolding sign_for
  sign_for-Authorized evm key receiver amount_raw s h =
      let (p, made, h1) =
        >>=-eq_ok (sign_evm_transfer w.evm_wallet w.now w.random key receiver amount_raw) _ h in
      let (wallet, chain, is_wallet, is_chain, can, auth) =
        sign_evm_transfer_sound w.evm_wallet w.now w.random key receiver amount_raw p made in
      subst
        (λ (x : SignedPay). Authorized evm key receiver amount_raw x.receiver_address x.signature)
        (ok-injective (evm_signed w p) s h1) (wallet, chain, is_wallet, is_chain, can, auth, refl)
  sign_for-Authorized starknet key receiver amount_raw s h =
      let (p, made, h1) =
        >>=-eq_ok
          (sign_starknet_transfer w.starknet_js w.supports w.starknet_wallet w.now w.random receiver
            amount_raw)
          _ h in
      let (wallet, is_wallet, executes) =
        sign_starknet_transfer_sound w.starknet_js w.supports w.starknet_wallet w.now w.random
          receiver amount_raw p made in
      subst
        (λ (x : SignedPay).
          Authorized starknet key receiver amount_raw x.receiver_address x.signature)
        (ok-injective (starknet_signed w p) s h1) (wallet, is_wallet, executes, refl)
  sign_for-Authorized solana key receiver amount_raw s h =
      let (p, made, h1) =
        >>=-eq_ok
          (sign_solana_transfer w.sha256 w.solana_account w.solana_wallet w.token_amount w.blockhash
            receiver amount_raw)
          _ h in
      let (n, is_n, owner, account, pays, signed) =
        sign_solana_transfer_sound w.sha256 w.solana_account w.solana_wallet w.token_amount
          w.blockhash receiver amount_raw p made in
      subst
        (λ (x : SignedPay).
          Authorized solana key receiver amount_raw x.receiver_address x.signature)
        (ok-injective (solana_signed w receiver amount_raw p) s h1)
        (n, is_n, owner, account, pays, signed, refl)

  -- The payment that was submitted.
  pub record Submits (link : Link) (route : Route) (input : Text) (payment : Payment) : Type 0 where
    pub chain : Chain
    pub account : Option Text
    pub is_chain : find_chain route.chain chains ≡ some chain
    pub is_named : payment.chain ≡ chain.key
    pub is_amount : parse_decimal input usdc_decimals ≡ some payment.amount_raw
    pub authorized :
        Authorized chain.kind chain.key route.address payment.amount_raw account payment.signature
    pub is_account : payment.receiver_address ≡ paid_account w route.address account
    pub is_merchant : payment.merchant_address ≡ link.merchant
    pub is_target : payment.destination_chain ≡ link.target
    pub was_submitted : w.submit payment ≡ ok tt

  -- A payment that is submitted through a link is for the amount that was typed, in the smallest
  -- unit, and names the merchant and the target of the link. Its signature is, on an EVM chain, an
  -- authorization, on Starknet an execution, and on Solana a message that transfers USDC from the
  -- token account of the payer to that of the receiver: each of just that amount to the receiver
  -- of the route. The account that it names as paid is that receiver, or on Solana its token
  -- account.
  pub pay_route_sound :
      (ps : Params) (link : Link) (route : Route) (input : Text) (payment : Payment)
      (settled : Option Settled)
      → pay_route w ps link route input ≡ ok (payment, settled)
      → Submits link route input payment
  unfolding pay_route
  pay_route_sound ps link route input payment settled h =
      let (chain, c, h1) = >>=-eq_ok (or_throw no_gasless (find_chain route.chain chains)) _ h in
      let (_, _, h2) = >>=-eq_ok (guard (gasless_ok link chain) no_gasless) _ h1 in
      let (amount_raw, a, h3) =
        >>=-eq_ok (or_throw invalid_amount (parse_decimal input usdc_decimals)) _ h2 in
      let (s, g, h4) =
        >>=-eq_ok (lift (sign_for w chain.kind chain.key route.address amount_raw)) _ h3 in
      let made = payment_of w ps link chain route.address amount_raw s in
      let (done, t, h5) = >>=-eq_ok (w.submit made) _ h4 in
      let same : made ≡ payment =
        ap (λ (x : Payment × Option Settled). x.0)
          (ok-injective (made, outcome w s.settlement) (payment, settled) h5) in
      subst (λ (x : Payment). Submits link route input x) same
        (record {
          chain = chain;
          account = s.receiver_address;
          is_chain = or_throw-eq_ok _ _ chain c;
          is_named = refl;
          is_amount = or_throw-eq_ok _ _ amount_raw a;
          authorized =
              sign_for-Authorized chain.kind chain.key route.address amount_raw s
                (lift-eq_ok _ s g);
          is_account = refl;
          is_merchant = refl;
          is_target = refl;
          was_submitted = t;
        })
