-- ===== src/Onchain/Accounts/Confirmed.antt =====
-- A predicted stealth account is one that both sources give.
use open_beanie.Base.{ℕ, ◌≡◌, sym, ◌∙◌, ap, true, List, Option, Text}
use open_beanie.Base.Result.{Result, ok, err, guard, >>=-eq_ok, guard-eq_ok, ok-injective}
use open_beanie.Base.Strings.{to_lower}
use open_beanie.Chains.{evm, Chain, has_text}
use open_beanie.Chains.Ready.{or_empty}
use open_beanie.Onchain.{
  ChainError, rpc, require_chain, proxy_options, direct_options, same_address,
}
use open_beanie.Onchain.Sources.{confirm-eq_ok, rpc-proxy}
use open_beanie.Onchain.Accounts.{
  AccountNode, Accounts, no_stealth_factory, factory_missing, invalid_salt, of_chain, is_kind,
  is_salt, stealth_address_via, predict_stealth_account,
}

of_chain-eq_ok {ℓ} : {A : Type ℓ} (m : Result ChainError A) (a : A) → of_chain m ≡ ok a → m ≡ ok a
of_chain-eq_ok (ok b) a h = ap (λ x. ok x) (ok-injective b a h)
of_chain-eq_ok (err e) a h = cc

-- What one node by itself answers when a factory is asked for an account, in lower case.
abbrev pub Answers : AccountNode → Text → Text → Text → Text → Text → Type 0
unfolding to_lower
Answers node factory client cosigner salt a =
    (t : Text) × (node.stealth_address factory client cosigner salt ≡ ok t) × (to_lower t ≡ a)

module _ (sha256 : List ℕ → List ℕ) (accounts : Text → Accounts) where
  via-proxy :
      (chain : Chain) (factory client cosigner salt a : Text)
      → stealth_address_via sha256 accounts chain factory client cosigner salt proxy_options ≡ ok a
      → Answers (accounts chain.key).proxy factory client cosigner salt a
  unfolding stealth_address_via
  via-proxy chain factory client cosigner salt a h =
      let same =
        rpc-proxy ((accounts chain.key).proxy.stealth_address factory client cosigner salt)
          ((accounts chain.key).public.stealth_address factory client cosigner salt) in
      let (t, e, k) =
        >>=-eq_ok
          (rpc proxy_options
            ((accounts chain.key).proxy.stealth_address factory client cosigner salt)
            ((accounts chain.key).public.stealth_address factory client cosigner salt))
          _ h in
      (t, sym same ∙ e, ok-injective _ a k)

  via-node :
      (chain : Chain) (factory client cosigner salt a : Text)
      → stealth_address_via sha256 accounts chain factory client cosigner salt direct_options ≡ ok a
      → Answers (accounts chain.key).public factory client cosigner salt a
  unfolding stealth_address_via rpc
  via-node chain factory client cosigner salt a h =
      let (t, e, k) =
        >>=-eq_ok ((accounts chain.key).public.stealth_address factory client cosigner salt) _ h in
      (t, e, ok-injective _ a k)

  -- A stealth account is predicted only on an EVM chain that is known, with a factory and a salt
  -- of 32 bytes; it is what the public node by itself answers when that factory is asked for the
  -- client, the cosigner and the salt, in lower case; and what the proxy by itself answers to the
  -- same call is the same address.
  pub predict_stealth_account_sources :
      (chain_key client cosigner salt : Text) (factory : Option Text) (a : Text)
      → predict_stealth_account sha256 accounts chain_key client cosigner salt factory ≡ ok a
      → (chain : Chain) × (p : Text) × (require_chain chain_key ≡ ok chain)
        × (is_kind evm chain ≡ true)
        × (has_text factory ≡ true)
        × (is_salt salt ≡ true)
        × Answers (accounts chain.key).proxy (or_empty factory) client cosigner salt p
        × Answers (accounts chain.key).public (or_empty factory) client cosigner salt a
        × (same_address chain.kind p a ≡ ok true)
  unfolding predict_stealth_account
  predict_stealth_account_sources chain_key client cosigner salt factory a h =
      let (chain, known, h1) = >>=-eq_ok (of_chain (require_chain chain_key)) _ h in
      let (_, g1, h2) =
        >>=-eq_ok (guard (is_kind evm chain) (no_stealth_factory chain.name)) _ h1 in
      let (_, g2, h3) = >>=-eq_ok (guard (has_text factory) (factory_missing chain.name)) _ h2 in
      let (_, g3, h4) = >>=-eq_ok (guard (is_salt salt) invalid_salt) _ h3 in
      let (p, via_proxy, via_node, same) = confirm-eq_ok chain _ _ a (of_chain-eq_ok _ a h4) in
      (
        chain,
        p,
        of_chain-eq_ok _ chain known,
        guard-eq_ok _ _ g1,
        guard-eq_ok _ _ g2,
        guard-eq_ok _ _ g3,
        via-proxy chain (or_empty factory) client cosigner salt p via_proxy,
        via-node chain (or_empty factory) client cosigner salt a via_node,
        same,
      )
