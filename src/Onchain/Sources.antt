-- ===== src/Onchain/Sources.antt =====
-- A predicted receiver is one that both sources give.
use open_beanie.Base.{◌≡◌, refl, sym, ◌∙◌, ap, List, [], ◌∷◌, true, Text, Bool-cases, inl, inr, ◌⊎◌}
use open_beanie.Base.Result.{Result, ok, err, ◌>>=◌, >>=-eq_ok}
use open_beanie.Chains.{Kind, evm, starknet, solana, Chain}
use open_beanie.Identity.{CctpRoute}
use open_beanie.Onchain.{
  ChainError, rpc_error, Node, Net, rpc, proxy_options, direct_options, require_chain, evm_result,
  first_felt, predict_data, predict_via, same_address, confirm, predict_receiver,
}

pub confirm-eq_ok :
    (chain : Chain) (via_proxy via_node : Result ChainError Text) (a : Text)
    → confirm chain via_proxy via_node ≡ ok a
    → (p : Text) × (via_proxy ≡ ok p) × (via_node ≡ ok a) × (same_address chain.kind p a ≡ ok true)
unfolding confirm
confirm-eq_ok chain (ok p) (ok d) a h =
    let (same, e, k) = >>=-eq_ok (same_address chain.kind p d) _ h in
    elim (Bool-cases same) [
      | inl t ↦ let there : d ≡ a = cc (rw t at k) in rw (← there) (p, refl, refl, rw (← t) e)
      | inr t ↦ cc (rw t at k)
    ]
confirm-eq_ok chain (err e) (ok d) a h = cc
confirm-eq_ok chain (ok p) (err e) a h = cc
confirm-eq_ok chain (err e) (err e') a h = cc

-- With `proxyOnly` what is given is the answer of the proxy, and with `direct` that of the node.
pub rpc-proxy {ℓ} :
    {A : Type ℓ} (via_proxy via_node : Result ChainError A)
    → rpc proxy_options via_proxy via_node ≡ via_proxy
unfolding rpc
rpc-proxy (ok a) via_node = refl
rpc-proxy (err (rpc_error t)) via_node = refl
rpc-proxy (err _) via_node = refl

rpc-node {ℓ} :
    {A : Type ℓ} (via_proxy via_node : Result ChainError A)
    → rpc direct_options via_proxy via_node ≡ via_node
unfolding rpc
rpc-node via_proxy via_node = refl

kinds : (k : Kind) → (k ≡ evm) ⊎ (k ≡ starknet) ⊎ (k ≡ solana)
kinds evm = inl refl
kinds starknet = inr (inl refl)
kinds solana = inr (inr refl)

-- What one node by itself answers when the factory of a chain is asked for a receiver.
abbrev pub Answers : Node → Chain → Text → CctpRoute → Text → Type 0
Answers node chain merchant route a =
    ((chain.kind ≡ evm)
      × ((node.eth_call chain.factory (predict_data merchant route) >>= evm_result) ≡ ok a))
    ⊎ (chain.kind ≡ starknet)
      × ((node.starknet_call chain.factory
              (merchant ∷ route.chain_felt ∷ route.low ∷ route.high ∷ [])
            >>= first_felt)
          ≡ ok a)

module _ (net : Net) (chain : Chain) (merchant : Text) (route : CctpRoute) (a : Text) where
  predict_via-proxy :
      predict_via net chain merchant route proxy_options ≡ ok a
      → Answers net.proxy chain merchant route a
  unfolding predict_via
  predict_via-proxy h =
      let call = predict_data merchant route in
      let felts = merchant ∷ route.chain_felt ∷ route.low ∷ route.high ∷ [] in
      elim (kinds chain.kind) [
        | inl e ↦
            let same =
              rpc-proxy (net.proxy.eth_call chain.factory call)
                (net.public.eth_call chain.factory call) in
            inl (
              e,
              ap (λ (r : Result ChainError Text). r >>= evm_result) (sym same)
                  ∙ rw (e, predict_via) at h,
            )
        | inr (inl e) ↦
            let same =
              rpc-proxy (net.proxy.starknet_call chain.factory felts)
                (net.public.starknet_call chain.factory felts) in
            inr (
              e,
              ap (λ (r : Result ChainError (List Text)). r >>= first_felt) (sym same)
                  ∙ rw (e, predict_via) at h,
            )
        | inr (inr e) ↦ cc (rw (e, predict_via) at h)
      ]

  predict_via-node :
      predict_via net chain merchant route direct_options ≡ ok a
      → Answers net.public chain merchant route a
  unfolding predict_via
  predict_via-node h = elim (kinds chain.kind) [
    | inl e ↦ inl (e, rw (e, predict_via) at h)
    | inr (inl e) ↦ inr (e, rw (e, predict_via) at h)
    | inr (inr e) ↦ cc (rw (e, predict_via) at h)
  ]

module _ (net : Net) (chain_key merchant : Text) (route : CctpRoute) where
  -- A receiver that is predicted is, on a chain that is known, what the public node by itself
  -- answers when the factory of the chain is asked; what the proxy by itself answers to the same
  -- call is the same address.
  pub predict_receiver_sources :
      (a : Text)
      → predict_receiver net chain_key merchant route ≡ ok a
      → (chain : Chain) × (p : Text) × (require_chain chain_key ≡ ok chain)
        × Answers net.proxy chain merchant route p
        × Answers net.public chain merchant route a
        × (same_address chain.kind p a ≡ ok true)
  unfolding predict_receiver
  predict_receiver_sources a h =
      let (chain, known, k) = >>=-eq_ok (require_chain chain_key) _ h in
      let (p, via_proxy, via_node, same) = confirm-eq_ok chain _ _ a k in
      (
        chain,
        p,
        known,
        predict_via-proxy net chain merchant route p via_proxy,
        predict_via-node net chain merchant route a via_node,
        same,
      )
