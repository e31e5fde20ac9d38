-- ===== src/Gasless/Starknet/Executed.antt =====
-- What a Starknet wallet signs for a payment.
use open_beanie.Base.{
  ℕ, ◌+◌, ◌/◌, ◌≡◌, refl, sym, true, ◌⊎◌, inl, inr, Bool, false, List, [], ◌∷◌, Option, some, Text,
  codes,
}
use mathlib.Core.Path.{subst}
use open_beanie.Base.Result.{Result, ok, err, guard, >>=-eq_ok, guard-eq_ok, ok-injective}
use open_beanie.Chains.{starknet_chain}
use open_beanie.Chains.Ready.{keeper_starknet_address}
use open_beanie.Onchain.{ChainError}
use open_beanie.Gasless.{no_wallet, cannot_sign, wrong_network, or_fail}
use open_beanie.Gasless.Relayed.{or_fail-eq_ok}
use open_beanie.Gasless.Outside.{Version, v1, v2, build_typed_data}
use open_beanie.Gasless.Starknet.{
  Signed, StarknetWallet, StarknetJs, StarknetPayload, chain_or_mainnet, is_mainnet,
  selected_address, signature_of, detect_snip9_version, execution_of, sign_starknet_transfer,
  supports_interface, version_of, snip9_v1_interface_id, snip9_v2_interface_id,
}

v2-ne-v1 : ◌≡◌ {A = Version} v2 v1 → ⊥
v2-ne-v1 h = cc

module _ (js : StarknetJs) (supports : Text → Text → Result ChainError (List Text)) where
  -- A version is one that the account supports, or the newest where neither could be asked.
  abbrev pub Supported : Text → Version → Type 0
  unfolding supports_interface
  Supported user v1 = supports_interface js supports user snip9_v1_interface_id ≡ ok true
  Supported user v2 =
      (supports_interface js supports user snip9_v2_interface_id ≡ ok true)
      ⊎ (e e' : ChainError) × (supports_interface js supports user snip9_v2_interface_id ≡ err e)
        × (supports_interface js supports user snip9_v1_interface_id ≡ err e')

  -- What is signed, and by what.
  pub record Executes (wallet : StarknetWallet) (now : ℕ) (receiver amount_raw : Text)
      (p : StarknetPayload) : Type 0 where
    pub user : Text
    pub recipient : Text
    pub usdc : Text
    pub signed : Signed
    pub on_mainnet : is_mainnet (chain_or_mainnet wallet.reported_chain) ≡ true
    pub is_recipient : js.parse_address receiver ≡ ok recipient
    pub is_usdc : js.parse_address starknet_chain.usdc ≡ ok usdc
    pub is_keeper : js.parse_address keeper_starknet_address ≡ ok p.execution.caller
    pub is_user : p.user_address ≡ user
    pub supported : Supported user p.version
    pub one_call :
        p.execution.calls
        ≡ record {
          to = usdc;
          selector = js.selector (codes "transfer");
          calldata = js.transfer_calldata recipient amount_raw;
        }
          ∷ []
    pub expires : p.execution.execute_before ≡ now / 1000 + 600
    pub is_signed :
        wallet.sign_message
          (build_typed_data p.execution (chain_or_mainnet wallet.reported_chain) p.version)
        ≡ ok signed
    pub is_signature : signature_of signed ≡ ok p.signature

  version_of-Supported :
      (user : Text) (v : Version) (two one : Result ChainError Bool)
      → supports_interface js supports user snip9_v2_interface_id ≡ two
      → supports_interface js supports user snip9_v1_interface_id ≡ one
      → version_of two one ≡ ok v
      → Supported user v
  unfolding Supported
  version_of-Supported user v1 (ok true) one is_two is_one h =
      absurd (v2-ne-v1 (ok-injective v2 v1 h))
  version_of-Supported user v2 (ok true) one is_two is_one h = inl is_two
  version_of-Supported user v1 (ok false) (ok true) is_two is_one h = is_one
  version_of-Supported user v2 (ok false) (ok true) is_two is_one h =
      absurd (v2-ne-v1 (sym (ok-injective v1 v2 h)))
  version_of-Supported user v (ok false) (ok false) is_two is_one h = cc
  version_of-Supported user v (ok false) (err e) is_two is_one h = cc
  version_of-Supported user v1 (err e) (ok true) is_two is_one h = is_one
  version_of-Supported user v2 (err e) (ok true) is_two is_one h =
      absurd (v2-ne-v1 (sym (ok-injective v1 v2 h)))
  version_of-Supported user v (err e) (ok false) is_two is_one h = cc
  version_of-Supported user v1 (err e) (err e') is_two is_one h =
      absurd (v2-ne-v1 (ok-injective v2 v1 h))
  version_of-Supported user v2 (err e) (err e') is_two is_one h = inr (e, e', is_two, is_one)

  detect_snip9_version-Supported :
      (user : Text) (v : Version) → detect_snip9_version js supports user ≡ ok v → Supported user v
  unfolding detect_snip9_version
  detect_snip9_version-Supported user v h =
      version_of-Supported user v (supports_interface js supports user snip9_v2_interface_id)
        (supports_interface js supports user snip9_v1_interface_id) refl refl h

  -- An execution on Starknet is signed only on mainnet; it has one call, a transfer of the amount
  -- to the receiver in USDC, with the keeper as its caller, and expires 600 seconds from now; the
  -- version is one that the account supports, or the newest where neither could be asked; and the
  -- signature is what the wallet gave for that execution and version.
  pub sign_starknet_transfer_sound :
      (provider : Option StarknetWallet) (now : ℕ) (random : List ℕ) (receiver amount_raw : Text)
      (p : StarknetPayload)
      → sign_starknet_transfer js supports provider now random receiver amount_raw ≡ ok p
      → (wallet : StarknetWallet) × (provider ≡ some wallet)
        × Executes wallet now receiver amount_raw p
  unfolding sign_starknet_transfer
  sign_starknet_transfer_sound provider now random receiver amount_raw p h =
      let (wallet, w, h2) = >>=-eq_ok (or_fail no_wallet provider) _ h in
      let (_, _, h3) = >>=-eq_ok wallet.connects _ h2 in
      let (raw, _, h4) = >>=-eq_ok (selected_address wallet.selected) _ h3 in
      let (_, _, h5) = >>=-eq_ok (guard wallet.can_sign cannot_sign) _ h4 in
      let (user, _, h6) = >>=-eq_ok (js.parse_address raw) _ h5 in
      let (caller, k, h7) = >>=-eq_ok (js.parse_address keeper_starknet_address) _ h6 in
      let chain_id = chain_or_mainnet wallet.reported_chain in
      let (_, g, h8) =
        >>=-eq_ok (guard (is_mainnet chain_id) (wrong_network starknet_chain.name)) _ h7 in
      let (version, v, h9) = >>=-eq_ok (detect_snip9_version js supports user) _ h8 in
      let (recipient, r, h10) = >>=-eq_ok (js.parse_address receiver) _ h9 in
      let (usdc, u, h11) = >>=-eq_ok (js.parse_address starknet_chain.usdc) _ h10 in
      let execution =
        execution_of js supports caller usdc (js.selector (codes "transfer"))
          (js.transfer_calldata recipient amount_raw) now random in
      let (signed, s, h12) =
        >>=-eq_ok (wallet.sign_message (build_typed_data execution chain_id version)) _ h11 in
      let (signature, i, h13) = >>=-eq_ok (signature_of signed) _ h12 in
      let made : StarknetPayload = record {
        execution = execution;
        signature = signature;
        user_address = user;
        version = version;
      } in
      let same : made ≡ p = ok-injective made p h13 in
      (
        wallet,
        or_fail-eq_ok no_wallet provider wallet w,
        subst (λ (q : StarknetPayload). Executes wallet now receiver amount_raw q) same
            (record {
              user = user;
              recipient = recipient;
              usdc = usdc;
              signed = signed;
              on_mainnet = guard-eq_ok _ _ g;
              is_recipient = r;
              is_usdc = u;
              is_keeper = k;
              is_user = refl;
              supported = detect_snip9_version-Supported user version v;
              one_call = refl;
              expires = refl;
              is_signed = s;
              is_signature = i;
            }),
      )
