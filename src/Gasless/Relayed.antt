-- ===== src/Gasless/Relayed.antt =====
-- What is relayed for a payer is the payment that was asked for, signed by the payer.
use open_beanie.Base.{
  ℕ, ◌+◌, ◌*◌, ◌≡◌, refl, sym, ap, ◌∙◌, false, not, ◌==◌, ltb, all, List, [], ◌∷◌, Option, none,
  some, Text, take, drop, get_elem?, text_eq→eq, Bool-cases, Option-cases, inl, inr,
}
use open_beanie.Base.Positional.{low_value}
use open_beanie.Base.Result.{Result, ok, err, ◌>>◌, guard, pos, >>=-eq_ok, guard-eq_ok}
use open_beanie.Chains.{solana_chain}
use open_beanie.Chains.Ready.{can_gasless}
use open_beanie.Onchain.{ChainError, big_int_of}
use open_beanie.Solana.Base58.{base58_encode}
use open_beanie.Solana.Program.{pubkey, usdc_ata, bytes_equal}
use open_beanie.Solana.Transfer.{token_program, build_transfer_checked_message}
use open_beanie.Solana.Transfer.Layout.{amount-build, account-build, instruction-build}
use open_beanie.Solana.Wire.{Transaction, unsigned_transaction, parse_transaction}
use open_beanie.Gasless.{
  SignError, from_chain, from_program, from_build, not_available, no_account, not_enough,
  wallet_refused, malformed_transaction, modified, not_signed, lift, or_fail, Payload, keeper,
  owner_signature, token_balance, transfer_args, check_signed, sign_message, pay,
  sign_solana_transfer,
}

lift-eq_ok :
    {E A : Type 0} (f : E → SignError) (r : Result E A) (a : A) → lift f r ≡ ok a → r ≡ ok a
lift-eq_ok f (ok b) a h = cc
lift-eq_ok f (err e) a h = cc

pub or_fail-eq_ok :
    {A : Type 0} (e : SignError) (o : Option A) (a : A) → or_fail e o ≡ ok a → o ≡ some a
or_fail-eq_ok e none a h = cc
or_fail-eq_ok e (some b) a h = cc

owner_signature-eq_some :
    (signatures : List (List ℕ)) (s : List ℕ)
    → owner_signature signatures ≡ some s
    → (get_elem? signatures 1 ≡ some s) × (all (λ b. b == 0) s ≡ false)
unfolding owner_signature
owner_signature-eq_some signatures s h = elim (Option-cases (get_elem? signatures 1)) [
  | inl e ↦ cc (rw (owner_signature, e) at h)
  | inr (t, e) ↦ elim (Bool-cases (all (λ b. b == 0) t)) [
    | inl z ↦ cc (rw (owner_signature, e, z) at h)
    | inr z ↦ let same : t ≡ s = cc (rw (owner_signature, e, z) at h) in rw (← same) (e, z)
  ]
]

module _ (sha256 : List ℕ → List ℕ) (account : Option Text) (wallet : List ℕ → Option (List ℕ))
    (token_amount : Text → Result ChainError Text) (blockhash : Result ChainError Text) where
  -- What the wallet gave back for the message: a transaction with it, signed second by the owner.
  pub record Signed (p : Payload) : Type 0 where
    pub bytes : List ℕ
    pub transaction : Transaction
    pub is_answer : wallet (unsigned_transaction p.message 2) ≡ some bytes
    pub is_parsed : parse_transaction bytes ≡ some transaction
    pub is_message : transaction.message ≡ p.message
    pub is_signature : get_elem? transaction.signatures 1 ≡ some p.signature
    pub is_signed : all (λ b. b == 0) p.signature ≡ false

  -- What the message says. Its one instruction is that of the program with the index 5, the token
  -- program, and is TransferChecked (12): from the account 2, which is the owner's token account,
  -- for the mint 4, to the account 3, by the account 1, the owner; and it has 6 decimals. Two
  -- sign, the keeper, which has the index 0 and pays the fee, and the owner, which is readonly.
  pub record Pays (p : Payload) (n : ℕ) : Type 0 where
    pub header : take 4 p.message ≡ 2 ∷ 1 ∷ 2 ∷ 6 ∷ []
    pub instruction : take 9 (drop 228 p.message) ≡ 1 ∷ 5 ∷ 4 ∷ 2 ∷ 4 ∷ 3 ∷ 1 ∷ 10 ∷ 12 ∷ []
    pub decimals : drop 245 p.message ≡ 6 ∷ []
    pub program : base58_encode (take 32 (drop (4 + 5 * 32) p.message)) ≡ token_program
    pub source : Text
    pub is_source : usdc_ata sha256 p.owner solana_chain.usdc ≡ ok source
    pub payer_account : base58_encode (take 32 (drop (4 + 2 * 32) p.message)) ≡ source
    pub payer : base58_encode (take 32 (drop (4 + 1 * 32) p.message)) ≡ p.owner
    pub payee : base58_encode (take 32 (drop (4 + 3 * 32) p.message)) ≡ p.receiver_address
    pub mint : base58_encode (take 32 (drop (4 + 4 * 32) p.message)) ≡ solana_chain.usdc
    pub fee_payer : base58_encode (take 32 (drop (4 + 0 * 32) p.message)) ≡ keeper
    pub amount : n ≡ low_value 256 (take 8 (drop 237 p.message))

  sign_message-Signed :
      (owner destination : Text) (message : List ℕ) (p : Payload)
      → sign_message sha256 account wallet token_amount blockhash owner destination message ≡ ok p
      → (p.message ≡ message) × (p.owner ≡ owner) × (p.receiver_address ≡ destination) × Signed p
  unfolding sign_message check_signed bytes_equal
  sign_message-Signed owner destination message p h =
      let (bytes, answer, h1) =
        >>=-eq_ok (or_fail wallet_refused (wallet (unsigned_transaction message 2))) _ h in
      let (signature, checked, h2) =
        >>=-eq_ok (check_signed sha256 account wallet token_amount blockhash message bytes) _ h1 in
      let (t, parsed, h3) =
        >>=-eq_ok (or_fail malformed_transaction (parse_transaction bytes)) _ checked in
      let (_, same_text, found) =
        >>=-eq_ok (guard (bytes_equal t.message message) modified)
          (λ _. or_fail not_signed (owner_signature t.signatures)) h3 in
      let (second, nonzero) =
        owner_signature-eq_some t.signatures signature
          (or_fail-eq_ok not_signed _ signature found) in
      let same : ◌≡◌ {A = Payload}
          (record {
            message = message;
            signature = signature;
            owner = owner;
            receiver_address = destination;
          })
          p =
        cc in
      rw (← same) (
        refl,
        refl,
        refl,
        record {
          bytes = bytes;
          transaction = t;
          is_answer = or_fail-eq_ok wallet_refused _ bytes answer;
          is_parsed = or_fail-eq_ok malformed_transaction _ t parsed;
          is_message = text_eq→eq t.message message (guard-eq_ok _ modified same_text);
          is_signature = second;
          is_signed = nonzero;
        },
      )

  built_Pays :
      (owner source destination : Text) (n : ℕ) (hash : Text) (message : List ℕ) (p : Payload)
      → build_transfer_checked_message (
          transfer_args sha256 account wallet token_amount blockhash owner source destination n
            hash)
        ≡ ok message
      → p.message ≡ message
      → p.owner ≡ owner
      → p.receiver_address ≡ destination
      → usdc_ata sha256 owner solana_chain.usdc ≡ ok source
      → Pays p n
  built_Pays owner source destination n hash message p built is_m is_o is_d is_s =
      let args =
        transfer_args sha256 account wallet token_amount blockhash owner source destination n
          hash in
      let at = λ (i : ℕ) (m : List ℕ). base58_encode (take 32 (drop (4 + i * 32) m)) in
      let value = λ (m : List ℕ). low_value 256 (take 8 (drop 237 m)) in
      let amount : pos n ≡ pos (value message) = (amount-build args message built).0 in
      let same : n ≡ value message = cc in
      let (front, middle, last) = instruction-build args message built in
      record {
        header = ap (take 4) is_m ∙ front;
        instruction = ap (λ (m : List ℕ). take 9 (drop 228 m)) is_m ∙ middle;
        decimals = ap (drop 245) is_m ∙ last;
        program = ap (at 5) is_m ∙ account-build args message built 5 token_program refl;
        source = source;
        is_source = ap (λ (t : Text). usdc_ata sha256 t solana_chain.usdc) is_o ∙ is_s;
        payer_account = ap (at 2) is_m ∙ account-build args message built 2 source refl;
        payer = ap (at 1) is_m ∙ account-build args message built 1 owner refl ∙ sym is_o;
        payee = ap (at 3) is_m ∙ account-build args message built 3 destination refl ∙ sym is_d;
        mint = ap (at 4) is_m ∙ account-build args message built 4 solana_chain.usdc refl;
        fee_payer = ap (at 0) is_m ∙ account-build args message built 0 keeper refl;
        amount = same ∙ ap value (sym is_m);
      }

  pay-Pays :
      (owner receiver : Text) (n : ℕ) (p : Payload)
      → pay sha256 account wallet token_amount blockhash owner receiver n ≡ ok p
      → (p.owner ≡ owner)
        × (usdc_ata sha256 receiver solana_chain.usdc ≡ ok p.receiver_address)
        × Pays p n
        × Signed p
  unfolding pay
  pay-Pays owner receiver n p h =
      let (source, is_s, h1) =
        >>=-eq_ok (lift from_program (usdc_ata sha256 owner solana_chain.usdc)) _ h in
      let (destination, d, h2) =
        >>=-eq_ok (lift from_program (usdc_ata sha256 receiver solana_chain.usdc)) _ h1 in
      let (hash, _, h3) = >>=-eq_ok (lift from_chain blockhash) _ h2 in
      let args =
        transfer_args sha256 account wallet token_amount blockhash owner source destination n
          hash in
      let (message, m, h4) =
        >>=-eq_ok (lift from_build (build_transfer_checked_message args)) _ h3 in
      let built = lift-eq_ok from_build (build_transfer_checked_message args) message m in
      let (is_m, is_o, is_d, signed) = sign_message-Signed owner destination message p h4 in
      (
        is_o,
        lift-eq_ok from_program _ destination d ∙ ap (λ (t : Text). ok t) (sym is_d),
        built_Pays owner source destination n hash message p built is_m is_o is_d
            (lift-eq_ok from_program _ source is_s),
        signed,
      )

  -- A payload that is made for a receiver and an amount has a message whose one instruction is a
  -- TransferChecked of the token program: it moves just that amount of USDC from the token account
  -- of the wallet's account, which the payload names as owner and which authorizes it, to the
  -- receiver's token account, which the payload names as the address. The keeper of the settings,
  -- which is still the placeholder, pays the fee. The payload is what the wallet gave back for
  -- that message, with a second signature that is not all zeros.
  pub sign_solana_transfer_sound :
      (receiver amount_raw : Text) (p : Payload)
      → sign_solana_transfer sha256 account wallet token_amount blockhash receiver amount_raw ≡ ok p
      → (n : ℕ) × (big_int_of amount_raw ≡ ok n)
        × (account ≡ some p.owner)
        × (usdc_ata sha256 receiver solana_chain.usdc ≡ ok p.receiver_address)
        × Pays p n
        × Signed p
  unfolding sign_solana_transfer
  sign_solana_transfer_sound receiver amount_raw p h =
      let (_, _, h1) =
        >>=-eq_ok
          (guard (can_gasless solana_chain) not_available >> lift from_program (pubkey keeper)) _
          h in
      let (owner, o, h2) = >>=-eq_ok (or_fail no_account account) _ h1 in
      let (balance, _, h3) =
        >>=-eq_ok (token_balance sha256 account wallet token_amount blockhash owner) _ h2 in
      let (n, is_n, h4) = >>=-eq_ok (lift from_chain (big_int_of amount_raw)) _ h3 in
      let go = pay sha256 account wallet token_amount blockhash owner receiver n in
      let (_, _, paid) = >>=-eq_ok (guard (not (ltb balance n)) not_enough) (λ _. go) h4 in
      let (is_o, dest, pays, signed) = pay-Pays owner receiver n p paid in
      (
        n,
        lift-eq_ok from_chain (big_int_of amount_raw) n is_n,
        or_fail-eq_ok no_account account owner o ∙ ap (λ (t : Text). some t) (sym is_o),
        dest,
        pays,
        signed,
      )
