-- ===== src/Claim/Solana/Sound.antt =====
-- What a claim on Solana moves, and where to.
use open_beanie.Base.{
  ℕ, ◌+◌, ◌*◌, ◌<◌, ◌≡◌, refl, sym, ap, take, drop, true, false, leb, List, some, Text, text_eq,
  length, arith,
}
use open_beanie.Base.Result.{ok, guard, >>=-eq_ok, guard-eq_ok, ok-injective}
use open_beanie.Base.Positional.{low_value}
use open_beanie.Chains.{solana_chain}
use open_beanie.Solana.Base58.{base58_encode}
use open_beanie.Solana.Transfer.{token_program}
use open_beanie.Base.Result.{pos}
use open_beanie.Identity.{with_0x, to_hex}
use open_beanie.Chains.Config.{StealthConfig}
use open_beanie.Chains.Ready.{or_empty}
use open_beanie.Identity.{canonical_address}
use open_beanie.Onchain.Accounts.{Accounts, read, contract_exists}
use open_beanie.Solana.Program.{usdc_ata}
use open_beanie.Claim.{
  ClaimError, from_chain, from_program, from_build, invalid_destination, source_missing,
  destination_missing, message_too_long, lift, or_fail, solana_sig, Signer, Built, lift-eq_ok,
  or_fail-eq_ok,
}
use open_beanie.Claim.Message.{build_solana_message}
use open_beanie.Claim.Message.Layout.{Says, build_solana_message-Says}
use open_beanie.Claim.Solana.{
  usable_blockhash, claim_args, solana_checks, there, built_of, build_solana_claim,
}

pos-injective : (m n : ℕ) → pos m ≡ pos n → n ≡ m
pos-injective m n h = cc

-- The account with an index in a message.
abbrev pub key_at : ℕ → List ℕ → Text
key_at i m = base58_encode (take 32 (drop (4 + i * 32) m))

module _ (sha256 : List ℕ → List ℕ) (accounts : Text → Accounts)
    (sign : List ℕ → Text → List ℕ) where
  -- What is submitted for a balance, and the message that it is about.
  pub record Moves (signer : Signer) (destination : Text) (balance : ℕ) (config : StealthConfig)
      (b : Built) : Type 0 where
    pub payee : Text
    pub source : Text
    pub target : Text
    pub hash : Text
    pub message : List ℕ
    pub is_payee : canonical_address solana_chain.key destination ≡ some payee
    pub is_other : text_eq payee signer.address ≡ false
    pub is_source : usdc_ata sha256 signer.address (or_empty config.usdc) ≡ ok source
    pub is_target : usdc_ata sha256 payee (or_empty config.usdc) ≡ ok target
    pub has_source : contract_exists sha256 accounts solana_chain.key source ≡ ok true
    pub has_target : contract_exists sha256 accounts solana_chain.key target ≡ ok true
    pub not_empty : 0 < balance
    pub says :
        Says
          (record {
            relayer = or_empty config.relayer;
            client = signer.client_address;
            cosigner = or_empty config.cosigner;
            source = source;
            destination = target;
            mint = or_empty config.usdc;
            amount = pos balance;
            blockhash = hash;
            authority = signer.address;
          })
          message
    pub accounts_at :
        (key_at 0 message ≡ or_empty config.relayer)
        × (key_at 1 message ≡ signer.client_address)
        × (key_at 2 message ≡ or_empty config.cosigner)
        × (key_at 3 message ≡ source)
        × (key_at 4 message ≡ target)
        × (key_at 5 message ≡ or_empty config.usdc)
        × (key_at 6 message ≡ token_program)
        × (key_at 7 message ≡ signer.address)
    pub moves_all : low_value 256 (take 8 (drop 303 message)) ≡ balance
    pub is_message : b.message_bytes ≡ some (with_0x (to_hex message))
    pub is_hash : b.tx_hash ≡ with_0x (to_hex (sha256 message))
    pub is_signed : b.client_sig ≡ solana_sig (to_hex (sign message signer.private_key))
    pub is_account : b.derived_address ≡ signer.client_address

  checks-eq_ok :
      (signer : Signer) (payee : Text) (balance : ℕ) (config : StealthConfig) {t : Unit {0}}
      → solana_checks sha256 accounts sign signer payee balance config ≡ ok t
      → (text_eq payee signer.address ≡ false) × (0 < balance)
  checks-eq_ok signer payee balance config h = ground arith

  there-eq_ok :
      (missing : ClaimError) (account : Text) {t : Unit {0}}
      → there sha256 accounts sign missing account ≡ ok t
      → contract_exists sha256 accounts solana_chain.key account ≡ ok true
  unfolding there
  there-eq_ok missing account h =
      let (b, e, k) =
        >>=-eq_ok (lift from_chain (contract_exists sha256 accounts solana_chain.key account)) _
          h in
      rw (← guard-eq_ok b missing k) (lift-eq_ok from_chain _ b e)

  -- A claim on Solana is built only for a destination that is a public key other than the account
  -- of the lane, for a balance that is not 0, and with both token accounts there. Its message has
  -- 312 bytes and one instruction, a TransferChecked of the token program: it moves the whole
  -- balance of USDC from the token account of the lane to that of the destination, by the account
  -- of the lane with the client and the cosigner as signers, and the relayer is the first account.
  -- What is submitted is that message with its hash and its signature.
  pub build_solana_claim_sound :
      (signer : Signer) (destination : Text) (balance : ℕ) (config : StealthConfig) (b : Built)
      → build_solana_claim sha256 accounts sign signer destination balance config ≡ ok b
      → Moves signer destination balance config b
  unfolding build_solana_claim
  build_solana_claim_sound signer destination balance config b h =
      let (payee, p, h1) =
        >>=-eq_ok (or_fail invalid_destination (canonical_address solana_chain.key destination)) _
          h in
      let (_, c, h2) =
        >>=-eq_ok (solana_checks sha256 accounts sign signer payee balance config) _ h1 in
      let (other, some_left) = checks-eq_ok signer payee balance config c in
      let (source, s, h3) =
        >>=-eq_ok (lift from_program (usdc_ata sha256 signer.address (or_empty config.usdc))) _
          h2 in
      let (target, d, h4) =
        >>=-eq_ok (lift from_program (usdc_ata sha256 payee (or_empty config.usdc))) _ h3 in
      let (_, e, h5) = >>=-eq_ok (there sha256 accounts sign source_missing source) _ h4 in
      let (_, f, h6) = >>=-eq_ok (there sha256 accounts sign destination_missing target) _ h5 in
      let (latest, _, h7) =
        >>=-eq_ok
          (lift from_chain (read sha256 accounts solana_chain.key (λ node. node.latest_blockhash)))
          _ h6 in
      let (hash, _, h8) = >>=-eq_ok (usable_blockhash latest) _ h7 in
      let args = claim_args signer config source target balance hash in
      let (message, m, h9) = >>=-eq_ok (lift from_build (build_solana_message args)) _ h8 in
      let (_, _, h10) =
        >>=-eq_ok (guard (leb (length message) 1232) message_too_long)
          (λ _. ok (built_of sha256 accounts sign signer message)) h9 in
      let same = ok-injective (built_of sha256 accounts sign signer message) b h10 in
      let told = build_solana_message-Says args message (lift-eq_ok from_build _ message m) in
      let value : pos balance ≡ pos (low_value 256 (take 8 (drop 303 message))) = told.amount.0 in
      record {
        payee = payee;
        source = source;
        target = target;
        hash = hash;
        message = message;
        is_payee = or_fail-eq_ok invalid_destination _ payee p;
        is_other = other;
        is_source = lift-eq_ok from_program _ source s;
        is_target = lift-eq_ok from_program _ target d;
        has_source = there-eq_ok source_missing source e;
        has_target = there-eq_ok destination_missing target f;
        not_empty = some_left;
        says = told;
        accounts_at = (
          told.account 0 (or_empty config.relayer) refl,
          told.account 1 signer.client_address refl,
          told.account 2 (or_empty config.cosigner) refl,
          told.account 3 source refl,
          told.account 4 target refl,
          told.account 5 (or_empty config.usdc) refl,
          told.account 6 token_program refl,
          told.account 7 signer.address refl,
        );
        moves_all = pos-injective balance _ value;
        is_message = sym (ap (λ (x : Built). x.message_bytes) same);
        is_hash = sym (ap (λ (x : Built). x.tx_hash) same);
        is_signed = sym (ap (λ (x : Built). x.client_sig) same);
        is_account = sym (ap (λ (x : Built). x.derived_address) same);
      }
