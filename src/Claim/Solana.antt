-- ===== src/Claim/Solana.antt =====
-- stealth.claim.js, `buildSolanaClaim`.
pub mod Sound
use open_beanie.Base.{
  ℕ, ◌^◌, Bool, not, ◌&&◌, ◌==◌, ltb, leb, if◌then◌else◌, List, [], ◌∷◌, Option, none, some, Text,
  text_eq, length,
}
use open_beanie.Base.Result.{Result, ok, err, pos, ◌>>=◌, ◌>>◌, guard}
use open_beanie.Chains.{has_text, solana_chain}
use open_beanie.Chains.Config.{StealthConfig}
use open_beanie.Chains.Ready.{or_empty}
use open_beanie.Identity.{with_0x, to_hex, canonical_address}
use open_beanie.Onchain.Accounts.{Accounts, read, contract_exists}
use open_beanie.Solana.Program.{usdc_ata}
use open_beanie.Claim.{
  ClaimError, from_chain, from_program, from_build, invalid_destination, own_account,
  nothing_to_claim, amount_too_large, incomplete_config, source_missing, destination_missing,
  no_blockhash, message_too_long, lift, or_fail, Signer, solana_sig, Built,
}
use open_beanie.Claim.Message.{ClaimArgs, build_solana_message}

-- `!blockhash`
abbrev pub usable_blockhash : Option Text → Result ClaimError Text
usable_blockhash none = err no_blockhash
usable_blockhash (some t) = if has_text (some t) then ok t else err no_blockhash

abbrev pub is_complete : StealthConfig → Bool
is_complete c = has_text c.cosigner && has_text c.relayer && has_text c.usdc

abbrev pub claim_args : Signer → StealthConfig → Text → Text → ℕ → Text → ClaimArgs
claim_args signer config source destination balance hash = record {
  relayer = or_empty config.relayer;
  client = signer.client_address;
  cosigner = or_empty config.cosigner;
  source = source;
  destination = destination;
  mint = or_empty config.usdc;
  amount = pos balance;
  blockhash = hash;
  authority = signer.address;
}

-- `sign` is ed25519 of the library noble, with the bytes of a key by ethers.
module _ (sha256 : List ℕ → List ℕ) (accounts : Text → Accounts)
    (sign : List ℕ → Text → List ℕ) where
  abbrev pub solana_checks : Signer → Text → ℕ → StealthConfig → Result ClaimError (Unit {0})
  solana_checks signer dest balance config =
      guard (not (text_eq dest signer.address)) own_account
      >> guard (not (balance == 0)) nothing_to_claim
      >> guard (ltb balance (2 ^ 64)) amount_too_large
      >> guard (is_complete config) incomplete_config

  abbrev pub there : ClaimError → Text → Result ClaimError (Unit {0})
  unfolding contract_exists
  there missing account =
      lift from_chain (contract_exists sha256 accounts solana_chain.key account) >>= λ b.
      guard b missing

  abbrev pub built_of : Signer → List ℕ → Built
  unfolding to_hex
  built_of signer message = record {
    tx_hash = with_0x (to_hex (sha256 message));
    derived_address = signer.client_address;
    client_sig = solana_sig (to_hex (sign message signer.private_key));
    calls = [];
    auth3009 = none;
    starknet = none;
    message_bytes = some (with_0x (to_hex message));
  }

  unfoldable pub build_solana_claim : Signer → Text → ℕ → StealthConfig → Result ClaimError Built
  unfolding build_solana_message contract_exists to_hex text_eq
  build_solana_claim signer destination balance config =
      or_fail invalid_destination (canonical_address solana_chain.key destination) >>= λ dest.
      solana_checks signer dest balance config >>= λ _.
      lift from_program (usdc_ata sha256 signer.address (or_empty config.usdc)) >>= λ source.
      lift from_program (usdc_ata sha256 dest (or_empty config.usdc)) >>= λ destination_ata.
      there source_missing source >>= λ _. there destination_missing destination_ata >>= λ _.
      lift from_chain (read sha256 accounts solana_chain.key (λ node. node.latest_blockhash))
      >>= λ latest. usable_blockhash latest >>= λ hash.
          lift from_build
            (build_solana_message (claim_args signer config source destination_ata balance hash))
          >>= λ message.
              guard (leb (length message) 1232) message_too_long >> ok (built_of signer message)
