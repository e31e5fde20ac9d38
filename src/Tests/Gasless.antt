-- ===== src/Tests/Gasless.antt =====
-- A payment on Solana with a wallet that signs, and a hash that keeps the first byte.
use open_beanie.Base.{
  ℕ, ◌≡◌, refl, List, [], ◌∷◌, ◌++◌, Option, some, Text, text_eq, codes, drop, replicate,
}
use open_beanie.Base.Positional.{of_digits, low_digits, digits_loop, count_leading}
use open_beanie.Base.Result.{Result, ok}
use open_beanie.Base.Strings.{trim, trim_start, of_string, digit_value}
use open_beanie.Chains.{solana_chain}
use open_beanie.Chains.Ready.{can_gasless}
use open_beanie.Onchain.{ChainError, big_int_of}
use open_beanie.Solana.Base58.{
  base58_decode, base58_encode, decode_loop, index_of, bytes_of, letter, pubkey_bytes,
}
use open_beanie.Solana.Curve.{is_on_curve, mod_pow, mod_pow_loop, edwards_d}
use open_beanie.Solana.Program.{
  pubkey, strip_0x, usdc_ata, find_program_address, bump_loop, bytes_equal,
}
use open_beanie.Solana.Transfer.{
  build_transfer_checked_message, key_bytes, set_size, includes, message_of, or_throw,
}
use open_beanie.Solana.Wire.{
  u64_le, le_bytes, shortvec, shortvec_loop, unsigned_transaction, parse_transaction, read_length,
  or_group, split_at, read_signatures,
}
use open_beanie.Gasless.{
  Payload, owner_signature, token_balance, check_signed, sign_message, pay, sign_solana_transfer,
}
use open_beanie.Gasless.Relayed.{Pays, Signed, sign_solana_transfer_sound}

abbrev first_byte : List ℕ → List ℕ
first_byte [] = replicate 32 0
first_byte (b ∷ _) = b ∷ replicate 31 0

abbrev payer : Text
payer = codes "US517G5965aydkZ46HS38QLi7UQiSojurfbQfKCELFx"

abbrev signing : List ℕ → Option (List ℕ)
signing bytes = some ((2 ∷ replicate 64 0) ++ (replicate 64 1 ++ drop 129 bytes))

abbrev two_dollars : Text → Result ChainError Text
two_dollars ata = ok (codes "2000000")

abbrev last_hash : Result ChainError Text
last_hash = ok (codes "cGfHiC6Kgg3FpFZvgwGcswsCRtp4aBP2fzuXRQPizuN")

abbrev payload : Payload
payload = record {
  message =
      (2 ∷ 1 ∷ 2 ∷ 6 ∷ [])
      ++ (replicate 32 0
          ++ (replicate 32 7
              ++ ((7 ∷ replicate 31 0)
                  ++ ((8 ∷ replicate 31 0)
                      ++ ((198 ∷ 250 ∷ 122 ∷ 243 ∷ 190 ∷ 219 ∷ 173 ∷ 58 ∷ 61 ∷ 101 ∷ 243 ∷ 106 ∷ 171
                            ∷ 201 ∷ 116 ∷ 49 ∷ 177 ∷ 187 ∷ 228 ∷ 194 ∷ 210 ∷ 246 ∷ 224 ∷ 228 ∷ 124
                            ∷ 166 ∷ 2 ∷ 3 ∷ 69 ∷ 47 ∷ 93 ∷ 97 ∷ [])
                          ++ ((6 ∷ 221 ∷ 246 ∷ 225 ∷ 215 ∷ 101 ∷ 161 ∷ 147 ∷ 217 ∷ 203 ∷ 225 ∷ 70
                                ∷ 206 ∷ 235 ∷ 121 ∷ 172 ∷ 28 ∷ 180 ∷ 133 ∷ 237 ∷ 95 ∷ 91 ∷ 55 ∷ 145
                                ∷ 58 ∷ 140 ∷ 245 ∷ 133 ∷ 126 ∷ 255 ∷ 0 ∷ 169 ∷ [])
                              ++ (replicate 32 9
                                  ++ (1 ∷ 5 ∷ 4 ∷ 2 ∷ 4 ∷ 3 ∷ 1 ∷ 10 ∷ 12 ∷ 65 ∷ 66 ∷ 15 ∷ 0 ∷ 0 ∷ 0
                                      ∷ 0 ∷ 0 ∷ 6 ∷ []))))))));
  signature = replicate 64 1;
  owner = payer;
  receiver_address = codes "YEGAxog9gxiGXxo538aAQxq55XAebpFfwU72ZUxmSHm";
}

signed :
    sign_solana_transfer first_byte
      (some payer)
      signing
      two_dollars
      last_hash
      (codes "YMN9Qj5jPNp7j14VPcML1B6xGgcPWVZUGLFU3Mnyfaf")
      (codes "1000001")
    ≡ ok payload
unfolding sign_solana_transfer pay token_balance sign_message check_signed owner_signature
    can_gasless big_int_of trim trim_start strip_0x of_string digit_value of_digits usdc_ata
    find_program_address bump_loop bytes_equal is_on_curve mod_pow mod_pow_loop edwards_d pubkey
    pubkey_bytes base58_decode base58_encode decode_loop index_of bytes_of letter low_digits
    digits_loop count_leading build_transfer_checked_message key_bytes set_size includes message_of
    or_throw u64_le le_bytes shortvec shortvec_loop unsigned_transaction parse_transaction
    read_length or_group split_at read_signatures text_eq
signed = refl

sign_solana_transfer_sound_example :
    (n : ℕ) × (big_int_of (codes "1000001") ≡ ok n)
    × (some payer ≡ some payer)
    × (usdc_ata first_byte (codes "YMN9Qj5jPNp7j14VPcML1B6xGgcPWVZUGLFU3Mnyfaf") solana_chain.usdc
        ≡ ok payload.receiver_address)
    × Pays first_byte (some payer) signing two_dollars last_hash payload n
    × Signed first_byte (some payer) signing two_dollars last_hash payload
sign_solana_transfer_sound_example =
    sign_solana_transfer_sound first_byte (some payer) signing two_dollars last_hash
      (codes "YMN9Qj5jPNp7j14VPcML1B6xGgcPWVZUGLFU3Mnyfaf") (codes "1000001") payload signed
