-- ===== src/Tests/Solana.antt =====
-- The theorems on solana.js at small transactions, keys and events.
use open_beanie.Base.{
  ℕ, ◌%◌, ◌^◌, ◌≤◌, ◌<◌, ◌≡◌, refl, true, false, ◌==◌, if◌then◌else◌, List, [], ◌∷◌, ◌++◌, some,
  Text, text_eq, codes, length, take, concat, replicate, arith,
}
use open_beanie.Base.Positional.{of_digits, low_digits, digits_loop, count_leading}
use open_beanie.Base.Result.{ok, err, pos}
use open_beanie.Solana.Base58.{
  base58_decode, base58_encode, pubkey_bytes, index_of, decode_loop, bytes_of, letter,
}
use open_beanie.Solana.Base58.RoundTrip.{base58_decode-base58_encode, base58_encode-base58_decode}
use open_beanie.Solana.Wire.{shortvec, u64_le, le_bytes, shortvec_loop, parse_transaction}
use open_beanie.Solana.Wire.RoundTrip.{parse_transaction-wire}
use open_beanie.Solana.Transfer.{
  key_bytes, set_size, message_of, or_throw, token_program, TransferArgs,
  build_transfer_checked_message, includes,
}
use open_beanie.Solana.Curve.{is_on_curve, mod_pow, mod_pow_loop, edwards_d, p25519}
use open_beanie.Solana.Curve.Power.{mod_pow_lem}
use open_beanie.Solana.Program.{
  bytes_equal, slots_of, distinct, candidate_loop, hex_pairs, hex_digit, strip_0x, bump_loop,
  no_viable_address, pubkey, pda_hash, find_program_address, Factory, Announcement, receiver_pdas,
  hex_to_bytes, announced_discriminator, receiver_from_announced_event,
}
use open_beanie.Solana.Program.Addresses.{address-find_program_address}
use open_beanie.Solana.Program.Announced.{
  Confirmed, InSlot, slots_in, receiver_from_announced_event_sound,
}

abbrev zeros_and_more : List ℕ
zeros_and_more = 0 ∷ 0 ∷ 255 ∷ 7 ∷ []

base58_decode-base58_encode_example :
    base58_decode (base58_encode zeros_and_more) ≡ some zeros_and_more
base58_decode-base58_encode_example =
    base58_decode-base58_encode zeros_and_more (cc)
      (omega arith, (omega arith, (omega arith, (omega arith, tt))))

abbrev key_of : ℕ → List ℕ
key_of b = replicate 32 b

abbrev two_to_five : TransferArgs
two_to_five = record {
  fee_payer = codes "4vJ9JU1bJJE96FWSJKvHsmmFADCg4gpZQff4P3bkLKi";
  owner = codes "8qbHbw2BbbTHBW1sbeqakYXVKRQM8Ne7pLK7m6CVfeR";
  source = codes "CktRuQ2mttgRGkXJtyksdKHjUdc2C4TgDzyB98oEzy8";
  destination = codes "GgBaCs3NCBuZN12kCJgAW63ydqohFkHEdfdEXBPzLHq";
  mint = codes "LbUiWL3xVV8hTFYBVdbTNrpDo41NKS6o3LHHuDzjfcY";
  amount = pos 1000001;
  decimals = 6;
  blockhash = codes "US517G5965aydkZ46HS38QLi7UQiSojurfbQfKCELFx";
}

-- The bytes of the token program.
abbrev token_key : List ℕ
token_key =
    6 ∷ 221 ∷ 246 ∷ 225 ∷ 215 ∷ 101 ∷ 161 ∷ 147 ∷ 217 ∷ 203 ∷ 225 ∷ 70 ∷ 206 ∷ 235 ∷ 121 ∷ 172 ∷ 28
    ∷ 180 ∷ 133 ∷ 237 ∷ 95 ∷ 91 ∷ 55 ∷ 145 ∷ 58 ∷ 140 ∷ 245 ∷ 133 ∷ 126 ∷ 255 ∷ 0 ∷ 169 ∷ []

abbrev built_bytes : List ℕ
built_bytes =
    (2 ∷ 1 ∷ 2 ∷ 6 ∷ [])
    ++ (key_of 1
        ++ (key_of 2
            ++ (key_of 3
                ++ (key_of 4
                    ++ (key_of 5
                        ++ (token_key
                            ++ (key_of 7
                                ++ (1 ∷ 5 ∷ 4 ∷ 2 ∷ 4 ∷ 3 ∷ 1 ∷ 10 ∷ 12 ∷ 65 ∷ 66 ∷ 15 ∷ 0 ∷ 0 ∷ 0
                                    ∷ 0 ∷ 0 ∷ 6 ∷ []))))))))

built : build_transfer_checked_message two_to_five ≡ ok built_bytes
unfolding build_transfer_checked_message key_bytes set_size includes message_of or_throw
    pubkey_bytes base58_decode decode_loop index_of bytes_of low_digits digits_loop u64_le le_bytes
    shortvec shortvec_loop text_eq count_leading
built = refl

base58_encode-base58_decode_example : base58_encode token_key ≡ token_program
base58_encode-base58_decode_example = base58_encode-base58_decode token_program token_key (
    unfold base58_decode decode_loop index_of bytes_of low_digits digits_loop count_leading in refl)

abbrev one_signature : List (List ℕ)
one_signature = replicate 64 9 ∷ replicate 64 8 ∷ []

parse_transaction-wire_example :
    parse_transaction (shortvec 2 ++ (concat one_signature ++ (1 ∷ 2 ∷ [])))
    ≡ some (record { signatures = one_signature; message = 1 ∷ 2 ∷ [] })
parse_transaction-wire_example =
    parse_transaction-wire one_signature (1 ∷ 2 ∷ []) (refl, (refl, tt)) (omega arith)

mod_pow_lem_example : mod_pow 3 5 ≡ 3 ^ 5 % p25519
mod_pow_lem_example = mod_pow_lem 3 5

-- Encodings with y = 1, which is on the curve, and with y = 2, which is not.
abbrev on_point : List ℕ
on_point = 1 ∷ replicate 31 0

abbrev pub off_point : List ℕ
off_point = 2 ∷ replicate 31 0

-- A hash that is on the curve for the bump 255, the first byte behind no seeds, and off it else.
abbrev low_bump : List ℕ → List ℕ
low_bump [] = off_point
low_bump (b ∷ _) = if b == 255 then on_point else off_point

abbrev pub same_hash : List ℕ → List ℕ → List ℕ
same_hash h _ = h

token_pubkey : pubkey token_program ≡ ok token_key
unfolding pubkey pubkey_bytes base58_decode decode_loop index_of bytes_of low_digits digits_loop
    count_leading
token_pubkey = refl

below_255 :
    find_program_address low_bump [] token_program ≡ ok (record { address = off_point; bump = 254 })
unfolding find_program_address bump_loop is_on_curve mod_pow mod_pow_loop edwards_d pubkey
    pubkey_bytes base58_decode decode_loop index_of bytes_of low_digits digits_loop count_leading
below_255 = refl

address-find_program_address_example :
    (program : List ℕ) × (pubkey token_program ≡ ok program)
    × (254 < 256)
    × (off_point ≡ pda_hash low_bump [] program 254)
    × (is_on_curve off_point ≡ false)
address-find_program_address_example =
    address-find_program_address low_bump [] token_program _ below_255

no_bump : find_program_address (same_hash on_point) [] token_program ≡ err no_viable_address
unfolding find_program_address bump_loop is_on_curve mod_pow mod_pow_loop edwards_d pubkey
    pubkey_bytes base58_decode decode_loop index_of bytes_of low_digits digits_loop count_leading
no_bump = refl

abbrev pub hex_of_nines : Text
hex_of_nines = codes "0x0909090909090909090909090909090909090909090909090909090909090909"

abbrev factory : Factory
factory = record {
  id = token_program;
  config_seed = codes "config";
  pending_seed = codes "pending";
}

abbrev pub announcement : Announcement
announcement = record {
  merchant = codes "8qbHbw2BbbTHBW1sbeqakYXVKRQM8Ne7pLK7m6CVfeR";
  chain32 = hex_of_nines;
  recipient32 = hex_of_nines;
}

-- Six slots: the receiver, the merchant, the route's two parts and the two accounts.
abbrev pub event : List ℕ
event =
    take 8 off_point
    ++ (key_of 1 ++ (key_of 2 ++ (key_of 9 ++ (key_of 9 ++ (off_point ++ off_point)))))

announced :
    receiver_from_announced_event (same_hash off_point) event factory announcement
    ≡ ok (some (codes "4vJ9JU1bJJE96FWSJKvHsmmFADCg4gpZQff4P3bkLKi"))
unfolding receiver_from_announced_event slots_of distinct candidate_loop bytes_equal hex_to_bytes
    hex_pairs hex_digit strip_0x includes receiver_pdas find_program_address bump_loop is_on_curve
    mod_pow mod_pow_loop edwards_d pubkey pubkey_bytes base58_decode decode_loop index_of bytes_of
    low_digits digits_loop count_leading base58_encode letter of_digits text_eq
announced = refl

receiver_from_announced_event_sound_example :
    (200 ≤ length event)
    × (take 8 event ≡ announced_discriminator (same_hash off_point))
    × InSlot pubkey
        (slots_in (same_hash off_point) factory announcement event)
        announcement.merchant
    × InSlot hex_to_bytes (slots_in (same_hash off_point) factory announcement event) hex_of_nines
    × InSlot hex_to_bytes (slots_in (same_hash off_point) factory announcement event) hex_of_nines
    × Confirmed
        (same_hash off_point)
        factory
        announcement
        (slots_in (same_hash off_point) factory announcement event)
        (codes "4vJ9JU1bJJE96FWSJKvHsmmFADCg4gpZQff4P3bkLKi")
    × (includes
          (codes "4vJ9JU1bJJE96FWSJKvHsmmFADCg4gpZQff4P3bkLKi")
          (slots_in (same_hash off_point) factory announcement event)
        ≡ true)
receiver_from_announced_event_sound_example =
    receiver_from_announced_event_sound (same_hash off_point) factory announcement event
      (codes "4vJ9JU1bJJE96FWSJKvHsmmFADCg4gpZQff4P3bkLKi") announced
