-- ===== src/Solana/Program.antt =====
-- solana.js: program-derived addresses, associated token accounts, and the receiver in a
-- `ReceiverAnnounced` event. SHA-256 is the browser's, and enters as the parameter `sha256`.
pub mod Addresses
pub mod Announced
use open_beanie.Base.{
  ℕ, zero, suc, ◌+◌, ◌-◌, ◌*◌, ◌/◌, ◌%◌, Bool, true, false, not, ◌==◌, ◌&&◌, ◌||◌, ltb, leb,
  if◌then◌else◌, List, [], ◌∷◌, ◌++◌, map, Option, none, some, Text, text_eq, codes, length, take,
  drop, concat,
}
use open_beanie.Base.Result.{Result, ok, err, ◌>>=◌}
use open_beanie.Solana.Base58.{base58_encode, pubkey_bytes}
use open_beanie.Solana.Curve.{is_on_curve}
use open_beanie.Solana.Transfer.{token_program, includes}

pub data ProgramError : Type 0 where
  invalid_pubkey : Text → ProgramError
  no_viable_address : ProgramError
  invalid_hex : ProgramError

-- `pubkeyBytes`, which throws.
unfoldable pub pubkey : Text → Result ProgramError (List ℕ)
pubkey t = elim (pubkey_bytes t) [ none ↦ err (invalid_pubkey t) | some b ↦ ok b ]

abbrev pub ata_program : Text
ata_program = codes "ATokenGPvbdGVxr1b2hvZbsiqW5xWH25efTNsLJA8knL"

pub record ProgramAddress : Type 0 where
  pub address : List ℕ
  pub bump : ℕ

-- The value of a hex digit.
unfoldable pub hex_digit : ℕ → Option ℕ
hex_digit c =
    if leb b'0' c && leb c b'9'
    then some (c - b'0')
    else if leb b'a' c && leb c b'f'
    then some (c - b'a' + 10)
    else if leb b'A' c && leb c b'F'
    then some (c - b'A' + 10)
    else none

-- A text that is no sequence of pairs of digits does not match the pattern, and throws.
unfoldable pub hex_pairs : Text → Result ProgramError (List ℕ)
unfolding hex_digit
hex_pairs [] = ok []
hex_pairs (a ∷ []) = err invalid_hex
hex_pairs (a ∷ b ∷ t) =
    let rest = hex_pairs t in
    elim (hex_digit a) [
      | none ↦ err invalid_hex
      | some x ↦ elim (hex_digit b) [
        | none ↦ err invalid_hex
        | some y ↦ rest >>= λ bytes. ok ((x * 16 + y) ∷ bytes)
      ]
    ]

-- `.replace(/^0x/i, "")`
unfoldable pub strip_0x : Text → Text
strip_0x [] = []
strip_0x (a ∷ []) = a ∷ []
strip_0x (a ∷ b ∷ t) = if a == b'0' && (b == b'x' || b == b'X') then t else a ∷ b ∷ t

unfoldable pub hex_to_bytes : Text → Result ProgramError (List ℕ)
unfolding hex_pairs strip_0x
hex_to_bytes hex = hex_pairs (strip_0x hex)

-- The factory program: `program.id` and `program.seeds`.
pub record Factory : Type 0 where
  pub id : Text
  pub config_seed : Text
  pub pending_seed : Text

-- The (merchant, route) that an announcement is looked for.
pub record Announcement : Type 0 where
  pub merchant : Text
  pub chain32 : Text
  pub recipient32 : Text

pub record Pdas : Type 0 where
  pub config : Text
  pub pending : Text

-- `bytesEqual`
unfoldable pub bytes_equal : List ℕ → List ℕ → Bool
unfolding text_eq
bytes_equal a b = text_eq a b

-- `for (let o = 8; o < data.length; o += 32)`: a slot for each 32 bytes that are left.
unfoldable pub slots_of : ℕ → List ℕ → List Text
slots_of zero data_bytes = []
slots_of (suc n) data_bytes = base58_encode (take 32 data_bytes) ∷ slots_of n (drop 32 data_bytes)

-- `new Set(texts)`: each text once, where it comes first. The list given is what has been seen.
unfoldable pub distinct : List Text → List Text → List Text
unfolding includes
distinct seen [] = []
distinct seen (t ∷ ts) =
    let more = t ∷ distinct (t ∷ seen) ts in
    let rest = distinct seen ts in if includes t seen then rest else more

-- `!has(bytes)` answers `null`, and what follows is not looked at.
abbrev pub in_event :
    List Text
    → Text
    → (Text → Result ProgramError (List ℕ))
    → Result ProgramError (Option Text)
    → Result ProgramError (Option Text)
in_event slots t bytes_of rest =
    bytes_of t >>= λ b. if includes (base58_encode b) slots then rest else ok none

module _ (sha256 : List ℕ → List ℕ) where
  -- The hash that is tried for a bump.
  abbrev pub pda_hash : List (List ℕ) → List ℕ → ℕ → List ℕ
  pda_hash seeds program bump =
      sha256 (concat seeds ++ ((bump ∷ []) ++ (program ++ codes "ProgramDerivedAddress")))

  -- `for (let bump = 255; bump >= 0; bump--)`: the bumps below `n` are left.
  unfoldable pub bump_loop : List (List ℕ) → List ℕ → ℕ → Result ProgramError ProgramAddress
  bump_loop seeds program zero = err no_viable_address
  bump_loop seeds program (suc bump) =
      let hash = pda_hash seeds program bump in
      let rest = bump_loop seeds program bump in
      if not (is_on_curve hash) then ok (record { address = hash; bump = bump }) else rest

  unfoldable pub find_program_address : List (List ℕ) → Text → Result ProgramError ProgramAddress
  unfolding bump_loop pubkey
  find_program_address seeds program_id = do
    program ← pubkey program_id
    bump_loop seeds program 256

  unfoldable pub usdc_ata : Text → Text → Result ProgramError Text
  usdc_ata owner mint = do
    o ← pubkey owner
    t ← pubkey token_program
    m ← pubkey mint
    found ← find_program_address (o ∷ t ∷ m ∷ []) ata_program
    ok (base58_encode found.address)

  unfoldable pub receiver_pdas : Factory → Announcement → Text → Result ProgramError Pdas
  unfolding pubkey hex_to_bytes
  receiver_pdas factory a receiver = do
    m ← pubkey a.merchant
    r ← pubkey receiver
    c ← hex_to_bytes a.chain32
    p ← hex_to_bytes a.recipient32
    let tail = m ∷ r ∷ c ∷ p ∷ []
    config ← find_program_address (factory.config_seed ∷ tail) factory.id
    pending ← find_program_address (factory.pending_seed ∷ tail) factory.id
    ok (record { config = base58_encode config.address; pending = base58_encode pending.address })

  abbrev pub announced_discriminator : List ℕ
  announced_discriminator = take 8 (sha256 (codes "event:ReceiverAnnounced"))

  -- The loop over the candidates; a candidate whose accounts throw is passed over.
  unfoldable pub candidate_loop : Factory → Announcement → List Text → List Text → Option Text
  unfolding includes
  candidate_loop factory a slots [] = none
  candidate_loop factory a slots (c ∷ cs) =
      let rest = candidate_loop factory a slots cs in
      elim (receiver_pdas factory a c) [
        | err e ↦ rest
        | ok pdas ↦
            if includes pdas.config slots && includes pdas.pending slots then some c else rest
      ]

  unfoldable pub receiver_from_announced_event :
      List ℕ → Factory → Announcement → Result ProgramError (Option Text)
  unfolding slots_of distinct candidate_loop bytes_equal pubkey hex_to_bytes includes
  receiver_from_announced_event data_bytes factory a =
      if ltb (length data_bytes) (8 + 32 * 6) || not ((length data_bytes - 8) % 32 == 0)
      then ok none
      else if not (bytes_equal (take 8 data_bytes) announced_discriminator)
      then ok none
      else let slots = slots_of ((length data_bytes - 8) / 32) (drop 8 data_bytes) in
        in_event slots a.merchant pubkey (
          in_event slots a.chain32 hex_to_bytes (
            in_event slots a.recipient32 hex_to_bytes
              (ok (candidate_loop factory a slots (distinct [] slots)))))
