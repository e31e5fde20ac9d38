-- ===== src/Claim/Message/Layout.antt =====
-- What the message of a claim on Solana says, read off its bytes.
use open_beanie.Base.{
  ℕ, zero, suc, ◌+◌, ◌*◌, ◌^◌, ◌<◌, ◌≡◌, refl, sym, ◌∙◌, ap, true, ◌==◌, List, [], ◌∷◌, ◌++◌, some,
  Text, length, take, drop, concat, get_elem?, arith, length-append, drop-append, drop-append_add,
  take-append, take-drop-concat,
}
use open_beanie.Base.Bits.{low_bits, shr}
use open_beanie.Base.Positional.{low_value}
use open_beanie.Base.Result.{ok, ℤ, pos, negsuc, guard, >>=-eq_ok, guard-eq_ok}
use open_beanie.Solana.Base58.{base58_encode, pubkey_bytes}
use open_beanie.Solana.Transfer.{
  not_distinct, invalid_blockhash, amount_out_of_range, set_size, or_throw, key_bytes,
}
use open_beanie.Solana.Transfer.Layout.{
  or_throw-eq_ok, pubkey_bytes-eq_some, Read, key_bytes-eq_ok, set_size-distinct,
}
use open_beanie.Solana.Wire.{le_bytes, u64_le}
use open_beanie.Solana.Wire.RoundTrip.{length-concat, u64_le-eq_some}
use open_beanie.Claim.Message.{
  varint_loop, varint, amount_loop, amount_bytes, ClaimArgs, claim_accounts, claim_data,
  claim_message, build_solana_message,
}

-- The encoders of this module are those of the transactions.
amount_loop-eq : (k n : ℕ) → amount_loop k n ≡ le_bytes k n
unfolding amount_loop le_bytes
amount_loop-eq zero n = refl
amount_loop-eq (suc k) n = ap (low_bits n 8 ∷◌) (amount_loop-eq k (shr n 8))

amount_bytes-eq : (a : ℤ) → amount_bytes a ≡ u64_le a
unfolding amount_bytes u64_le
amount_bytes-eq (pos n) = rw (amount_loop-eq 8 n)
amount_bytes-eq (negsuc n) = refl

-- What a built message consists of, with its parts' sizes.
record Sized (a : ClaimArgs) (m : List ℕ) : Type 0 where
  keys : List (List ℕ)
  hash : List ℕ
  amount : List ℕ
  distinct : (set_size (claim_accounts a) == 8) ≡ true
  reads : Read (claim_accounts a) keys
  hash_spelt : base58_encode hash ≡ a.blockhash
  hash_width : length hash ≡ 32
  amount_width : length amount ≡ 8
  amount_value : a.amount ≡ pos (low_value 256 amount)
  amount_small : low_value 256 amount < 2 ^ 64
  laid_out :
      m
      ≡ (3 ∷ 2 ∷ 3 ∷ 8 ∷ [])
        ++ (concat keys
            ++ (hash ++ ((1 ∷ 6 ∷ 6 ∷ 3 ∷ 5 ∷ 4 ∷ 7 ∷ 1 ∷ 2 ∷ 10 ∷ []) ++ claim_data amount)))

claim_message-eq :
    (keys : List (List ℕ)) (hash data_bytes : List ℕ)
    → length keys ≡ 8
    → length data_bytes ≡ 10
    → claim_message keys hash data_bytes
      ≡ (3 ∷ 2 ∷ 3 ∷ 8 ∷ [])
        ++ (concat keys ++ (hash ++ ((1 ∷ 6 ∷ 6 ∷ 3 ∷ 5 ∷ 4 ∷ 7 ∷ 1 ∷ 2 ∷ 10 ∷ []) ++ data_bytes)))
unfolding claim_message varint varint_loop
claim_message-eq keys hash data_bytes k d = rw (k, d)

sized : (a : ClaimArgs) (m : List ℕ) → build_solana_message a ≡ ok m → Sized a m
unfolding build_solana_message
sized a m h =
    let (_, g, h1) = >>=-eq_ok (guard (set_size (claim_accounts a) == 8) not_distinct) _ h in
    let (keys, k, h2) = >>=-eq_ok (key_bytes 0 (claim_accounts a)) _ h1 in
    let (amount, u, h3) = >>=-eq_ok (or_throw amount_out_of_range (amount_bytes a.amount)) _ h2 in
    let (hash, b, h4) = >>=-eq_ok (or_throw invalid_blockhash (pubkey_bytes a.blockhash)) _ h3 in
    let reads = key_bytes-eq_ok 0 (claim_accounts a) keys k in
    let (spelt, width) = pubkey_bytes-eq_some a.blockhash hash (or_throw-eq_ok _ _ b) in
    let written = sym (amount_bytes-eq a.amount) ∙ or_throw-eq_ok _ _ u in
    let (value, small, eight) = u64_le-eq_some a.amount amount written in
    let ten : length (claim_data amount) ≡ 10 = omega (arith, length-append amount (6 ∷ [])) in
    let is_message : claim_message keys hash (claim_data amount) ≡ m = cc in
    record {
      keys = keys;
      hash = hash;
      amount = amount;
      distinct = guard-eq_ok _ _ g;
      reads = reads;
      hash_spelt = spelt;
      hash_width = width;
      amount_width = eight;
      amount_value = value;
      amount_small = small;
      laid_out = sym is_message ∙ claim_message-eq keys hash _ reads.count ten;
    }

module _ (a : ClaimArgs) (m : List ℕ) (h : build_solana_message a ≡ ok m) where
  abbrev behind_hash : List ℕ → List ℕ
  behind_hash amount = (1 ∷ 6 ∷ 6 ∷ 3 ∷ 5 ∷ 4 ∷ 7 ∷ 1 ∷ 2 ∷ 10 ∷ []) ++ claim_data amount

  keys_width : length (concat (sized a m h).keys) ≡ 256
  keys_width =
      let s = sized a m h in omega (arith, length-concat 32 s.keys s.reads.widths, s.reads.count)

  length-build_claim : length m ≡ 312
  length-build_claim =
      let s = sized a m h in
      rw s.laid_out (
        omega (
          arith,
          keys_width,
          s.hash_width,
          s.amount_width,
          length-append (concat s.keys) (s.hash ++ behind_hash s.amount),
          length-append s.hash (behind_hash s.amount),
          length-append s.amount (6 ∷ []),
        ))

  amount-build_claim :
      (a.amount ≡ pos (low_value 256 (take 8 (drop 303 m))))
      × (low_value 256 (take 8 (drop 303 m)) < 2 ^ 64)
  amount-build_claim =
      let s = sized a m h in
      let tail = s.hash ++ behind_hash s.amount in
      let skip_keys : drop 299 (concat s.keys ++ tail) ≡ drop 43 tail =
        drop-append_add (concat s.keys) tail 299 43 (omega (arith, keys_width)) in
      let skip_hash : drop 43 tail ≡ s.amount ++ (6 ∷ []) =
        drop-append_add s.hash (behind_hash s.amount) 43 11 (omega (arith, s.hash_width)) in
      let there = take-append s.amount (6 ∷ []) 8 s.amount_width in
      rw s.laid_out (rw (skip_keys, skip_hash, there) (s.amount_value, s.amount_small))

  account-build_claim :
      (i : ℕ) (k : Text)
      → get_elem? (claim_accounts a) i ≡ some k
      → base58_encode (take 32 (drop (4 + i * 32) m)) ≡ k
  account-build_claim i k g =
      let s = sized a m h in
      let (b, at, spelt) = s.reads.encodes i k g in
      let tail = s.hash ++ behind_hash s.amount in
      let there = take-drop-concat 32 s.keys tail i (i * 32) s.reads.widths at refl in
      let front : List ℕ = 3 ∷ 2 ∷ 3 ∷ 8 ∷ [] in
      let skip =
        drop-append_add front (concat s.keys ++ tail) (4 + i * 32) (i * 32) (omega arith) in
      rw s.laid_out (rw (skip, there) spelt)

  blockhash-build_claim : base58_encode (take 32 (drop 260 m)) ≡ a.blockhash
  blockhash-build_claim =
      let s = sized a m h in
      let tail = behind_hash s.amount in
      let skip : drop 256 (concat s.keys ++ (s.hash ++ tail)) ≡ s.hash ++ tail =
        drop-append (concat s.keys) (s.hash ++ tail) 256 keys_width in
      rw s.laid_out (rw (skip, take-append s.hash tail 32 s.hash_width) s.hash_spelt)

  instruction-build_claim :
      (take 4 m ≡ 3 ∷ 2 ∷ 3 ∷ 8 ∷ [])
      × (take 11 (drop 292 m) ≡ 1 ∷ 6 ∷ 6 ∷ 3 ∷ 5 ∷ 4 ∷ 7 ∷ 1 ∷ 2 ∷ 10 ∷ 12 ∷ [])
      × (drop 311 m ≡ 6 ∷ [])
  instruction-build_claim =
      let s = sized a m h in
      let tail = s.hash ++ behind_hash s.amount in
      let skip_keys : drop 288 (concat s.keys ++ tail) ≡ drop 32 tail =
        drop-append_add (concat s.keys) tail 288 32 (omega (arith, keys_width)) in
      let skip_hash : drop 32 tail ≡ behind_hash s.amount =
        drop-append s.hash (behind_hash s.amount) 32 s.hash_width in
      let skip_keys' : drop 307 (concat s.keys ++ tail) ≡ drop 51 tail =
        drop-append_add (concat s.keys) tail 307 51 (omega (arith, keys_width)) in
      let skip_hash' : drop 51 tail ≡ drop 8 (s.amount ++ (6 ∷ [])) =
        drop-append_add s.hash (behind_hash s.amount) 51 19 (omega (arith, s.hash_width)) in
      let there : drop 8 (s.amount ++ (6 ∷ [])) ≡ 6 ∷ [] =
        drop-append s.amount (6 ∷ []) 8 s.amount_width in
      rw s.laid_out (refl, rw (skip_keys, skip_hash) refl, rw (skip_keys', skip_hash', there) refl)

  accounts-build_claim-distinct :
      (i j : ℕ) (k : Text)
      → get_elem? (claim_accounts a) i ≡ some k
      → get_elem? (claim_accounts a) j ≡ some k
      → i ≡ j
  accounts-build_claim-distinct i j k p q =
      let s = sized a m h in
      set_size-distinct (claim_accounts a) i j k (ground (arith, s.distinct)) p q

-- What a message says: how long it is, how many signatures it wants and which accounts are readonly,
-- its accounts in order, which differ, its blockhash, its one instruction, and the amount that it
-- moves. The instruction is the token program's TransferChecked (12), from the account of the
-- source, for the mint, to the account of the destination, by the authority with the client and
-- the cosigner as its signers, with 6 decimals.
pub record Says (a : ClaimArgs) (m : List ℕ) : Type 0 where
  pub size : length m ≡ 312
  pub account :
      (i : ℕ) (k : Text)
      → get_elem? (claim_accounts a) i ≡ some k
      → base58_encode (take 32 (drop (4 + i * 32) m)) ≡ k
  pub distinct :
      (i j : ℕ) (k : Text)
      → get_elem? (claim_accounts a) i ≡ some k
      → get_elem? (claim_accounts a) j ≡ some k
      → i ≡ j
  pub blockhash : base58_encode (take 32 (drop 260 m)) ≡ a.blockhash
  pub header : take 4 m ≡ 3 ∷ 2 ∷ 3 ∷ 8 ∷ []
  pub instruction : take 11 (drop 292 m) ≡ 1 ∷ 6 ∷ 6 ∷ 3 ∷ 5 ∷ 4 ∷ 7 ∷ 1 ∷ 2 ∷ 10 ∷ 12 ∷ []
  pub decimals : drop 311 m ≡ 6 ∷ []
  pub amount :
      (a.amount ≡ pos (low_value 256 (take 8 (drop 303 m))))
      × (low_value 256 (take 8 (drop 303 m)) < 2 ^ 64)

-- A claim message that is built has 312 bytes, first the counts of its signatures, readonly and
-- all accounts; its eight accounts, which are different from one another, at 4 + 32 * i; the
-- blockhash at 260; at 292 one instruction, the TransferChecked of the token program from the
-- source, for the mint, to the destination, by the authority with the client and the cosigner as
-- signers; at 303 eight bytes that stand for the amount, which is not negative; and at last the 6
-- decimals.
pub build_solana_message-Says :
    (a : ClaimArgs) (m : List ℕ) → build_solana_message a ≡ ok m → Says a m
build_solana_message-Says a m h =
    let (front, middle, last) = instruction-build_claim a m h in
    record {
      size = length-build_claim a m h;
      account = account-build_claim a m h;
      distinct = accounts-build_claim-distinct a m h;
      blockhash = blockhash-build_claim a m h;
      header = front;
      instruction = middle;
      decimals = last;
      amount = amount-build_claim a m h;
    }
