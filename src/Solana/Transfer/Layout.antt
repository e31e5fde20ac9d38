-- ===== src/Solana/Transfer/Layout.antt =====
-- What the built message says, read off its bytes.
use open_beanie.Base.{
  ℕ, zero, suc, ◌+◌, ◌*◌, ◌%◌, ◌^◌, ◌≤◌, ◌<◌, ◌≡◌, refl, sym, ◌∙◌, ap, true, false, ◌==◌,
  if◌then◌else◌, List, [], ◌∷◌, ◌++◌, Option, none, some, Text, length, take, drop, concat,
  get_elem?, All, arith, length-append, drop-append, drop-append_add, take-append, take-drop-concat,
  Option-cases, inl, inr, text_eq_refl,
}
use open_beanie.Base.Positional.{low_value}
use open_beanie.Base.Result.{ok, pos, guard, >>=-eq_ok, guard-eq_ok}
use open_beanie.Solana.Base58.{base58_decode, base58_encode, pubkey_bytes}
use open_beanie.Solana.Base58.RoundTrip.{base58_encode-base58_decode}
use open_beanie.Solana.Wire.{shortvec, u64_le}
use open_beanie.Solana.Wire.RoundTrip.{length-concat, u64_le-eq_some}
use open_beanie.Solana.Transfer.{
  BuildError, invalid_key, not_distinct, invalid_blockhash, amount_out_of_range, TransferArgs,
  accounts, includes, set_size, or_throw, key_bytes, message_of, instruction_data,
  build_transfer_checked_message,
}

pub or_throw-eq_ok {ℓ} :
    {A : Type ℓ} (e : BuildError) (o : Option A) {a : A} → or_throw e o ≡ ok a → o ≡ some a
unfolding or_throw
or_throw-eq_ok e none h = cc
or_throw-eq_ok e (some a) h = cc

-- The parts of a message that is built.
record Built (a : TransferArgs) (m : List ℕ) : Type 0 where
  keys : List (List ℕ)
  hash : List ℕ
  amount : List ℕ
  keys_read : key_bytes 0 (accounts a) ≡ ok keys
  distinct : (set_size (accounts a) == 6) ≡ true
  hash_read : pubkey_bytes a.blockhash ≡ some hash
  amount_written : u64_le a.amount ≡ some amount
  is_message : message_of keys hash (instruction_data amount a.decimals) ≡ m

built : (a : TransferArgs) (m : List ℕ) → build_transfer_checked_message a ≡ ok m → Built a m
unfolding build_transfer_checked_message
built a m h =
    let (keys, k, h1) = >>=-eq_ok (key_bytes 0 (accounts a)) _ h in
    let (t, g, h2) = >>=-eq_ok (guard (set_size (accounts a) == 6) not_distinct) _ h1 in
    let (hash, b, h3) = >>=-eq_ok (or_throw invalid_blockhash (pubkey_bytes a.blockhash)) _ h2 in
    let (amount, u, h4) = >>=-eq_ok (or_throw amount_out_of_range (u64_le a.amount)) _ h3 in
    record {
      keys = keys;
      hash = hash;
      amount = amount;
      keys_read = k;
      distinct = guard-eq_ok _ _ g;
      hash_read = or_throw-eq_ok _ _ b;
      amount_written = or_throw-eq_ok _ _ u;
      is_message = cc;
    }

pub pubkey_bytes-eq_some :
    (k : Text) (b : List ℕ) → pubkey_bytes k ≡ some b → (base58_encode b ≡ k) × (length b ≡ 32)
unfolding pubkey_bytes
pubkey_bytes-eq_some k b h = elim (Option-cases (base58_decode k)) [
  | inl e ↦ cc (rw (e, pubkey_bytes) at h)
  | inr (c, e) ↦
      let h' : (if length c == 32 then some c else none) ≡ some b = rw (e, pubkey_bytes) at h in
      let same : c ≡ b = ground (arith, h') in
      (base58_encode-base58_decode k b (rw same at e), ground (arith, h'))
]

-- The keys are read one by one.
pub record Read (ks : List Text) (bs : List (List ℕ)) : Type 0 where
  pub count : length bs ≡ length ks
  pub widths : All (λ b. length b ≡ 32) bs
  pub encodes :
      (j : ℕ) (k : Text)
      → get_elem? ks j ≡ some k
      → (b : List ℕ) × (get_elem? bs j ≡ some b) × (base58_encode b ≡ k)

pub key_bytes-eq_ok :
    (i : ℕ) (ks : List Text) (bs : List (List ℕ)) → key_bytes i ks ≡ ok bs → Read ks bs
unfolding key_bytes
key_bytes-eq_ok i [] bs h =
    let e : [] ≡ bs = cc in rw (← e) (record { count = refl; widths = tt; encodes = λ j k g. cc })
key_bytes-eq_ok i (k ∷ ks) bs h =
    let (b, kb, h1) = >>=-eq_ok (or_throw (invalid_key i) (pubkey_bytes k)) _ h in
    let (cs, kc, h2) = >>=-eq_ok (key_bytes (i + 1) ks) _ h1 in
    let e : b ∷ cs ≡ bs = cc in
    let (spelt, width) = pubkey_bytes-eq_some k b (or_throw-eq_ok _ _ kb) in
    let rest = key_bytes-eq_ok (i + 1) ks cs kc in
    rw (← e) (record {
      count = ap suc rest.count;
      widths = (width, rest.widths);
      encodes = elim [
        | zero ↦ λ j g. (b, refl, spelt ∙ (cc))
        | suc j ↦ λ j' g. rest.encodes j j' g
      ];
    })

message_of-eq :
    (keys : List (List ℕ)) (hash data_bytes : List ℕ)
    → length keys ≡ 6
    → length data_bytes ≡ 10
    → message_of keys hash data_bytes
      ≡ (2 ∷ 1 ∷ 2 ∷ 6 ∷ [])
        ++ (concat keys ++ (hash ++ ((1 ∷ 5 ∷ 4 ∷ 2 ∷ 4 ∷ 3 ∷ 1 ∷ 10 ∷ []) ++ data_bytes)))
unfolding message_of shortvec
message_of-eq keys hash data_bytes k d = rw (k, d)

-- What a built message consists of, with its parts' sizes.
record Sized (a : TransferArgs) (m : List ℕ) : Type 0 where
  keys : List (List ℕ)
  hash : List ℕ
  amount : List ℕ
  reads : Read (accounts a) keys
  hash_spelt : base58_encode hash ≡ a.blockhash
  hash_width : length hash ≡ 32
  amount_width : length amount ≡ 8
  amount_value : a.amount ≡ pos (low_value 256 amount)
  amount_small : low_value 256 amount < 2 ^ 64
  laid_out :
      m
      ≡ (2 ∷ 1 ∷ 2 ∷ 6 ∷ [])
        ++ (concat keys
            ++ (hash
                ++ ((1 ∷ 5 ∷ 4 ∷ 2 ∷ 4 ∷ 3 ∷ 1 ∷ 10 ∷ []) ++ instruction_data amount a.decimals)))

sized : (a : TransferArgs) (m : List ℕ) → build_transfer_checked_message a ≡ ok m → Sized a m
sized a m h =
    let p = built a m h in
    let reads = key_bytes-eq_ok 0 (accounts a) p.keys p.keys_read in
    let (spelt, width) = pubkey_bytes-eq_some a.blockhash p.hash p.hash_read in
    let (value, small, eight) = u64_le-eq_some a.amount p.amount p.amount_written in
    let ten : length (instruction_data p.amount a.decimals) ≡ 10 =
      omega (arith, length-append p.amount (a.decimals % 256 ∷ [])) in
    record {
      keys = p.keys;
      hash = p.hash;
      amount = p.amount;
      reads = reads;
      hash_spelt = spelt;
      hash_width = width;
      amount_width = eight;
      amount_value = value;
      amount_small = small;
      laid_out = sym p.is_message ∙ message_of-eq p.keys p.hash _ reads.count ten;
    }

module _ (a : TransferArgs) (m : List ℕ) (h : build_transfer_checked_message a ≡ ok m) where
  abbrev data_bytes : List ℕ → List ℕ
  data_bytes amount = instruction_data amount a.decimals

  abbrev behind_hash : List ℕ → List ℕ
  behind_hash amount = (1 ∷ 5 ∷ 4 ∷ 2 ∷ 4 ∷ 3 ∷ 1 ∷ 10 ∷ []) ++ data_bytes amount

  keys_width : length (concat (sized a m h).keys) ≡ 192
  keys_width =
      let s = sized a m h in omega (arith, length-concat 32 s.keys s.reads.widths, s.reads.count)

  -- A message that is built has 246 bytes.
  length-build : length m ≡ 246
  length-build =
      let s = sized a m h in
      rw s.laid_out (
        omega (
          arith,
          keys_width,
          s.hash_width,
          s.amount_width,
          length-append (concat s.keys) (s.hash ++ behind_hash s.amount),
          length-append s.hash (behind_hash s.amount),
          length-append s.amount (a.decimals % 256 ∷ []),
        ))

  -- The amount of a message that is built is not negative, is below 2^64, and stands at byte 237,
  -- lowest byte first.
  pub amount-build :
      (a.amount ≡ pos (low_value 256 (take 8 (drop 237 m))))
      × (low_value 256 (take 8 (drop 237 m)) < 2 ^ 64)
  amount-build =
      let s = sized a m h in
      let tail = s.hash ++ behind_hash s.amount in
      let skip_keys : drop 233 (concat s.keys ++ tail) ≡ drop 41 tail =
        drop-append_add (concat s.keys) tail 233 41 (omega (arith, keys_width)) in
      let skip_hash : drop 41 tail ≡ s.amount ++ (a.decimals % 256 ∷ []) =
        drop-append_add s.hash (behind_hash s.amount) 41 9 (omega (arith, s.hash_width)) in
      let there = take-append s.amount (a.decimals % 256 ∷ []) 8 s.amount_width in
      rw s.laid_out (rw (skip_keys, skip_hash, there) (s.amount_value, s.amount_small))

  -- In a message that is built, the account with the index i of the six stands at byte 4 + 32 * i.
  pub account-build :
      (i : ℕ) (k : Text)
      → get_elem? (accounts a) i ≡ some k
      → base58_encode (take 32 (drop (4 + i * 32) m)) ≡ k
  account-build i k g =
      let s = sized a m h in
      let (b, at, spelt) = s.reads.encodes i k g in
      let tail = s.hash ++ behind_hash s.amount in
      let there = take-drop-concat 32 s.keys tail i (i * 32) s.reads.widths at refl in
      let front : List ℕ = 2 ∷ 1 ∷ 2 ∷ 6 ∷ [] in
      let skip =
        drop-append_add front (concat s.keys ++ tail) (4 + i * 32) (i * 32) (omega arith) in
      rw s.laid_out (rw (skip, there) spelt)

  -- In a message that is built, the blockhash stands at byte 196.
  blockhash-build : base58_encode (take 32 (drop 196 m)) ≡ a.blockhash
  blockhash-build =
      let s = sized a m h in
      let tail = behind_hash s.amount in
      let skip : drop 192 (concat s.keys ++ (s.hash ++ tail)) ≡ s.hash ++ tail =
        drop-append (concat s.keys) (s.hash ++ tail) 192 keys_width in
      rw s.laid_out (rw (skip, take-append s.hash tail 32 s.hash_width) s.hash_spelt)

  -- A message that is built starts with 2 signatures, 1 readonly signed, 2 readonly unsigned and 6
  -- accounts; its one instruction is of the program with the index 5, on the accounts 2, 4, 3 and
  -- 1, with ten bytes of data that start with 12; its last byte is for the decimals.
  pub instruction-build :
      (take 4 m ≡ 2 ∷ 1 ∷ 2 ∷ 6 ∷ [])
      × (take 9 (drop 228 m) ≡ 1 ∷ 5 ∷ 4 ∷ 2 ∷ 4 ∷ 3 ∷ 1 ∷ 10 ∷ 12 ∷ [])
      × (drop 245 m ≡ a.decimals % 256 ∷ [])
  instruction-build =
      let s = sized a m h in
      let tail = s.hash ++ behind_hash s.amount in
      let last = a.decimals % 256 ∷ [] in
      let skip_keys : drop 224 (concat s.keys ++ tail) ≡ drop 32 tail =
        drop-append_add (concat s.keys) tail 224 32 (omega (arith, keys_width)) in
      let skip_hash : drop 32 tail ≡ behind_hash s.amount =
        drop-append s.hash (behind_hash s.amount) 32 s.hash_width in
      let skip_keys' : drop 241 (concat s.keys ++ tail) ≡ drop 49 tail =
        drop-append_add (concat s.keys) tail 241 49 (omega (arith, keys_width)) in
      let skip_hash' : drop 49 tail ≡ drop 8 (s.amount ++ last) =
        drop-append_add s.hash (behind_hash s.amount) 49 17 (omega (arith, s.hash_width)) in
      let there : drop 8 (s.amount ++ last) ≡ last = drop-append s.amount last 8 s.amount_width in
      rw s.laid_out (refl, rw (skip_keys, skip_hash) refl, rw (skip_keys', skip_hash', there) refl)

-- A set as large as the list has no text twice.
set_size-le : (ts : List Text) → set_size ts ≤ length ts
unfolding set_size
set_size-le [] = omega arith
set_size-le (t ∷ ts) = ground (arith, set_size-le ts)

pub includes-get_elem? :
    (ts : List Text) (t : Text) (i : ℕ) → get_elem? ts i ≡ some t → includes t ts ≡ true
unfolding includes
includes-get_elem? [] t i h = cc
includes-get_elem? (s ∷ ts) t zero h = let e : s ≡ t = cc in rw (e, text_eq_refl t)
includes-get_elem? (s ∷ ts) t (suc i) h = ground (arith, includes-get_elem? ts t i)

set_size-full :
    (x : Text) (ts : List Text)
    → set_size (x ∷ ts) ≡ suc (length ts)
    → (includes x ts ≡ false) × (set_size ts ≡ length ts)
unfolding set_size
set_size-full x ts h = ground (arith, set_size-le ts)

pub set_size-distinct :
    (ts : List Text) (i j : ℕ) (t : Text)
    → set_size ts ≡ length ts
    → get_elem? ts i ≡ some t
    → get_elem? ts j ≡ some t
    → i ≡ j
set_size-distinct [] i j t s p q = cc
set_size-distinct (x ∷ ts) zero zero t s p q = refl
set_size-distinct (x ∷ ts) zero (suc j) t s p q =
    let (new, _) = set_size-full x ts s in
    let e : x ≡ t = cc in cc (rw e at new, includes-get_elem? ts t j q)
set_size-distinct (x ∷ ts) (suc i) zero t s p q =
    let (new, _) = set_size-full x ts s in
    let e : x ≡ t = cc in cc (rw e at new, includes-get_elem? ts t i p)
set_size-distinct (x ∷ ts) (suc i) (suc j) t s p q =
    let (_, full) = set_size-full x ts s in ap suc (set_size-distinct ts i j t full p q)

-- The six accounts of a message that is built are different from one another.
accounts-build-distinct :
    (a : TransferArgs) (m : List ℕ) (i j : ℕ) (k : Text)
    → build_transfer_checked_message a ≡ ok m
    → get_elem? (accounts a) i ≡ some k
    → get_elem? (accounts a) j ≡ some k
    → i ≡ j
accounts-build-distinct a m i j k h p q =
    let b = built a m h in set_size-distinct (accounts a) i j k (ground (arith, b.distinct)) p q
