-- ===== src/Solana/Program/Announced.antt =====
-- What `receiverFromAnnouncedEvent` accepts.
use open_beanie.Base.{
  ℕ, ◌+◌, ◌-◌, ◌*◌, ◌/◌, ◌%◌, ◌≤◌, ◌≡◌, refl, Bool, true, false, not, ◌==◌, ◌||◌, ◌&&◌,
  if◌then◌else◌, List, [], ◌∷◌, Text, arith, Bool-cases, inl, inr, Option, none, some, length, ltb,
  take, drop, text_eq→eq, text_eq_refl, &&-true,
}
use open_beanie.Base.Result.{Result, ok, >>=-eq_ok, Result-cases}
use open_beanie.Solana.Base58.{base58_encode}
use open_beanie.Solana.Transfer.{includes}
use open_beanie.Solana.Program.{
  ProgramError, pubkey, hex_to_bytes, Factory, Announcement, Pdas, bytes_equal, slots_of, distinct,
  receiver_pdas, announced_discriminator, candidate_loop, receiver_from_announced_event, in_event,
}

module _ (sha256 : List ℕ → List ℕ) (factory : Factory) (a : Announcement) where
  -- Both accounts of the candidate are among the slots.
  abbrev pub Confirmed : List Text → Text → Type 0
  Confirmed slots c =
      (pdas : Pdas) × (receiver_pdas sha256 factory a c ≡ ok pdas)
      × (includes pdas.config slots ≡ true)
      × (includes pdas.pending slots ≡ true)

  candidate_loop-eq_some :
      (slots cs : List Text) (c : Text)
      → candidate_loop sha256 factory a slots cs ≡ some c
      → Confirmed slots c × (includes c cs ≡ true)
  unfolding candidate_loop
  candidate_loop-eq_some slots [] c h = cc
  candidate_loop-eq_some slots (x ∷ cs) c h =
      elim (Result-cases (receiver_pdas sha256 factory a x)) [
        | inl (pdas, e) ↦
            elim (Bool-cases (includes pdas.config slots && includes pdas.pending slots)) [
              | inl t ↦
                  let same : x ≡ c = cc (rw (e, candidate_loop, t) at h) in
                  let (config, pending) = &&-true _ _ t in
                  rw (← same) ((pdas, e, config, pending), rw (includes, text_eq_refl x))
              | inr t ↦
                  let (ok_c, there) =
                    candidate_loop-eq_some slots cs c (rw (e, candidate_loop, t) at h) in
                  (ok_c, ground (arith, there))
            ]
        | inr (e', e) ↦
            let (ok_c, there) = candidate_loop-eq_some slots cs c (rw (e, candidate_loop) at h) in
            (ok_c, ground (arith, there))
      ]

includes-distinct :
    (c : Text) (seen ts : List Text) → includes c (distinct seen ts) ≡ true → includes c ts ≡ true
unfolding distinct includes
includes-distinct c seen [] h = h
includes-distinct c seen (t ∷ ts) h =
    ground (arith, includes-distinct c seen ts, includes-distinct c (t ∷ seen) ts)

-- Bytes that are read and stand in a slot.
abbrev pub InSlot : (Text → Result ProgramError (List ℕ)) → List Text → Text → Type 0
InSlot read slots t = (b : List ℕ) × (read t ≡ ok b) × (includes (base58_encode b) slots ≡ true)

module _ (sha256 : List ℕ → List ℕ) (factory : Factory) (a : Announcement) where
  in_event-eq_ok :
      (slots : List Text) (t : Text) (read : Text → Result ProgramError (List ℕ))
      (rest : Result ProgramError (Option Text)) (c : Text)
      → in_event slots t read rest ≡ ok (some c)
      → InSlot read slots t × (rest ≡ ok (some c))
  in_event-eq_ok slots t read rest c h =
      let (b, e, k) = >>=-eq_ok (read t) _ h in
      elim (Bool-cases (includes (base58_encode b) slots)) [
        | inl i ↦ ((b, e, i), rw i at k)
        | inr i ↦ cc (rw i at k)
      ]

  abbrev pub slots_in : List ℕ → List Text
  slots_in data_bytes = slots_of ((length data_bytes - 8) / 32) (drop 8 data_bytes)

  abbrev after_header : List ℕ → Result ProgramError (Option Text)
  after_header data_bytes =
      let slots = slots_in data_bytes in
      in_event slots a.merchant pubkey (
        in_event slots a.chain32 hex_to_bytes (
          in_event slots a.recipient32 hex_to_bytes
            (ok (candidate_loop sha256 factory a slots (distinct [] slots)))))

  header_guards :
      (short good : Bool) (rest : Result ProgramError (Option Text)) (c : Text)
      → (if short then ok none else if not good then ok none else rest) ≡ ok (some c)
      → (short ≡ false) × (good ≡ true) × (rest ≡ ok (some c))
  header_guards true good rest c h = cc
  header_guards false true rest c h = (refl, refl, h)
  header_guards false false rest c h = cc

  header :
      (data_bytes : List ℕ) (c : Text)
      → receiver_from_announced_event sha256 data_bytes factory a ≡ ok (some c)
      → (200 ≤ length data_bytes)
        × (bytes_equal (take 8 data_bytes) (announced_discriminator sha256) ≡ true)
        × (after_header data_bytes ≡ ok (some c))
  unfolding receiver_from_announced_event
  header data_bytes c h =
      let long = not ((length data_bytes - 8) % 32 == 0) in
      let (short, good, rest) =
        header_guards (ltb (length data_bytes) (8 + 32 * 6) || long) _ (after_header data_bytes) c
          h in
      (ground (arith, short), good, rest)

  -- A receiver is taken from an event only if the event has at least 200 bytes, the discriminator
  -- of the announcement, and among its slots the merchant, both parts of the route, the receiver,
  -- and both accounts that are derived from the receiver.
  pub receiver_from_announced_event_sound :
      (data_bytes : List ℕ) (c : Text)
      → receiver_from_announced_event sha256 data_bytes factory a ≡ ok (some c)
      → (200 ≤ length data_bytes)
        × (take 8 data_bytes ≡ announced_discriminator sha256)
        × InSlot pubkey (slots_in data_bytes) a.merchant
        × InSlot hex_to_bytes (slots_in data_bytes) a.chain32
        × InSlot hex_to_bytes (slots_in data_bytes) a.recipient32
        × Confirmed sha256 factory a (slots_in data_bytes) c
        × (includes c (slots_in data_bytes) ≡ true)
  receiver_from_announced_event_sound data_bytes c h =
      let slots = slots_in data_bytes in
      let (size, good, rest) = header data_bytes c h in
      let (m, h1) = in_event-eq_ok slots a.merchant pubkey _ c rest in
      let (ch, h2) = in_event-eq_ok slots a.chain32 hex_to_bytes _ c h1 in
      let (re, h3) = in_event-eq_ok slots a.recipient32 hex_to_bytes _ c h2 in
      let (both, there) =
        candidate_loop-eq_some sha256 factory a slots (distinct [] slots) c (cc) in
      (
        size,
        text_eq→eq _ _ (unfold bytes_equal in good),
        m,
        ch,
        re,
        both,
        includes-distinct c [] slots there,
      )
