-- ===== src/Lane/Discover/Found.antt =====
-- A receiver that is discovered was announced in the log of a transaction of the program, and its
-- accounts exist.
use open_beanie.Base.{
  ℕ, zero, suc, ◌+◌, ◌≤◌, ◌<◌, ◌≡◌, List, [], Option, some, Text, take, All-take, arith,
  Option-cases, inl, inr,
}
use open_beanie.Base.Result.{Result, ok, >>=-eq_ok, ok-injective, Result-cases}
use open_beanie.Identity.{CctpRoute}
use open_beanie.Onchain.{ChainError, Net, Signature}
use open_beanie.Solana.Program.{Factory}
use open_beanie.Lane.{LaneError, StoredLane, solana_program}
use open_beanie.Lane.Discover.Logged.{
  Fresh, fresh_signatures-Fresh, InTransaction, signature_loop-InTransaction,
}
use open_beanie.Lane.Discover.{
  Round, fresh_signatures, discovery_round, round_loop, discover_solana_receiver,
  discovery_tx_per_round,
}

module _ (sha256 : List ℕ → List ℕ) (net : Text → Net)
    (owners : List Text → Result ChainError (List (Option Text)))
    (derived : StoredLane → Result LaneError Text) (decode : Text → Option (List ℕ))
    (program : Factory) (merchant : Text) (route : CctpRoute) where
  -- The round, which started before the deadline, and the transaction, which is one that the
  -- network gave for the program, did not fail and is not older than the slot.
  pub record Announced (rounds : ℕ → Round) (count from_slot : ℕ) (receiver : Text) : Type 0 where
    pub index : ℕ
    pub signatures : List Signature
    pub in_time : index < count
    pub are_given : (rounds index).signatures program.id ≡ ok signatures
    pub in_transaction :
        InTransaction sha256 net owners derived decode program merchant route
          (Fresh from_slot signatures)
          (rounds index).log_of
          receiver

  discovery_round-InTransaction :
      (round : Round) (from_slot : ℕ) (seen : List Text) (r : Text)
      → (discovery_round sha256 net owners derived decode round program merchant route from_slot
          seen).result
        ≡ ok (some r)
      → (sigs : List Signature) × (round.signatures program.id ≡ ok sigs)
        × InTransaction sha256 net owners derived decode program merchant route
            (Fresh from_slot sigs)
            round.log_of
            r
  unfolding discovery_round
  discovery_round-InTransaction round from_slot seen r h =
      elim (Result-cases (round.signatures program.id)) [
        | inr (e, failed) ↦ cc (rw (discovery_round, failed) at h)
        | inl (sigs, got) ↦
            let fresh = fresh_signatures from_slot seen sigs in
            let all_fresh =
              All-take (Fresh from_slot sigs) discovery_tx_per_round fresh
                (fresh_signatures-Fresh from_slot seen sigs) in
            (
              sigs,
              got,
              signature_loop-InTransaction sha256 net owners derived decode program merchant route
                  (Fresh from_slot sigs) round.log_of seen (take discovery_tx_per_round fresh) r
                  (rw (discovery_round, got) at h) all_fresh,
            )
      ]

  widen :
      (rounds : ℕ → Round) (from_slot m n : ℕ) (r : Text)
      → m ≤ n
      → Announced rounds m from_slot r
      → Announced rounds n from_slot r
  widen rounds from_slot m n r le x = record {
    index = x.index;
    signatures = x.signatures;
    in_time = omega (arith, x.in_time, le);
    are_given = x.are_given;
    in_transaction = x.in_transaction;
  }

  round_loop-Announced :
      (rounds : ℕ → Round) (from_slot n i : ℕ) (seen : List Text) (r : Text)
      → round_loop sha256 net owners derived decode rounds program merchant route from_slot n i seen
        ≡ some r
      → Announced rounds (i + n) from_slot r
  unfolding round_loop
  round_loop-Announced rounds from_slot zero i seen r h = cc
  round_loop-Announced rounds from_slot (suc n) i seen r h =
      let searched =
        discovery_round sha256 net owners derived decode (rounds i) program merchant route from_slot
          seen in
      elim (Result-cases searched.result) [
        | inr (e, failed) ↦ widen rounds from_slot (i + 1 + n) (i + suc n) r (omega arith) (
            round_loop-Announced rounds from_slot n (i + 1) searched.seen r
              (rw (round_loop, failed) at h))
        | inl (found, f) ↦ elim (Option-cases found) [
          | inl none_yet ↦ widen rounds from_slot (i + 1 + n) (i + suc n) r (omega arith) (
              round_loop-Announced rounds from_slot n (i + 1) searched.seen r
                (rw (round_loop, f, none_yet) at h))
          | inr (a, some_one) ↦
              let same : a ≡ r = cc (rw (round_loop, f, some_one) at h) in
              let (sigs, given, there) =
                discovery_round-InTransaction (rounds i) from_slot seen r
                  (rw (some_one, same) at f) in
              record {
                index = i;
                signatures = sigs;
                in_time = omega arith;
                are_given = given;
                in_transaction = there;
              }
        ]
      ]

module _ (sha256 : List ℕ → List ℕ) (net : Text → Net)
    (owners : List Text → Result ChainError (List (Option Text)))
    (derived : StoredLane → Result LaneError Text) (decode : Text → Option (List ℕ)) where
  -- A receiver that is discovered for a merchant and a route was taken from the data in a line
  -- "Program data: " of the log of a transaction, in a round that started before the deadline; the
  -- network gave that transaction for the program, it did not fail, and it is not older than the
  -- slot. The data is an event that announces the receiver for that merchant and route, and one of
  -- the two accounts that are derived for it is there and belongs to the program.
  pub discover_solana_receiver_sound :
      (rounds : ℕ → Round) (count : ℕ) (merchant : Text) (route : CctpRoute) (from_slot : ℕ)
      (r : Text)
      → discover_solana_receiver sha256 net owners derived decode rounds count merchant route
          from_slot
        ≡ ok (some r)
      → (program : Factory) × (solana_program sha256 net owners derived ≡ ok program)
        × Announced sha256 net owners derived decode program merchant route rounds count from_slot r
  unfolding discover_solana_receiver
  discover_solana_receiver_sound rounds count merchant route from_slot r h =
      let search = λ (x : Factory).
        round_loop sha256 net owners derived decode rounds x merchant route from_slot count 0 [] in
      let (program, p, h1) =
        >>=-eq_ok (solana_program sha256 net owners derived) (λ x. ok (search x)) h in
      (
        program,
        p,
        widen sha256 net owners derived decode program merchant route rounds from_slot (0 + count)
            count r (omega arith)
            (round_loop-Announced sha256 net owners derived decode program merchant route rounds
              from_slot count 0 [] r (ok-injective _ (some r) h1)),
      )
