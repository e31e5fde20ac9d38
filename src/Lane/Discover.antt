-- ===== src/Lane/Discover.antt =====
-- onchain.js, `discoverSolanaReceiver`: the receiver that was announced on Solana for a merchant
-- and a route.
pub mod Logged
pub mod Found
use open_beanie.Base.{
  ℕ, zero, suc, ◌+◌, Bool, true, false, not, ◌&&◌, ◌||◌, leb, if◌then◌else◌, List, [], ◌∷◌, Option,
  none, some, Text, text_eq, codes, take, drop, length,
}
use open_beanie.Base.Result.{Result, ok, err, ◌>>=◌}
use open_beanie.Base.Strings.{starts_with}
use open_beanie.Identity.{CctpRoute}
use open_beanie.Onchain.{ChainError, Net, Signature}
use open_beanie.Solana.Program.{Factory, Announcement, receiver_from_announced_event}
use open_beanie.Solana.Transfer.{includes}
use open_beanie.Lane.{
  LaneError, from_chain, from_program, lift, StoredLane, solana_program, verify_solana_receiver,
}

abbrev pub discovery_tx_per_round : ℕ
discovery_tx_per_round = 8

-- What the network answers in a round: the newest signatures of an account, and the log of each
-- transaction, if it can be read already.
pub record Round : Type 0 where
  pub signatures : Text → Result ChainError (List Signature)
  pub log_of : Text → Result ChainError (Option (List Text))

abbrev pub log_prefix : Text
log_prefix = codes "Program data: "

-- `sigs.filter(…)`
unfoldable pub fresh_signatures : ℕ → List Text → List Signature → List Signature
unfolding includes
fresh_signatures from_slot seen [] = []
fresh_signatures from_slot seen (s ∷ ss) =
    let rest = fresh_signatures from_slot seen ss in
    if not s.is_err && leb from_slot s.slot && not (includes s.signature seen)
    then s ∷ rest
    else rest

-- What a round leaves: the signatures that were seen, and the receiver, or the error that ended it.
pub record Searched : Type 0 where
  pub seen : List Text
  pub result : Result LaneError (Option Text)

-- `decode` is `atob`; what it refuses is passed over.
module _ (sha256 : List ℕ → List ℕ) (net : Text → Net)
    (owners : List Text → Result ChainError (List (Option Text)))
    (derived : StoredLane → Result LaneError Text) (decode : Text → Option (List ℕ)) where
  -- The receiver of an event is taken if its accounts exist.
  unfoldable pub check_event : Factory → Text → CctpRoute → List ℕ → Result LaneError (Option Text)
  unfolding receiver_from_announced_event verify_solana_receiver
  check_event program merchant route data_bytes =
      lift from_program (
        receiver_from_announced_event sha256 data_bytes program (record {
          merchant = merchant;
          chain32 = route.chain32;
          recipient32 = route.recipient32;
        }))
      >>= λ found. elim found [
        | none ↦ ok none
        | some receiver ↦
            verify_solana_receiver sha256 net owners derived merchant route receiver >>= λ there.
            ok (if there then some receiver else none)
      ]

  abbrev pub line_bytes : Text → Option (List ℕ)
  unfolding starts_with
  line_bytes line =
      if starts_with line log_prefix then decode (drop (length log_prefix) line) else none

  unfoldable pub line_loop : Factory → Text → CctpRoute → List Text → Result LaneError (Option Text)
  unfolding check_event starts_with
  line_loop program merchant route [] = ok none
  line_loop program merchant route (line ∷ lines) =
      let rest = line_loop program merchant route lines in
      elim (line_bytes line) [
        | none ↦ rest
        | some data_bytes ↦ check_event program merchant route data_bytes >>= λ found. elim found [
          | none ↦ rest
          | some receiver ↦ ok (some receiver)
        ]
      ]

  -- The transactions of a round; one that cannot be read yet is looked at again in the next.
  unfoldable pub signature_loop :
      (Text → Result ChainError (Option (List Text)))
      → Factory
      → Text
      → CctpRoute
      → List Text
      → List Signature
      → Searched
  unfolding line_loop
  signature_loop log_of program merchant route seen [] = record { seen = seen; result = ok none }
  signature_loop log_of program merchant route seen (s ∷ ss) = elim (log_of s.signature) [
    | err e ↦ record { seen = seen; result = err (from_chain e) }
    | ok none ↦ signature_loop log_of program merchant route seen ss
    | ok (some lines) ↦ elim (line_loop program merchant route lines) [
      | err e ↦ record { seen = s.signature ∷ seen; result = err e }
      | ok (some receiver) ↦ record { seen = s.signature ∷ seen; result = ok (some receiver) }
      | ok none ↦ signature_loop log_of program merchant route (s.signature ∷ seen) ss
    ]
  ]

  unfoldable pub discovery_round : Round → Factory → Text → CctpRoute → ℕ → List Text → Searched
  unfolding signature_loop fresh_signatures
  discovery_round round program merchant route from_slot seen = elim (round.signatures program.id) [
    | err e ↦ record { seen = seen; result = err (from_chain e) }
    | ok sigs ↦
        signature_loop round.log_of program merchant route seen
          (take discovery_tx_per_round (fresh_signatures from_slot seen sigs))
  ]

  -- The rounds that the time allows; a round that throws is followed by the next.
  unfoldable pub round_loop :
      (ℕ → Round) → Factory → Text → CctpRoute → ℕ → ℕ → ℕ → List Text → Option Text
  unfolding discovery_round
  round_loop rounds program merchant route from_slot zero i seen = none
  round_loop rounds program merchant route from_slot (suc n) i seen =
      let searched = discovery_round (rounds i) program merchant route from_slot seen in
      elim searched.result [
        | ok (some receiver) ↦ some receiver
        | ok none ↦
            round_loop rounds program merchant route from_slot n (i + 1)
              (discovery_round (rounds i) program merchant route from_slot seen).seen
        | err e ↦
            round_loop rounds program merchant route from_slot n (i + 1)
              (discovery_round (rounds i) program merchant route from_slot seen).seen
      ]

  -- `count` rounds start before the deadline.
  unfoldable pub discover_solana_receiver :
      (ℕ → Round) → ℕ → Text → CctpRoute → ℕ → Result LaneError (Option Text)
  unfolding round_loop
  discover_solana_receiver rounds count merchant route from_slot =
      solana_program sha256 net owners derived >>= λ program.
      ok (round_loop rounds program merchant route from_slot count 0 [])
