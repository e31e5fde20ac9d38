-- ===== src/Gasless/Settlement.antt =====
-- gasless.js, `awaitSolanaSettlement`: what became of a payment that was queued.
pub mod Outcomes
use open_beanie.Base.{
  ℕ, zero, suc, ◌+◌, ◌-◌, Bool, true, false, ◌&&◌, ◌||◌, ltb, if◌then◌else◌, List, [], ◌∷◌, Option,
  none, some, Text, text_eq,
}
use open_beanie.Base.Result.{Result, ok, err}
use open_beanie.Onchain.{ChainError, Net, rpc, default_options}
use open_beanie.Onchain.Deposits.{Scan, is_text, scan_deposits}
use open_beanie.Chains.{solana_chain}
use open_beanie.Store.{Deposit}

abbrev pub settle_max_polls : ℕ
settle_max_polls = 40

pub data Settled : Type 0 where
  confirmed expired unknown : Settled

-- The `settlement` of a payment.
pub record Settlement : Type 0 where
  pub receiver : Text
  pub owner : Text
  pub amount_raw : Text
  pub from_slot : ℕ
  pub last_valid_block_height : ℕ

-- `deposits.some((d) => d.amount === amountRaw && d.from === owner)`
unfoldable pub is_paid : Settlement → List Deposit → Bool
unfolding text_eq
is_paid p [] = false
is_paid p (d ∷ ds) = (text_eq d.amount p.amount_raw && is_text d.from p.owner) || is_paid p ds

-- What the network answers in each poll: the two nodes, and the finalized block height by the proxy
-- and by the public node.
pub record Answers : Type 0 where
  pub net : Net
  pub height_via_proxy : Result ChainError ℕ
  pub height_via_node : Result ChainError ℕ

module _ (sha256 : List ℕ → List ℕ) (answers : ℕ → Answers) (max_pages : ℕ) (p : Settlement) where
  abbrev pub height_at : ℕ → Result ChainError ℕ
  unfolding rpc
  height_at i = rpc default_options (answers i).height_via_proxy (answers i).height_via_node

  -- The scan of the `i`-th poll from a slot on.
  abbrev pub scan_at : ℕ → ℕ → Result ChainError Scan
  unfolding scan_deposits
  scan_at i cursor =
      scan_deposits sha256 (answers i).net max_pages solana_chain.key p.receiver cursor

  -- The polls that are left, the `i`-th first. What throws is left for the next poll.
  unfoldable pub settle_loop : ℕ → ℕ → ℕ → Settled
  unfolding is_paid scan_deposits rpc
  settle_loop zero i cursor = unknown
  settle_loop (suc n) i cursor = elim (height_at i) [
    | err _ ↦ settle_loop n (i + 1) cursor
    | ok height ↦ elim (scan_at i cursor) [
      | err _ ↦ settle_loop n (i + 1) cursor
      | ok scan ↦
          let again = settle_loop n (i + 1) scan.next_block in
          if is_paid p scan.deposits
          then confirmed
          else if ltb p.last_valid_block_height height
          then expired
          else again
    ]
  ]

  unfoldable pub await_solana_settlement : Settled
  unfolding settle_loop
  await_solana_settlement = settle_loop settle_max_polls 0 p.from_slot
