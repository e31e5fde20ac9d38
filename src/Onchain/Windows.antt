-- ===== src/Onchain/Windows.antt =====
-- How far a scan goes: a window starts where it is asked to, and ends no later than the head.
use open_beanie.Base.{
  ℕ, ◌+◌, ◌≤◌, ◌<◌, ◌≡◌, refl, sym, ap, ltb, List, [], reverse, Text, arith, Bool-cases, inl, inr,
  ◌⊎◌,
}
use open_beanie.Base.Result.{Result, ok, ◌>>=◌, >>=-eq_ok}
use open_beanie.Chains.{Kind, evm, starknet, solana, Chain}
use open_beanie.Store.{Deposit}
use open_beanie.Onchain.{ChainError, Net, require_chain, head_block}
use open_beanie.Onchain.Deposits.{
  Scan, log_deposits, solana_account, solana_hits, hit_loop, solana_transfers_into, evm_logs,
  scan_deposits, evm_deposits, starknet_deposits, solana_deposits, window_end, evm_log_window,
  starknet_event_window,
}

-- Where a scan succeeds, its next block is `n`.
abbrev NextIs : ℕ → Result ChainError Scan → Type 0
NextIs n r = (s : Scan) → r ≡ ok s → s.next_block ≡ n

NextIs-bind :
    {A : Type 0} (n : ℕ) (m : Result ChainError A) (f : A → Result ChainError Scan)
    → ((a : A) → NextIs n (f a))
    → NextIs n (m >>= f)
NextIs-bind n m f each s h = let (a, _, h') = >>=-eq_ok m f h in each a s h'

NextIs-ok : (ds : List Deposit) (n : ℕ) → NextIs n (ok (record { deposits = ds; next_block = n }))
NextIs-ok ds n s h =
    let same : ◌≡◌ {A = Scan} (record { deposits = ds; next_block = n }) s = cc in
    ap (λ (r : Scan). r.next_block) (sym same)

module _ (sha256 : List ℕ → List ℕ) (net : Net) (max_pages : ℕ) where
  next-evm :
      (chain : Chain) (receiver : Text) (from head : ℕ)
      → NextIs
          (window_end head from evm_log_window + 1)
          (evm_deposits sha256 net max_pages chain receiver from head)
  unfolding evm_deposits
  next-evm chain receiver from head =
      let to = window_end head from evm_log_window in
      NextIs-bind (to + 1) (evm_logs sha256 net max_pages chain receiver from to) _
        (λ logs. NextIs-bind (to + 1) (log_deposits logs) _ (λ ds. NextIs-ok ds (to + 1)))

  next-starknet :
      (chain : Chain) (receiver : Text) (from head : ℕ)
      → NextIs
          (window_end head from starknet_event_window + 1)
          (starknet_deposits sha256 net max_pages chain receiver from head)
  unfolding starknet_deposits
  next-starknet chain receiver from head = NextIs-bind _ _ _ (λ ds. NextIs-ok ds _)

  next-solana :
      (chain : Chain) (receiver : Text) (from head : ℕ)
      → NextIs (head + 1) (solana_deposits sha256 net max_pages chain receiver from head)
  unfolding solana_deposits
  next-solana chain receiver from head =
      let end = head + 1 in
      NextIs-bind end (solana_account sha256 net max_pages chain receiver) _ (λ account.
        NextIs-bind end (solana_hits sha256 net max_pages account from head) _ (λ hits.
          NextIs-bind end (hit_loop (solana_transfers_into net chain.usdc account) (reverse hits)) _
            (λ ds. NextIs-ok ds end)))

  abbrev by_kind : Kind → Chain → Text → ℕ → ℕ → Result ChainError Scan
  by_kind kind chain receiver from head = elim kind [
    | evm ↦ evm_deposits sha256 net max_pages chain receiver from head
    | starknet ↦ starknet_deposits sha256 net max_pages chain receiver from head
    | solana ↦ solana_deposits sha256 net max_pages chain receiver from head
  ]

  window-by_kind :
      (kind : Kind) (chain : Chain) (receiver : Text) (from head : ℕ) (s : Scan)
      → from ≤ head
      → by_kind kind chain receiver from head ≡ ok s
      → (from < s.next_block) × (s.next_block ≤ head + 1)
  window-by_kind evm chain receiver from head s le h =
      let n = next-evm chain receiver from head s h in (omega (arith, n), omega (arith, n))
  window-by_kind starknet chain receiver from head s le h =
      let n = next-starknet chain receiver from head s h in (omega (arith, n), omega (arith, n))
  window-by_kind solana chain receiver from head s le h =
      let n = next-solana chain receiver from head s h in (omega (arith, n), omega (arith, n))

  -- A scan that succeeds reads the head: where the head is below the block to start from it finds
  -- nothing and stays there, else the next block is behind that one, and at most one behind the
  -- head.
  pub scan_deposits_window :
      (chain_key receiver : Text) (from : ℕ) (s : Scan)
      → scan_deposits sha256 net max_pages chain_key receiver from ≡ ok s
      → (head : ℕ) × (head_block net chain_key ≡ ok head)
        × (((head < from) × (s.next_block ≡ from) × (s.deposits ≡ []))
            ⊎ ((from ≤ head) × (from < s.next_block) × (s.next_block ≤ head + 1)))
  unfolding scan_deposits
  scan_deposits_window chain_key receiver from s h =
      let (chain, _, h1) = >>=-eq_ok (require_chain chain_key) _ h in
      let (head, at_head, h2) = >>=-eq_ok (head_block net chain_key) _ h1 in
      (
        head,
        at_head,
        elim (Bool-cases (ltb head from)) [
          | inl e ↦
              let same : ◌≡◌ {A = Scan} (record { deposits = []; next_block = from }) s =
                cc (rw e at h2) in
              inl (ground (arith, e), rw (← same) refl, rw (← same) refl)
          | inr e ↦
              let le : from ≤ head = ground (arith, e) in
              let (past, near) =
                window-by_kind chain.kind chain receiver from head s le (rw e at h2) in
              inr (le, past, near)
        ],
      )
