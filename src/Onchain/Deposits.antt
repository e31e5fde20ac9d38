-- ===== src/Onchain/Deposits.antt =====
-- onchain.js: `scanDeposits`, one window of the transfers into a receiver.
use open_beanie.Base.{
  ℕ, zero, suc, ◌+◌, ◌-◌, min, Bool, true, false, not, ◌&&◌, ◌||◌, ltb, leb, if◌then◌else◌, List,
  [], ◌∷◌, ◌++◌, map, reverse, Option, none, some, Text, text_eq, codes, length, concat,
}
use open_beanie.Base.Bits.{shl}
use open_beanie.Base.Result.{Result, ok, err, ◌>>=◌}
use open_beanie.Base.Strings.{to_string}
use open_beanie.Chains.{evm, starknet, solana, Chain}
use open_beanie.Identity.{with_0x}
use open_beanie.Solana.Program.{usdc_ata}
use open_beanie.Solana.Transfer.{token_program}
use open_beanie.Store.{Deposit}
use open_beanie.Onchain.{
  ChainError, malformed, too_many, unreadable, Log, Event, EventPage, out_of_fuel, Signature,
  Parsed, Instruction, Net, rpc, default_options, require_chain, big_int_of, pad32, to_hex_num,
  head_block,
}

-- The deposits of a window, and the block that the next one starts at.
pub record Scan : Type 0 where
  pub deposits : List Deposit
  pub next_block : ℕ

abbrev pub evm_log_window : ℕ
evm_log_window = 2000

abbrev pub starknet_event_window : ℕ
starknet_event_window = 500

abbrev pub solana_max_sig_pages : ℕ
solana_max_sig_pages = 10

abbrev pub log_deposit : Log → ℕ → Deposit
log_deposit l n = record {
  amount = to_string 10 n;
  from = none;
  tx = l.transaction_hash;
  block = l.block_number;
}

-- `logs.map`, whose function throws where `BigInt` does.
unfoldable pub log_deposits : List Log → Result ChainError (List Deposit)
unfolding big_int_of
log_deposits [] = ok []
log_deposits (l ∷ ls) =
    let rest = log_deposits ls in
    do n ← big_int_of l.data_text; ds ← rest; ok (log_deposit l n ∷ ds)

-- `const [low = "0x0", high = "0x0"] = ev.data`
abbrev pub word : List Text → ℕ → Text
word [] i = codes "0x0"
word (w ∷ ws) zero = w
word (w ∷ ws) (suc i) = word ws i

abbrev pub event_deposit : Event → ℕ → ℕ → Deposit
event_deposit ev high low = record {
  amount = to_string 10 (shl high 128 + low);
  from = none;
  tx = ev.transaction_hash;
  block = ev.block_number;
}

unfoldable pub event_deposits : List Event → Result ChainError (List Deposit)
unfolding big_int_of
event_deposits [] = ok []
event_deposits (ev ∷ evs) =
    let rest = event_deposits evs in
    do
      high ← big_int_of (word ev.words 1)
      low ← big_int_of (word ev.words 0)
      ds ← rest
      ok (event_deposit ev high low ∷ ds)

-- `while (token)`: an empty token ends the loop too.
abbrev pub is_more : Option Text → Bool
is_more none = false
is_more (some []) = false
is_more (some (_ ∷ _)) = true

-- The loop over the pages, with the deposits of those before. It goes on for as long as the node
-- gives tokens; the fuel bounds the pages.
unfoldable pub page_loop :
    (Option Text → Result ChainError EventPage)
    → ℕ
    → Option Text
    → List Deposit
    → Result ChainError (List Deposit)
unfolding event_deposits
page_loop ask zero token found = err out_of_fuel
page_loop ask (suc fuel) token found = elim (ask token) [
  | err e ↦ err e
  | ok page ↦ elim (event_deposits page.events) [
    | err e ↦ err e
    | ok ds ↦
        let rest = page_loop ask fuel page.continuation_token (found ++ ds) in
        if is_more page.continuation_token then rest else ok (found ++ ds)
  ]
]

-- One page of signatures: those to keep, and whether a slot before `from` was met.
unfoldable pub batch_loop : ℕ → ℕ → List Signature → List Signature × Bool
batch_loop from head [] = ([], false)
batch_loop from head (s ∷ batch) =
    let (hits, reached) = batch_loop from head batch in
    if ltb s.slot from
    then ([], true)
    else if not s.is_err && leb s.slot head
    then (s ∷ hits, reached)
    else (hits, reached)

abbrev pub last_signature : List Signature → Option Text
last_signature [] = none
last_signature (s ∷ []) = some s.signature
last_signature (s ∷ t ∷ batch) = last_signature (t ∷ batch)

-- The pages of signatures that are left, newest first, and whether the end was reached.
unfoldable pub signature_loop :
    (Option Text → Result ChainError (List Signature))
    → ℕ
    → ℕ
    → ℕ
    → Option Text
    → Result ChainError (List Signature)
unfolding batch_loop
signature_loop ask from head zero before = err too_many
signature_loop ask from head (suc pages) before = elim (ask before) [
  | err e ↦ err e
  | ok batch ↦
      if (batch_loop from head batch).1 || ltb (length batch) 1000
      then ok (batch_loop from head batch).0
      else elim (signature_loop ask from head pages (last_signature batch)) [
        | err e ↦ err e
        | ok hits ↦ ok ((batch_loop from head batch).0 ++ hits)
      ]
]

abbrev pub is_text : Option Text → Text → Bool
is_text none t = false
is_text (some s) t = text_eq s t

-- A transfer, with who authorised it.
pub record Transfer : Type 0 where
  pub amount : Text
  pub authority : Option Text

-- `info.authority ?? info.multisigAuthority ?? null`
abbrev pub authority_of : Parsed → Option Text
authority_of p = elim p.authority [ none ↦ p.multisig_authority | some a ↦ some a ]

-- An instruction, if it is a transfer into `account`.
abbrev pub transfer_amount : Text → Text → Instruction → List Transfer
transfer_amount usdc account ix = elim ix.parsed [
  | none ↦ []
  | some p ↦
      if not (text_eq ix.program_id token_program)
      then []
      else if not (is_text p.destination account) || is_text p.source account
      then []
      else if text_eq p.kind_of (codes "transfer")
      then record { amount = p.amount; authority = authority_of p } ∷ []
      else if text_eq p.kind_of (codes "transferChecked") && is_text p.mint usdc
      then record { amount = p.token_amount; authority = authority_of p } ∷ []
      else []
]

unfoldable pub transfers_of : Text → Text → List Instruction → List Transfer
transfers_of usdc account [] = []
transfers_of usdc account (ix ∷ ixs) =
    transfer_amount usdc account ix ++ transfers_of usdc account ixs

unfoldable pub solana_transfers_into : Net → Text → Text → Text → Result ChainError (List Transfer)
unfolding rpc transfers_of
solana_transfers_into net usdc account signature =
    rpc default_options (net.proxy.get_transaction signature) (net.public.get_transaction signature)
    >>= λ answer. elim answer [
      | none ↦ err (unreadable signature)
      | some tx ↦
          if tx.is_err
          then ok []
          else ok (transfers_of usdc account (tx.instructions ++ concat tx.inner))
    ]

abbrev pub signature_deposit : Signature → Transfer → Deposit
signature_deposit s t = record {
  amount = t.amount;
  from = t.authority;
  tx = s.signature;
  block = s.slot;
}

-- The transactions, oldest first. They are fetched five at a time, in parallel, and all of them
-- have to be read, so the answer is that of one after the other.
unfoldable pub hit_loop :
    (Text → Result ChainError (List Transfer)) → List Signature → Result ChainError (List Deposit)
hit_loop transfers [] = ok []
hit_loop transfers (s ∷ hits) =
    let rest = hit_loop transfers hits in
    do ts ← transfers s.signature; ds ← rest; ok (map (signature_deposit s) ts ++ ds)

abbrev pub or_malformed {ℓ} : {E : Type 0} {A : Type ℓ} → Text → Result E A → Result ChainError A
or_malformed t (ok a) = ok a
or_malformed t (err _) = err (malformed t)

-- `fromBlock + WINDOW - 1`, no later than the head.
abbrev pub window_end : ℕ → ℕ → ℕ → ℕ
window_end head from window = min head (from + window - 1)

module _ (sha256 : List ℕ → List ℕ) (net : Net) (max_pages : ℕ) where
  -- `SOLANA_RECEIVER_KIND` is "wallet", so the account is the associated token account.
  abbrev pub solana_account : Chain → Text → Result ChainError Text
  solana_account chain receiver = or_malformed receiver (usdc_ata sha256 receiver chain.usdc)

  abbrev pub solana_hits : Text → ℕ → ℕ → Result ChainError (List Signature)
  unfolding signature_loop rpc
  solana_hits account from head =
      signature_loop
        (λ before.
          rpc default_options (net.proxy.get_signatures account before)
            (net.public.get_signatures account before))
        from head solana_max_sig_pages none

  unfoldable pub solana_deposits : Chain → Text → ℕ → ℕ → Result ChainError Scan
  unfolding hit_loop solana_transfers_into
  solana_deposits chain receiver from head = do
    account ← solana_account chain receiver
    hits ← solana_hits account from head
    ds ← hit_loop (solana_transfers_into net chain.usdc account) (reverse hits)
    ok (record { deposits = ds; next_block = head + 1 })

  abbrev pub evm_logs : Chain → Text → ℕ → ℕ → Result ChainError (List Log)
  unfolding rpc
  evm_logs chain receiver from to =
      let topic = with_0x (pad32 receiver) in
      rpc default_options
        (net.proxy.eth_get_logs chain.usdc (to_hex_num from) (to_hex_num to) topic)
        (net.public.eth_get_logs chain.usdc (to_hex_num from) (to_hex_num to) topic)

  unfoldable pub evm_deposits : Chain → Text → ℕ → ℕ → Result ChainError Scan
  unfolding log_deposits
  evm_deposits chain receiver from head = do
    logs ← evm_logs chain receiver from (window_end head from evm_log_window)
    ds ← log_deposits logs
    ok (record { deposits = ds; next_block = window_end head from evm_log_window + 1 })

  unfoldable pub starknet_deposits : Chain → Text → ℕ → ℕ → Result ChainError Scan
  unfolding page_loop rpc
  starknet_deposits chain receiver from head =
      let to = window_end head from starknet_event_window in
      do
        ds ←
            page_loop
              (λ token.
                rpc default_options
                  (net.proxy.starknet_get_events chain.usdc from to receiver token)
                  (net.public.starknet_get_events chain.usdc from to receiver token))
              max_pages none []
        ok (record { deposits = ds; next_block = to + 1 })

  unfoldable pub scan_deposits : Text → Text → ℕ → Result ChainError Scan
  unfolding evm_deposits starknet_deposits solana_deposits head_block require_chain
  scan_deposits chain_key receiver from = require_chain chain_key >>= λ chain.
      head_block net chain_key >>= λ head.
      if ltb head from then ok (record { deposits = []; next_block = from }) else elim chain.kind [
        | evm ↦ evm_deposits chain receiver from head
        | starknet ↦ starknet_deposits chain receiver from head
        | solana ↦ solana_deposits chain receiver from head
      ]
