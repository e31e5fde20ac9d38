-- ===== src/Lane/Discover/Logged.antt =====
-- What the log of one transaction says of a receiver that is taken from it.
use open_beanie.Base.{
  ℕ, ◌≤◌, ◌≡◌, refl, Bool, true, false, not, ◌&&◌, leb, leb→le, List, [], ◌∷◌, ◌++◌, Option, some,
  Text, codes, drop, length, All, All-imp, Bool-cases, Option-cases, inl, inr,
}
use mathlib.Core.List.{Mem, mem-cons_self, mem-cons_of_mem}
use open_beanie.Base.Result.{Result, ok, >>=-eq_ok, Result-cases}
use open_beanie.Base.Strings.{starts_with, starts_with-split}
use open_beanie.Identity.{CctpRoute}
use open_beanie.Onchain.{ChainError, Net, Signature}
use open_beanie.Solana.Program.{Factory, receiver_from_announced_event}
use open_beanie.Solana.Transfer.{includes}
use open_beanie.Lane.{LaneError, from_program, lift, StoredLane, verify_solana_receiver}
use open_beanie.Lane.Owned.{lift-eq_ok, Owned, verify_solana_receiver-Owned}
use open_beanie.Lane.Discover.{
  fresh_signatures, check_event, line_bytes, line_loop, signature_loop, log_prefix,
}

-- A signature of the list whose transaction did not fail and is not older than the slot.
pub record Fresh (from_slot : ℕ) (ss : List Signature) (s : Signature) : Type 0 where
  pub is_listed : Mem s ss
  pub not_failed : s.is_err ≡ false
  pub not_old : from_slot ≤ s.slot

Fresh-later :
    (from_slot : ℕ) (ss : List Signature) (t s : Signature)
    → Fresh from_slot ss s
    → Fresh from_slot (t ∷ ss) s
Fresh-later from_slot ss t s f = record {
  is_listed = mem-cons_of_mem t f.is_listed;
  not_failed = f.not_failed;
  not_old = f.not_old;
}

fresh_test : (e o n : Bool) → (not e && o && not n) ≡ true → (e ≡ false) × (o ≡ true)
fresh_test false true n h = (refl, refl)
fresh_test false false n h = cc
fresh_test true o n h = cc

pub fresh_signatures-Fresh :
    (from_slot : ℕ) (seen : List Text) (ss : List Signature)
    → All (Fresh from_slot ss) (fresh_signatures from_slot seen ss)
unfolding fresh_signatures
fresh_signatures-Fresh from_slot seen [] = tt
fresh_signatures-Fresh from_slot seen (s ∷ ss) =
    let rest =
      All-imp (Fresh from_slot ss) (Fresh from_slot (s ∷ ss)) (Fresh-later from_slot ss s)
        (fresh_signatures from_slot seen ss) (fresh_signatures-Fresh from_slot seen ss) in
    elim (Bool-cases (not s.is_err && leb from_slot s.slot && not (includes s.signature seen))) [
      | inl e ↦
          let (good, new) = fresh_test s.is_err (leb from_slot s.slot) _ e in
          let here : Fresh from_slot (s ∷ ss) s = record {
            is_listed = mem-cons_self;
            not_failed = good;
            not_old = leb→le from_slot s.slot new;
          } in
          rw (fresh_signatures, e) (here, rest)
      | inr e ↦ rw (fresh_signatures, e) rest
    ]

line_bytes-eq_some :
    (sha256 : List ℕ → List ℕ) (net : Text → Net)
    (owners : List Text → Result ChainError (List (Option Text)))
    (derived : StoredLane → Result LaneError Text) (decode : Text → Option (List ℕ)) (line : Text)
    (event : List ℕ)
    → line_bytes sha256 net owners derived decode line ≡ some event
    → (encoded : Text) × (line ≡ codes "Program data: " ++ encoded) × (decode encoded ≡ some event)
unfolding line_bytes
line_bytes-eq_some sha256 net owners derived decode line event h =
    elim (Bool-cases (starts_with line log_prefix)) [
      | inl e ↦ (drop (length log_prefix) line, starts_with-split line log_prefix e, rw e at h)
      | inr e ↦ cc (rw e at h)
    ]

module _ (sha256 : List ℕ → List ℕ) (net : Text → Net)
    (owners : List Text → Result ChainError (List (Option Text)))
    (derived : StoredLane → Result LaneError Text) (decode : Text → Option (List ℕ))
    (program : Factory) (merchant : Text) (route : CctpRoute) where
  -- What an event says of a receiver.
  abbrev pub Says : List ℕ → Text → Type 0
  Says event receiver =
      (receiver_from_announced_event sha256 event program
          (record { merchant = merchant; chain32 = route.chain32; recipient32 = route.recipient32 })
        ≡ ok (some receiver))
      × (verify_solana_receiver sha256 net owners derived merchant route receiver ≡ ok true)
      × Owned sha256 net owners derived merchant route receiver

  -- The line of a log with the event.
  pub record InLog (lines : List Text) (receiver : Text) : Type 0 where
    pub line : Text
    pub encoded : Text
    pub event : List ℕ
    pub is_logged : Mem line lines
    pub is_data : line ≡ codes "Program data: " ++ encoded
    pub is_event : decode encoded ≡ some event
    pub says : Says event receiver

  -- The transaction, which is one of those with the property, and its log.
  pub record InTransaction (P : Signature → Type 0)
      (log_of : Text → Result ChainError (Option (List Text))) (receiver : Text) : Type 0 where
    pub signature : Signature
    pub lines : List Text
    pub is_one : P signature
    pub is_log : log_of signature.signature ≡ ok (some lines)
    pub in_log : InLog lines receiver

  check_event-Says :
      (data_bytes : List ℕ) (r : Text)
      → check_event sha256 net owners derived decode program merchant route data_bytes ≡ ok (some r)
      → Says data_bytes r
  unfolding check_event
  check_event-Says data_bytes r h =
      let read = receiver_from_announced_event sha256 data_bytes program (record {
        merchant = merchant;
        chain32 = route.chain32;
        recipient32 = route.recipient32;
      }) in
      let (found, f, h1) = >>=-eq_ok (lift from_program read) _ h in
      elim (Option-cases found) [
        | inl e ↦ cc (rw e at h1)
        | inr (a, e) ↦
            let (there, t, h2) =
              >>=-eq_ok (verify_solana_receiver sha256 net owners derived merchant route a) _
                (rw e at h1) in
            elim (Bool-cases there) [
              | inr gone ↦ cc (rw gone at h2)
              | inl yes' ↦
                  let same : a ≡ r = cc (rw yes' at h2) in
                  rw (← same) (
                    rw e at (lift-eq_ok from_program read found f),
                    rw yes' at t,
                    verify_solana_receiver-Owned sha256 net owners derived merchant route a
                        (rw yes' at t),
                  )
            ]
      ]

  later : (line : Text) (lines : List Text) (r : Text) → InLog lines r → InLog (line ∷ lines) r
  later line lines r x = record {
    line = x.line;
    encoded = x.encoded;
    event = x.event;
    is_logged = mem-cons_of_mem line x.is_logged;
    is_data = x.is_data;
    is_event = x.is_event;
    says = x.says;
  }

  line_loop-InLog :
      (lines : List Text) (r : Text)
      → line_loop sha256 net owners derived decode program merchant route lines ≡ ok (some r)
      → InLog lines r
  unfolding line_loop
  line_loop-InLog [] r h = cc
  line_loop-InLog (line ∷ lines) r h =
      elim (Option-cases (line_bytes sha256 net owners derived decode line)) [
        | inl e ↦ later line lines r (line_loop-InLog lines r (rw (line_loop, e) at h))
        | inr (data_bytes, e) ↦
            let (found, f, h1) =
              >>=-eq_ok
                (check_event sha256 net owners derived decode program merchant route data_bytes) _
                (rw (line_loop, e) at h) in
            elim (Option-cases found) [
              | inl none_yet ↦ later line lines r (line_loop-InLog lines r (rw none_yet at h1))
              | inr (a, some_one) ↦
                  let same : a ≡ r = cc (rw some_one at h1) in
                  let (encoded, split, decoded) =
                    line_bytes-eq_some sha256 net owners derived decode line data_bytes e in
                  record {
                    line = line;
                    encoded = encoded;
                    event = data_bytes;
                    is_logged = mem-cons_self;
                    is_data = split;
                    is_event = decoded;
                    says = check_event-Says data_bytes r (rw (some_one, same) at f);
                  }
            ]
      ]

  pub signature_loop-InTransaction :
      (P : Signature → Type 0) (log_of : Text → Result ChainError (Option (List Text)))
      (seen : List Text) (ss : List Signature) (r : Text)
      → (signature_loop sha256 net owners derived decode log_of program merchant route seen
          ss).result
        ≡ ok (some r)
      → All P ss
      → InTransaction P log_of r
  unfolding signature_loop
  signature_loop-InTransaction P log_of seen [] r h all_so = cc
  signature_loop-InTransaction P log_of seen (s ∷ ss) r h (so, all_so) =
      elim (Result-cases (log_of s.signature)) [
        | inr (e, failed) ↦ cc (rw (signature_loop, failed) at h)
        | inl (answer, got) ↦ elim (Option-cases answer) [
          | inl unread ↦
              signature_loop-InTransaction P log_of seen ss r
                (rw (signature_loop, got, unread) at h) all_so
          | inr (lines, is_lines) ↦
              let loop = line_loop sha256 net owners derived decode program merchant route lines in
              let h' = rw (signature_loop, got, is_lines) at h in
              elim (Result-cases loop) [
                | inr (e, failed) ↦ cc (rw failed at h')
                | inl (found, f) ↦ elim (Option-cases found) [
                  | inl none_yet ↦
                      signature_loop-InTransaction P log_of (s.signature ∷ seen) ss r
                        (rw (f, none_yet) at h') all_so
                  | inr (a, some_one) ↦
                      let same : a ≡ r = cc (rw (f, some_one) at h') in
                      record {
                        signature = s;
                        lines = lines;
                        is_one = so;
                        is_log = rw is_lines at got;
                        in_log = line_loop-InLog lines r (rw (some_one, same) at f);
                      }
                ]
              ]
        ]
      ]
