-- ===== src/Onchain/Signatures.antt =====
-- No signature of a window is passed over while the pages are read.
use open_beanie.Base.{
  ℕ, zero, suc, ◌≤◌, ◌<◌, ◌≡◌, refl, sym, ap, ◌∙◌, true, false, not, ◌&&◌, ◌||◌, ltb, leb, List, [],
  ◌∷◌, ◌++◌, Option, some, Text, length, arith, Bool-cases, inl, inr, ◌⊎◌, All,
}
use open_beanie.Base.Result.{Result, ok, Result-cases}
use open_beanie.Onchain.{ChainError, Signature}
use open_beanie.Onchain.Deposits.{batch_loop, last_signature, signature_loop}

abbrev pub Among : Signature → List Signature → Type 0
Among s [] = ⊥
Among s (t ∷ ts) = (s ≡ t) ⊎ Among s ts

Among-left : (s : Signature) (xs ys : List Signature) → Among s xs → Among s (xs ++ ys)
Among-left s [] ys m = elim m [ ]
Among-left s (x ∷ xs) ys (inl e) = inl e
Among-left s (x ∷ xs) ys (inr m) = inr (Among-left s xs ys m)

Among-right : (s : Signature) (xs ys : List Signature) → Among s ys → Among s (xs ++ ys)
Among-right s [] ys m = m
Among-right s (x ∷ xs) ys m = inr (Among-right s xs ys m)

-- No signature of a page is newer than one before it.
abbrev pub Ordered : List Signature → Type 0
Ordered [] = Unit {0}
Ordered (t ∷ ts) = All (λ s. s.slot ≤ t.slot) ts × Ordered ts

All-Among :
    (P : Signature → Type 0) (ts : List Signature) (s : Signature) → All P ts → Among s ts → P s
All-Among P [] s h m = elim m [ ]
All-Among P (t ∷ ts) s (h, hs) (inl e) = rw e h
All-Among P (t ∷ ts) s (h, hs) (inr m) = All-Among P ts s hs m

-- A successful transaction of the window.
abbrev pub InWindow : ℕ → ℕ → Signature → Type 0
InWindow from head s = (s.is_err ≡ false) × (from ≤ s.slot) × (s.slot ≤ head)

module _ (from head : ℕ) where
  batch_loop_complete :
      (batch : List Signature) (s : Signature)
      → Ordered batch
      → Among s batch
      → InWindow from head s
      → Among s (batch_loop from head batch).0
  unfolding batch_loop
  batch_loop_complete [] s o m w = elim m [ ]
  batch_loop_complete (t ∷ batch) s (o, os) m w = elim (Bool-cases (ltb t.slot from)) [
    | inl e ↦ elim m [
      | inl same ↦
          let at : s.slot ≡ t.slot = ap (λ (x : Signature). x.slot) same in
          absurd (ground (arith, e, at))
      | inr there ↦
          let le = All-Among (λ x. x.slot ≤ t.slot) batch s o there in
          absurd (ground (arith, e, le))
    ]
    | inr e ↦ elim (Bool-cases (not t.is_err && leb t.slot head)) [
      | inl k ↦ elim m [
        | inl same ↦ rw (e, batch_loop, k) (inl same)
        | inr there ↦ rw (e, batch_loop, k) (inr (batch_loop_complete batch s os there w))
      ]
      | inr k ↦ elim m [
        | inl same ↦
            let at : s.slot ≡ t.slot = ap (λ (x : Signature). x.slot) same in
            let fine : t.is_err ≡ false = ap (λ (x : Signature). x.is_err) (sym same) ∙ w.0 in
            let near : leb t.slot head ≡ true = ground (arith, at) in cc (rw (fine, near) at k)
        | inr there ↦ rw (e, batch_loop, k) (batch_loop_complete batch s os there w)
      ]
    ]
  ]

  -- Where a page reaches the start of the window, it has a signature before the window.
  batch_loop-reached :
      (batch : List Signature)
      → (batch_loop from head batch).1 ≡ true
      → (t : Signature) × Among t batch × (t.slot < from)
  unfolding batch_loop
  batch_loop-reached [] h = cc
  batch_loop-reached (t ∷ batch) h = elim (Bool-cases (ltb t.slot from)) [
    | inl e ↦ (t, inl refl, ground (arith, e))
    | inr e ↦ elim (Bool-cases (not t.is_err && leb t.slot head)) [
      | inl k ↦
          let (u, m, lt) = batch_loop-reached batch (rw (e, batch_loop, k) at h) in (u, inr m, lt)
      | inr k ↦
          let (u, m, lt) = batch_loop-reached batch (rw (e, batch_loop, k) at h) in (u, inr m, lt)
    ]
  ]

module _ (ask : Option Text → Result ChainError (List Signature)) where
  -- A signature on the page that is asked for, or on one of those behind it.
  pub data Listed : Option Text → Signature → Type 0 where
    here :
        (before : Option Text) (batch : List Signature) (s : Signature)
        → ask before ≡ ok batch
        → Among s batch
        → Listed before s
    later :
        (before : Option Text) (batch : List Signature) (b : Text) (s : Signature)
        → ask before ≡ ok batch
        → last_signature batch ≡ some b
        → Listed (some b) s
        → Listed before s

  -- A signature on a page behind this one.
  abbrev pub Behind : List Signature → Signature → Type 0
  Behind batch s = (b : Text) × (last_signature batch ≡ some b) × Listed (some b) s

  on_page :
      (before : Option Text) (batch : List Signature) (s : Signature)
      → ask before ≡ ok batch
      → Listed before s
      → Among s batch ⊎ Behind batch s
  on_page before batch s asked (here _ page _ read m) =
      let same : page ≡ batch = cc in inl (rw same at m)
  on_page before batch s asked (later _ page b _ read end m) =
      let same : page ≡ batch = cc in inr (b, rw same at end, m)

  -- What getSignaturesForAddress documents: the newest come first, and a page that is not full is
  -- the last.
  pub record Documented : Type 0 where
    pub ordered :
        (before : Option Text) (batch : List Signature) → ask before ≡ ok batch → Ordered batch
    pub older :
        (before : Option Text) (batch : List Signature) (s t : Signature)
        → ask before ≡ ok batch
        → Behind batch s
        → Among t batch
        → s.slot ≤ t.slot
    pub short_is_last :
        (before : Option Text) (batch : List Signature) (s : Signature)
        → ask before ≡ ok batch
        → length batch < 1000
        → Behind batch s
        → ⊥

  past_end :
      (from head : ℕ) (before : Option Text) (batch : List Signature) (s : Signature)
      → Documented
      → ask before ≡ ok batch
      → ((batch_loop from head batch).1 || ltb (length batch) 1000) ≡ true
      → Behind batch s
      → InWindow from head s
      → ⊥
  past_end from head before batch s doc asked stop behind w =
      elim (Bool-cases (batch_loop from head batch).1) [
        | inl r ↦
            let (t, m, lt) = batch_loop-reached from head batch r in
            let le = doc.older before batch s t asked behind m in absurd (omega arith)
        | inr r ↦
            let short : ltb (length batch) 1000 ≡ true = rw r at stop in
            doc.short_is_last before batch s asked (ground (arith, short)) behind
      ]

  -- Where the paging of signatures succeeds, and the node lists the newest first and gives a page
  -- that is not full only as the last: every successful transaction that is listed and lies
  -- between the two slots is among the results.
  pub signature_loop_complete :
      (from head pages : ℕ) (before : Option Text) (hits : List Signature) (s : Signature)
      → Documented
      → signature_loop ask from head pages before ≡ ok hits
      → Listed before s
      → InWindow from head s
      → Among s hits
  unfolding signature_loop
  signature_loop_complete from head zero before hits s doc h listed w = cc
  signature_loop_complete from head (suc pages) before hits s doc h listed w =
      elim (Result-cases (ask before)) [
        | inr (e, failed) ↦ cc (rw (failed, signature_loop) at h)
        | inl (batch, asked) ↦
            let found = (batch_loop from head batch).0 in
            elim (Bool-cases ((batch_loop from head batch).1 || ltb (length batch) 1000)) [
              | inl stop ↦
                  let all_of : found ≡ hits = cc (rw (asked, signature_loop, stop) at h) in
                  rw (← all_of) (elim (on_page before batch s asked listed) [
                    | inl m ↦
                        batch_loop_complete from head batch s (doc.ordered before batch asked) m w
                    | inr behind ↦
                        absurd (past_end from head before batch s doc asked stop behind w)
                  ])
              | inr more ↦
                  elim (Result-cases (signature_loop ask from head pages (last_signature batch))) [
                    | inr (e, failed) ↦ cc (rw (asked, signature_loop, more, failed) at h)
                    | inl (rest, deeper) ↦
                        let both : found ++ rest ≡ hits =
                          cc (rw (asked, signature_loop, more, deeper) at h) in
                        rw (← both) (elim (on_page before batch s asked listed) [
                          | inl m ↦ Among-left s found rest (
                              batch_loop_complete from head batch s (doc.ordered before batch asked)
                                m w)
                          | inr (b, end, behind) ↦ Among-right s found rest (
                              signature_loop_complete from head pages (some b) rest s doc
                                (rw end at deeper) behind w)
                        ])
                  ]
            ]
      ]
