-- ===== src/Watcher/Backoff.antt =====
-- A chain that failed is left alone for a while, which doubles up to a bound.
use open_beanie.Base.{
  ℕ, suc, zero, ◌+◌, ◌*◌, ◌^◌, ◌≤◌, ◌<◌, ◌≡◌, refl, ap, sym, ◌∙◌, Bool, true, false, ltb, List, [],
  none, arith, Option-cases, inl, inr, ◌⊎◌,
}
use open_beanie.Onchain.{Net}
use open_beanie.Store.{Entry, Storage}
use open_beanie.Watcher.{
  Job, ChainState, delay_after, job_loop, scan_chain, tick_ms, max_backoff_ms,
}
use native.Mathlib.Nat.{pow-suc}

pow-pos : (n : ℕ) → 1 ≤ 2 ^ n
pow-pos zero = omega arith
pow-pos (suc n) = omega (arith, pow-suc 2 n, pow-pos n)

pub delay_after_bounds :
    (n : ℕ) → (2 * tick_ms ≤ delay_after (n + 1)) × (delay_after (n + 1) ≤ max_backoff_ms)
delay_after_bounds n =
    let up : n + 1 ≡ suc n = omega arith in
    let twice : 2 ^ (n + 1) ≡ 2 ^ n * 2 = ap (λ (k : ℕ). 2 ^ k) up ∙ pow-suc 2 n in
    let one = pow-pos n in (omega (arith, twice, one), omega arith)

module _ (sha256 : List ℕ → List ℕ) (max_pages : ℕ) (fits : Storage → Bool) (net : ℕ → Net)
    (clock : ℕ → ℕ) (jobs : List Job) where
  scan_chain-idle :
      (i started ended : ℕ) (st : ChainState) (s : Storage)
      → started < st.next_at
      → scan_chain sha256 max_pages fits net clock jobs i started ended st s ≡ (st, s, [])
  unfolding scan_chain
  scan_chain-idle i started ended st s early =
      let e : ltb started st.next_at ≡ true = ground arith in rw (e, scan_chain)

  -- A scan of a chain that is due either has no receiver that failed, and then clears the state of
  -- the chain; or it counts one more failure and sets the time of the next scan two ticks to five
  -- minutes after its end, and every scan before that time leaves storage and state as they are
  -- and emits nothing.
  pub scan_chain_backoff :
      (i started ended : ℕ) (st st' : ChainState) (s s' : Storage) (new : List Entry)
      → st.next_at ≤ started
      → scan_chain sha256 max_pages fits net clock jobs i started ended st s ≡ (st', s', new)
      → (((job_loop sha256 max_pages fits net clock jobs i s).failure ≡ none)
          × (st'.failures ≡ 0)
          × (st'.next_at ≡ 0))
        ⊎ ((st'.failures ≡ st.failures + 1)
            × (ended + 2 * tick_ms ≤ st'.next_at)
            × (st'.next_at ≤ ended + max_backoff_ms)
            × ((i' started' ended' : ℕ) (s1 : Storage)
                → started' < st'.next_at
                → scan_chain sha256 max_pages fits net clock jobs i' started' ended' st' s1
                  ≡ (st', s1, [])))
  unfolding scan_chain
  scan_chain_backoff i started ended st st' s s' new due h =
      let run = job_loop sha256 max_pages fits net clock jobs i s in
      let e : ltb started st.next_at ≡ false = ground arith in
      elim (Option-cases run.failure) [
        | inl none_failed ↦
            let same : ◌≡◌ {A = ChainState} (record { failures = 0; next_at = 0 }) st' =
              ap (λ (o : ChainState × Storage × List Entry). o.0)
                (rw (e, scan_chain, none_failed) at h) in
            inl (none_failed, rw (← same) refl, rw (← same) refl)
        | inr (failed, some_failed) ↦
            let same : ◌≡◌ {A = ChainState}
                (record {
                  failures = st.failures + 1;
                  next_at = ended + delay_after (st.failures + 1);
                })
                st' =
              ap (λ (o : ChainState × Storage × List Entry). o.0)
                (rw (e, scan_chain, some_failed) at h) in
            let (least, most) = delay_after_bounds st.failures in
            let next : ended + delay_after (st.failures + 1) ≡ st'.next_at =
              ap (λ (c : ChainState). c.next_at) same in
            inr (
              sym (ap (λ (c : ChainState). c.failures) same),
              omega (arith, next),
              omega (arith, next),
              λ i' started' ended' s1 early. scan_chain-idle i' started' ended' st' s1 early,
            )
      ]
