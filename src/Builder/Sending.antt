-- ===== src/Builder/Sending.antt =====
-- When a bundle counts as sent, and what the builder client does to the operations of the context.
use aiops_bundler.Base.{
  ℕ, zero, suc, ◌+◌, ◌≡◌, sym, ◌∙◌, subst, inl, inr, Bool, true, false, ◌&&◌, List, [], ◌∷◌, ◌++◌,
  Option, none, some, Perm, arith,
}
use aiops_bundler.Base.Tests.{◌==◌, Bool-cases, Option-cases}
use aiops_bundler.Base.Lists.{length}
use aiops_bundler.Base.Result.{ok, err, >>=-elim}
use aiops_bundler.Aiop.{AiOperation}
use aiops_bundler.Modules.{BatchHandlerCtx}
use aiops_bundler.Modules.Removal.{held}
use aiops_bundler.Relay.{estimate_loop}
use aiops_bundler.Relay.Conserving.{estimate_loop-conserves}
use aiops_bundler.Builder.{
  BuilderClient, read_results, broadcast_loop, broadcast, max_base_fee, send_bundle, build_and_send,
}

module _ {ℓ} {E : Type ℓ} where
  -- Whether every builder failed, for one broadcast and for those of `n` blocks.
  abbrev pub all_failed : List (Option E) → Bool
  all_failed [] = true
  all_failed (some e ∷ results) = all_failed results
  all_failed (none ∷ results) = false

  abbrev pub none_took : (ℕ → List (Option E)) → ℕ → ℕ → Bool
  none_took results zero block = true
  none_took results (suc n) block = all_failed (results block) && none_took results n (suc block)

  read_results-failed :
      (results : List (Option E)) (should_fail : Bool) (errs : List E)
      → (read_results results (should_fail, errs)).0 ≡ (should_fail && all_failed results)
  unfolding read_results
  read_results-failed [] should_fail errs = ground arith
  read_results-failed (some e ∷ rest) should_fail errs =
      read_results-failed rest should_fail (errs ++ e ∷ [])
  read_results-failed (none ∷ rest) should_fail errs =
      ground (arith, read_results-failed rest false errs)

  -- The broadcasts fail exactly if no builder takes the bundle for any of the blocks.
  broadcast_loop-failed :
      (results : ℕ → List (Option E)) (n block : ℕ) (should_fail : Bool) (errs : List E)
      → (broadcast_loop results n block (should_fail, errs)).0
        ≡ (should_fail && none_took results n block)
  unfolding broadcast_loop
  broadcast_loop-failed results zero block should_fail errs = ground arith
  broadcast_loop-failed results (suc n) block should_fail errs =
      let (failed, errs') = read_results (results block) (should_fail, errs) in
      ground (
        arith,
        broadcast_loop-failed results n (suc block) failed errs',
        read_results-failed (results block) should_fail errs,
      )

  module _ (b : BuilderClient E) where
    -- A transaction that HandleOps made under a raised base fee, that a builder took for one of the
    -- blocks from the next, and that was then waited for.
    abbrev pub Sent : List AiOperation → ℕ → BatchHandlerCtx → ℕ → Type ℓ
    Sent batch gas_limit ctx txn =
        (bn : ℕ) × (b.block_number ≡ ok bn)
        × ((mbf : Option ℕ) × (max_base_fee b.blocks_in_the_future ctx.base_fee ≡ some mbf)
            × (b.handle_ops batch gas_limit mbf ≡ ok txn)
            × (none_took (b.broadcast_bundle txn) b.blocks_in_the_future (bn + 1) ≡ false)
            × (b.wait txn ≡ ok tt))

    broadcast-failed :
        (txn bn : ℕ)
        → (broadcast b txn bn).0
          ≡ none_took (b.broadcast_bundle txn) b.blocks_in_the_future (bn + 1)
    unfolding broadcast
    broadcast-failed txn bn =
        broadcast_loop-failed (b.broadcast_bundle txn) b.blocks_in_the_future (bn + 1) true []

    -- After the estimates the builder client succeeds only for a transaction that a builder took for a
    -- block and that was waited for, and records its hash; the batch and the removals stay.
    pub send_bundle-Sent :
        (batch : List AiOperation) (gas_limit : ℕ) (c d : BatchHandlerCtx)
        → send_bundle b batch gas_limit c ≡ ok d
        → (txn : ℕ) × Sent batch gas_limit c txn
          × (d ≡ record c { entries = c.entries ++ ("txn_hash", txn) ∷ [] })
    unfolding send_bundle
    send_bundle-Sent batch gas_limit c d h = >>=-elim b.block_number _ d h λ bn e1 r1.
        elim (Option-cases (max_base_fee b.blocks_in_the_future c.base_fee)) [
          | inl n ↦ let bad = rw n at r1 in cc
          | inr (mbf, m) ↦ >>=-elim (b.handle_ops batch gas_limit mbf) _ d (rw m at r1) λ txn e2 r2.
              elim (Bool-cases (broadcast b txn bn).0) [
                | inl f ↦ let bad = rw f at r2 in cc
                | inr f ↦ >>=-elim (b.wait txn) _ d (rw f at r2) λ u e3 r3.
                    let took = sym (broadcast-failed txn bn) ∙ f in
                    (txn, (bn, e1, (mbf, m, e2, took, e3)), cc)
              ]
        ]

    pub build_and_send-conserves :
        (fuel : ℕ) (c d : BatchHandlerCtx)
        → build_and_send b fuel c ≡ some (ok d)
        → Perm (held d) (held c)
    unfolding build_and_send
    build_and_send-conserves fuel c d h =
        elim (Option-cases (estimate_loop b.estimate fuel c.batch c)) [
          | inl e ↦ let bad = rw (e, build_and_send) at h in cc
          | inr (err x, e) ↦ let bad = rw (e, build_and_send) at h in cc
          | inr (ok (g, c'), e) ↦
              let whole = estimate_loop-conserves b.estimate fuel c.batch c c' g e in
              elim (Bool-cases (length c'.batch == 0)) [
                | inl z ↦
                    let ended = rw (e, z, build_and_send) at h in
                    let same : c' ≡ d = cc in subst (λ x. Perm (held x) (held c)) same whole
                | inr z ↦
                    let ended = rw (e, z, build_and_send) at h in
                    let run : send_bundle b c.batch g c' ≡ ok d = cc in
                    let (txn, sent, same) = send_bundle-Sent c.batch g c' d run in
                    subst (λ x. Perm (held x) (held c)) (sym same) whole
              ]
        ]
