-- ===== src/Bundler/Handled.antt =====
-- What a run of the bundler (Process of pkg/bundler/bundler.go) does, for any batch handler.
use aiops_bundler.Base.{◌≡◌, refl, sym, ◌∙◌, inl, inr, List, [], some, arith}
use aiops_bundler.Base.Tests.{◌==◌, if-true, if-false, Bool-cases}
use aiops_bundler.Base.Lists.{length}
use aiops_bundler.Base.Result.{ok, >>=-eq-ok}
use aiops_bundler.Aiop.{Address, AiOperation}
use aiops_bundler.Modules.{BatchHandlerCtx, new_batch_handler_context}
use aiops_bundler.Bundler.{
  Bundler, adjust_batch_size, rm_ops, tip_for, handle_batch, run_batch, process,
}

module _ {ℓ} {E : Type ℓ} (i : Bundler E) (ep : Address) where
  -- A batch went through the handler, and what its context held then was removed.
  abbrev pub Handled : List AiOperation → BatchHandlerCtx → List AiOperation → Type ℓ
  Handled batch ctx removed =
      (start : BatchHandlerCtx) × (start.batch ≡ batch)
      × (start.pending_removal ≡ [])
      × (i.batch_handler start ≡ ok ctx)
      × (i.remove_ops ep removed ≡ ok tt)
      × (removed ≡ rm_ops ctx)

  run_batch-Handled :
      (batch : List AiOperation) (ctx : BatchHandlerCtx) (removed : List AiOperation)
      → run_batch i ep batch ≡ ok (ctx, removed)
      → Handled batch ctx removed
  unfolding run_batch new_batch_handler_context handle_batch
  run_batch-Handled batch ctx removed e =
      let (bf, e1, r1) = >>=-eq-ok i.gbf _ e in
      let (gt, e2, r2) = >>=-eq-ok (tip_for i bf) _ r1 in
      let (gp, e3, r3) = >>=-eq-ok i.ggp _ r2 in
      let start = new_batch_handler_context batch ep i.chain_id bf gt gp in
      let (c, handled, r4) = >>=-eq-ok (i.batch_handler start) _ r3 in
      let (u, gone, last) = >>=-eq-ok (i.remove_ops ep (rm_ops c)) _ r4 in
      let c_same : c ≡ ctx = cc in
      let ops_same : rm_ops c ≡ removed = cc in (start, refl, refl, cc, cc, cc)

  pub process-Handled :
      (all : List AiOperation) (ctx : BatchHandlerCtx) (removed : List AiOperation)
      → i.dump ep ≡ ok all
      → process i ep ≡ ok (some (ctx, removed))
      → Handled (adjust_batch_size i.max_batch all) ctx removed
  unfolding process
  process-Handled all ctx removed dumped e =
      let (batch, d, r) = >>=-eq-ok (i.dump ep) _ e in
      let same : batch ≡ all = cc in
      elim (Bool-cases (length batch == 0)) [
        | inl z ↦ absurd (let bad = sym (if-true (length batch == 0) _ _ z) ∙ r in ground arith)
        | inr z ↦
            let took = sym (if-false (length batch == 0) _ _ z) ∙ r in
            let (out, ran, last) =
              >>=-eq-ok (run_batch i ep (adjust_batch_size i.max_batch batch)) _ took in
            let done : out ≡ (ctx, removed) = cc in
            rw (← same) (run_batch-Handled (adjust_batch_size i.max_batch batch) ctx removed cc)
      ]
