-- ===== src/Bundler.antt =====
-- Process of the bundler (pkg/bundler/bundler.go). The fee functions, the mempool and the batch
-- handler are parameters; logging is left out.
pub mod Examples
pub mod Lifecycle
pub mod Handled
use mathlib.Core.List.Perm
use aiops_bundler.Base.{
  ℕ, zero, suc, ◌+◌, ◌≤◌, ◌<◌, Bool, true, false, ◌&&◌, List, [], ◌∷◌, ◌++◌, Option, none, some,
  map, ◌≡◌, refl, ◌∙◌, sym, ap, subst, Perm, inl, inr, arith,
}
use mathlib.Core.List.{append-nil}
use aiops_bundler.Base.Tests.{if-true, if-false, ltb, ◌==◌, if◌then◌else◌, Bool-cases}
use aiops_bundler.Base.Lists.{length, take, drop, take-append-drop}
use aiops_bundler.Base.Result.{Result, ok, err, ◌>>=◌, >>=-eq-ok}
use aiops_bundler.Aiop.{Address, AiOperation}
use aiops_bundler.Modules.{BatchHandlerCtx, Handler, new_batch_handler_context}
use aiops_bundler.Modules.Removal.{held}

-- The maximum is an int; 0 is no maximum.
unfoldable pub adjust_batch_size : ℕ → List AiOperation → List AiOperation
adjust_batch_size max batch = if ltb max (length batch) && ltb 0 max then take max batch else batch

-- The bundler's fields that a run calls. `remove_ops` returns nothing but its error.
pub record Bundler {ℓ} (E : Type ℓ) : Type ℓ where
  pub dump : Address → Result E (List AiOperation)
  pub remove_ops : Address → List AiOperation → Result E (Unit {0})
  pub batch_handler : Handler E BatchHandlerCtx
  pub chain_id : ℕ
  pub max_batch : ℕ
  pub gbf : Result E (Option ℕ)
  pub ggt : Result E (Option ℕ)
  pub ggp : Result E (Option ℕ)

-- What a run gives the mempool to remove.
abbrev pub rm_ops : BatchHandlerCtx → List AiOperation
rm_ops ctx = ctx.batch ++ map (λ item. item.op) ctx.pending_removal

module _ {ℓ} {E : Type ℓ} where
  -- The tip is asked for only where there is a base fee.
  abbrev pub tip_for : Bundler E → Option ℕ → Result E (Option ℕ)
  tip_for i none = ok none
  tip_for i (some bf) = i.ggt

  -- The handlers on a batch, and the removal of what is in their context after.
  unfoldable pub handle_batch :
      Bundler E → Address → BatchHandlerCtx → Result E (BatchHandlerCtx × List AiOperation)
  handle_batch i ep start =
      i.batch_handler start >>= λ ctx. i.remove_ops ep (rm_ops ctx) >>= λ u. ok (ctx, rm_ops ctx)

  -- The part of a run after the batch has been taken, with the operations it removes.
  unfoldable pub run_batch :
      Bundler E → Address → List AiOperation → Result E (BatchHandlerCtx × List AiOperation)
  unfolding new_batch_handler_context handle_batch
  run_batch i ep batch = i.gbf >>= λ bf. tip_for i bf >>= λ gt.
      i.ggp >>= λ gp. handle_batch i ep (new_batch_handler_context batch ep i.chain_id bf gt gp)

  -- `none` is the nil context of an empty mempool.
  unfoldable pub process :
      Bundler E → Address → Result E (Option (BatchHandlerCtx × List AiOperation))
  unfolding run_batch adjust_batch_size
  process i ep = i.dump ep >>= λ batch.
      if length batch == 0
      then ok none
      else (run_batch i ep (adjust_batch_size i.max_batch batch) >>= λ r. ok (some r))

  handle_batch-conserves :
      (i : Bundler E) (ep : Address) (start ctx : BatchHandlerCtx) (removed : List AiOperation)
      → ((c d : BatchHandlerCtx) → i.batch_handler c ≡ ok d → Perm (held d) (held c))
      → handle_batch i ep start ≡ ok (ctx, removed)
      → Perm removed (held start)
  unfolding handle_batch
  handle_batch-conserves i ep start ctx removed keeps e =
      let (c, handled, rest) = >>=-eq-ok (i.batch_handler start) _ e in
      let (u, gone, last) = >>=-eq-ok (i.remove_ops ep (rm_ops c)) _ rest in
      let same : rm_ops c ≡ removed = cc in
      subst (λ ops. Perm ops (held start)) same (keeps start c handled)

  run_batch-conserves :
      (i : Bundler E) (ep : Address) (batch : List AiOperation) (ctx : BatchHandlerCtx)
      (removed : List AiOperation)
      → ((c d : BatchHandlerCtx) → i.batch_handler c ≡ ok d → Perm (held d) (held c))
      → run_batch i ep batch ≡ ok (ctx, removed)
      → Perm removed batch
  unfolding run_batch new_batch_handler_context
  run_batch-conserves i ep batch ctx removed keeps e =
      let (bf, e1, r1) = >>=-eq-ok i.gbf _ e in
      let (gt, e2, r2) = >>=-eq-ok (tip_for i bf) _ r1 in
      let (gp, e3, r3) = >>=-eq-ok i.ggp _ r2 in
      let start = new_batch_handler_context batch ep i.chain_id bf gt gp in
      subst (λ ops. Perm removed ops) (append-nil batch)
        (handle_batch-conserves i ep start ctx removed keeps r3)

  -- If the handlers keep the operations that a context holds, in the batch or marked for removal, a
  -- run that returns a context removes from the mempool exactly the operations that it took: all
  -- those of the AiMiddleware, or the first of them up to the maximum.
  process-conserves :
      (i : Bundler E) (ep : Address) (all : List AiOperation) (ctx : BatchHandlerCtx)
      (removed : List AiOperation)
      → ((c d : BatchHandlerCtx) → i.batch_handler c ≡ ok d → Perm (held d) (held c))
      → i.dump ep ≡ ok all
      → process i ep ≡ ok (some (ctx, removed))
      → Perm removed (adjust_batch_size i.max_batch all)
  unfolding process
  process-conserves i ep all ctx removed keeps dumped e =
      let (batch, d, r) = >>=-eq-ok (i.dump ep) _ e in
      let same : batch ≡ all = cc in
      elim (Bool-cases (length batch == 0)) [
        | inl z ↦ absurd (let bad = sym (if-true (length batch == 0) _ _ z) ∙ r in ground arith)
        | inr z ↦
            let took = sym (if-false (length batch == 0) _ _ z) ∙ r in
            let (out, ran, last) =
              >>=-eq-ok (run_batch i ep (adjust_batch_size i.max_batch batch)) _ took in
            let done : out ≡ (ctx, removed) = cc in
            subst (λ ops. Perm removed (adjust_batch_size i.max_batch ops)) same
              (run_batch-conserves i ep (adjust_batch_size i.max_batch batch) ctx removed keeps
                (ran ∙ ap ok done))
      ]
