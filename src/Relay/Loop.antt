-- ===== src/Relay/Loop.antt =====
-- The relayer's loop over estimates. It estimates the batch that it was given, not the one that is left.
use aiops_bundler.Base.{
  ℕ, zero, suc, ◌<◌, String, false, List, [], ◌∷◌, ◌++◌, none, some, ◌≡◌, refl, ◌∙◌, ap, inl, inr,
  arith,
}
use mathlib.Core.List.{append-nil, append_assoc}
use aiops_bundler.Base.Tests.{◌==◌, Option-cases}
use aiops_bundler.Base.Lists.{length, get_elem?}
use aiops_bundler.Base.Result.{Result, ok}
use aiops_bundler.Aiop.{AiOperation}
use aiops_bundler.Modules.{BatchHandlerCtx, mark_op_index_for_removal}
use aiops_bundler.Modules.Removal.{erase_idx, mark_op_index_for_removal_lem}
use aiops_bundler.Batch.Sweep.{items}
use aiops_bundler.Relay.{Estimate, revert, estimate_loop}

-- Removing a position behind the first leaves a batch that is not empty.
mark-nonempty :
    (c : BatchHandlerCtx) (k : ℕ) (reason : String)
    → 0 < length c.batch
    → 0 < length (mark_op_index_for_removal c (suc k) reason).batch
mark-nonempty c k reason h =
    rw (mark_op_index_for_removal_lem c (suc k) reason)
      (elim (Option-cases (get_elem? c.batch (suc k))) [
        | inl e ↦ rw e h
        | inr (o, e) ↦ rw e (kept c.batch h)
      ])
  where
    kept : (ops : List AiOperation) → 0 < length ops → 0 < length (erase_idx (suc k) ops)
    kept [] h = absurd (omega arith)
    kept (op ∷ ops) h = omega arith

abbrev without_first : BatchHandlerCtx → AiOperation → List AiOperation → String → BatchHandlerCtx
without_first c op ops reason = record c {
  batch = ops;
  pending_removal = c.pending_removal ++ record { op = op; reason = reason } ∷ [];
}

mark-first :
    (c : BatchHandlerCtx) (op : AiOperation) (ops : List AiOperation) (reason : String)
    → c.batch ≡ op ∷ ops
    → mark_op_index_for_removal c 0 reason ≡ without_first c op ops reason
mark-first c op ops reason h =
    rw (mark_op_index_for_removal_lem c 0 reason, h, erase_idx) (ground (arith, h))

module _ {ℓ} {E : Type ℓ} (estimate : List AiOperation → Result E Estimate) where
  estimate_loop-revert :
      (n : ℕ) (batch : List AiOperation) (c : BatchHandlerCtx) (i : ℕ) (reason : String)
      → estimate batch ≡ ok (revert i reason)
      → 0 < length c.batch
      → estimate_loop estimate (suc n) batch c
        ≡ estimate_loop estimate n batch (mark_op_index_for_removal c i reason)
  unfolding estimate_loop
  estimate_loop-revert n batch c i reason e h =
      let filled : (length c.batch == 0) ≡ false = ground arith in
      rw (estimate_loop, filled, e) refl

  -- While the estimate of the batch is a revert of an operation behind the first, the loop does not
  -- end.
  estimate_loop-stuck :
      (n : ℕ) (batch : List AiOperation) (c : BatchHandlerCtx) (k : ℕ) (reason : String)
      → estimate batch ≡ ok (revert (suc k) reason)
      → 0 < length c.batch
      → estimate_loop estimate n batch c ≡ none
  unfolding estimate_loop
  estimate_loop-stuck zero batch c k reason e h = refl
  estimate_loop-stuck (suc n) batch c k reason e h =
      estimate_loop-revert n batch c (suc k) reason e h
      ∙ estimate_loop-stuck n batch (mark_op_index_for_removal c (suc k) reason) k reason e
          (mark-nonempty c k reason h)

  -- While the estimate is a revert of the first operation, the loop removes every operation of the
  -- batch with the reason of the first.
  estimate_loop-drains :
      (ops batch : List AiOperation) (c : BatchHandlerCtx) (reason : String)
      → estimate batch ≡ ok (revert 0 reason)
      → c.batch ≡ ops
      → estimate_loop estimate (suc (length ops)) batch c
        ≡ some (
            ok
              (0, record c { batch = []; pending_removal = c.pending_removal ++ items reason ops }))
  unfolding estimate_loop
  estimate_loop-drains [] batch c reason e h =
      rw (estimate_loop, h) (ground (arith, append-nil c.pending_removal))
  estimate_loop-drains (op ∷ ops) batch c reason e h =
      let filled : 0 < length c.batch = rw h (omega arith) in
      estimate_loop-revert (suc (length ops)) batch c 0 reason e filled
      ∙ (ap (λ d. estimate_loop estimate (suc (length ops)) batch d) (mark-first c op ops reason h)
          ∙ (estimate_loop-drains ops batch (without_first c op ops reason) reason e refl
              ∙ ap (λ l. some (ok (0, record c { batch = []; pending_removal = l })))
                  (append_assoc c.pending_removal (record { op = op; reason = reason } ∷ [])
                    (items reason ops))))

-- Of two estimators that find a revert in the batch that the loop was given, with operations left in
-- the context: with the one that names an operation behind the first, the loop does not end at any
-- fuel; with the one that names the first, it ends with the limit 0 and an empty batch, in which every
-- operation has been marked for removal with the reason of the first.
pub estimate_loop-repeats {ℓ} :
    {E : Type ℓ} (behind first : List AiOperation → Result E Estimate) (batch : List AiOperation)
    (c : BatchHandlerCtx) (k n : ℕ) (reason : String)
    → behind batch ≡ ok (revert (suc k) reason)
    → first batch ≡ ok (revert 0 reason)
    → 0 < length c.batch
    → (estimate_loop behind n batch c ≡ none)
      × (estimate_loop first (suc (length c.batch)) batch c
          ≡ some (
              ok (
                0,
                record c {
                  batch = [];
                  pending_removal = c.pending_removal ++ items reason c.batch;
                },
              )))
estimate_loop-repeats behind first batch c k n reason b f h = (
  estimate_loop-stuck behind n batch c k reason b h,
  estimate_loop-drains first c.batch batch c reason f refl,
)
