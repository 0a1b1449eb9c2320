-- ===== src/Start/Shrinking.antt =====
-- What each handler of the bundler does to the operations that its context holds.
use mathlib.Core.List.{append_assoc, append-nil}
use mathlib.Core.List.Perm
use aiops_bundler.Base.{
  ℕ, zero, suc, ◌+◌, String, ◌≡◌, refl, sym, ◌∙◌, subst, inl, inr, Bool, true, false, not, List, [],
  ◌∷◌, ◌++◌, some, Perm,
}
use aiops_bundler.Base.Tests.{leb, Bool-cases, Option-cases}
use aiops_bundler.Base.Lists.{length, get_elem?, keep}
use aiops_bundler.Base.Result.{Result, ok, >>=-eq-ok, Result-cases}
use aiops_bundler.Aiop.{AiOperation}
use aiops_bundler.Modules.{BatchHandlerCtx, mark_op_index_for_removal}
use aiops_bundler.Modules.Removal.{held, mark-conserves}
use aiops_bundler.Modules.Shrinks.{Shrinks, batch-Shrinks, keep-perm}
use aiops_bundler.Batch.Sweep.{sweep, sweep_loop}
use aiops_bundler.Batch.StableSort.{slice_stable, slice_stable-perm}
use aiops_bundler.Batch.Sort.{
  sort_by_gas_price, sort_by_nonce, nonce_less, sort_by_gas_price-IsSortedBy,
}
use aiops_bundler.Batch.GasPrice.{is_priced, filter_underpriced, filter_underpriced-keep}
use aiops_bundler.Batch.GasLimit.{execution_gas, gas_limit_loop, maintain_gas_limit}

module _ {ℓ κ} {E : Type ℓ} {S : Type κ} (decide : ℕ → S → AiOperation → Result E (S × Bool))
    (reason : String) where
  sweep_loop-conserves :
      (n : ℕ) (s t : S) (c d : BatchHandlerCtx)
      → sweep_loop decide reason n s c ≡ some (ok (t, d))
      → Perm (held d) (held c)
  unfolding sweep_loop
  sweep_loop-conserves zero s t c d h = let same : c ≡ d = cc in rw same (Perm.refl _)
  sweep_loop-conserves (suc i) s t c d h = elim (Option-cases (get_elem? c.batch i)) [
    | inl e ↦ let bad = rw (e, sweep_loop) at h in cc
    | inr (op, e) ↦ elim (Result-cases (decide i s op)) [
      | inr (x, f) ↦ let bad = rw (e, f, sweep_loop) at h in cc
      | inl ((s', true), f) ↦
          Perm.trans
            (sweep_loop-conserves i s' t (mark_op_index_for_removal c i reason) d
              (rw (e, f, sweep_loop) at h))
            (mark-conserves c i reason)
      | inl ((s', false), f) ↦ sweep_loop-conserves i s' t c d (rw (e, f, sweep_loop) at h)
    ]
  ]

  pub sweep-conserves :
      (s t : S) (c d : BatchHandlerCtx)
      → sweep decide reason s c ≡ some (ok (t, d))
      → Perm (held d) (held c)
  unfolding sweep
  sweep-conserves s t c d h = sweep_loop-conserves (length c.batch) s t c d h

pub filter_underpriced-Shrinks : (c : BatchHandlerCtx) → Shrinks c (filter_underpriced c)
filter_underpriced-Shrinks c = subst (Shrinks c) (sym (filter_underpriced-keep c)) (
    batch-Shrinks c (keep (is_priced c) c.batch) (keep (λ op. not (is_priced c op)) c.batch)
      (keep-perm (is_priced c) c.batch))

pub sort_by_gas_price-Shrinks : (c : BatchHandlerCtx) → Shrinks c (sort_by_gas_price c)
sort_by_gas_price-Shrinks c =
    let (sorted, same) = sort_by_gas_price-IsSortedBy c in
    subst (Shrinks c) (sym same)
      (batch-Shrinks c (sort_by_gas_price c).batch [] (rw append-nil sorted.same))

pub sort_by_nonce-Shrinks : (c : BatchHandlerCtx) → Shrinks c (sort_by_nonce c)
unfolding sort_by_nonce
sort_by_nonce-Shrinks c =
    batch-Shrinks c (slice_stable nonce_less c.batch) []
      (rw append-nil (slice_stable-perm nonce_less c.batch))

module _ {ℓ} {E : Type ℓ} (static : AiOperation → Result E ℕ) (limit : ℕ) where
  -- The loop keeps a prefix of the operations.
  gas_limit_loop-prefix :
      (sum : ℕ) (ops kept out : List AiOperation)
      → gas_limit_loop static limit sum ops kept ≡ ok out
      → (left : List AiOperation) × (out ++ left ≡ kept ++ ops)
  unfolding gas_limit_loop
  gas_limit_loop-prefix sum [] kept out h = ([], let same : kept ≡ out = cc in rw same refl)
  gas_limit_loop-prefix sum (op ∷ ops) kept out h =
      let (s, _, rest) = >>=-eq-ok (static op) _ h in
      let sum' = sum + execution_gas static limit op s in
      elim (Bool-cases (leb limit sum')) [
        | inl full ↦
            (op ∷ ops, let done = rw full at rest in let same : kept ≡ out = cc in rw same refl)
        | inr room ↦
            let (left, e) =
              gas_limit_loop-prefix sum' ops (kept ++ op ∷ []) out (rw room at rest) in
            (left, e ∙ append_assoc kept (op ∷ []) ops)
      ]

  pub maintain_gas_limit-Shrinks :
      (c d : BatchHandlerCtx) → maintain_gas_limit static limit c ≡ ok d → Shrinks c d
  unfolding maintain_gas_limit
  maintain_gas_limit-Shrinks c d h =
      let (bat, e, last) = >>=-eq-ok (gas_limit_loop static limit 0 c.batch []) _ h in
      let (left, whole) = gas_limit_loop-prefix 0 c.batch [] bat e in
      let same : record c { batch = bat } ≡ d = cc in
      subst (Shrinks c) same (batch-Shrinks c bat left (rw whole (Perm.refl _)))
