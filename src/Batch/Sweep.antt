-- ===== src/Batch/Sweep.antt =====
-- The loop that DropExpired (pkg/modules/expire/expire.go) and CodeHashes
-- (pkg/modules/checks/standalone.go) share: from the last operation of the batch to the first, decide,
-- and mark the operation at the index for removal.
use mathlib.Core.List.{reverse, reverse-cons, reverse-reverse, append_assoc, append-nil}
use aiops_bundler.Base.{
  ℕ, zero, suc, String, ◌≡◌, refl, sym, ap, ◌∙◌, inl, inr, Bool, true, false, not, List, [], ◌∷◌,
  ◌++◌, Option, none, some, map, arith,
}
use aiops_bundler.Base.Tests.{if◌then◌else◌, Bool-cases}
use aiops_bundler.Base.Lists.{All, All-reverse, keep, keep-append, length, get_elem?, length-append}
use aiops_bundler.Base.Result.{Result, ok, err}
use aiops_bundler.Aiop.{AiOperation}
use aiops_bundler.Modules.{PendingRemovalItem, BatchHandlerCtx, mark_op_index_for_removal}
use aiops_bundler.Modules.Removal.{erase_idx, mark_op_index_for_removal_lem}

-- Removals of operations for one reason.
abbrev pub items : String → List AiOperation → List PendingRemovalItem
items reason = map λ op. record { op = op; reason = reason }

reverse-cons-append {ℓ} :
    {A : Type ℓ} (x : A) (xs ys : List A) → reverse (x ∷ xs) ++ ys ≡ reverse xs ++ x ∷ ys
reverse-cons-append x xs ys = rw (reverse-cons x xs) (append_assoc (reverse xs) (x ∷ []) ys)

keep-reverse {ℓ} :
    {A : Type ℓ} (p : A → Bool) (xs : List A) → keep p (reverse xs) ≡ reverse (keep p xs)
keep-reverse p [] = refl
keep-reverse p (x ∷ xs) =
    ap (keep p) (reverse-cons x xs)
    ∙ keep-append p (reverse xs) (x ∷ [])
    ∙ elim (Bool-cases (p x)) [
      | inl e ↦ rw (e, keep-reverse p xs, reverse-cons x (keep p xs)) refl
      | inr e ↦ rw (e, keep-reverse p xs) (append-nil (reverse (keep p xs)))
    ]

-- `decide` gets the index, the state `S` of the handler and the operation.
module _ {ℓ κ} {E : Type ℓ} {S : Type κ} (decide : ℕ → S → AiOperation → Result E (S × Bool))
    (reason : String) where
  -- `none` is the run-time panic of an index out of range. The first argument is one more than `i`.
  unfoldable pub sweep_loop : ℕ → S → BatchHandlerCtx → Option (Result E (S × BatchHandlerCtx))
  sweep_loop zero s ctx = some (ok (s, ctx))
  sweep_loop (suc i) s ctx = elim (get_elem? ctx.batch i) [
    | none ↦ none
    | some op ↦ elim (decide i s op) [
      | err e ↦ some (err e)
      | ok (s', drop) ↦
          sweep_loop i s' (if drop then mark_op_index_for_removal ctx i reason else ctx)
    ]
  ]

  unfoldable pub sweep : S → BatchHandlerCtx → Option (Result E (S × BatchHandlerCtx))
  unfolding sweep_loop
  sweep s ctx = sweep_loop (length ctx.batch) s ctx

  -- The same without indices into a changing batch: over the operations, last first, with those kept
  -- so far and the removals so far.
  pub sweep_ops :
      List AiOperation
      → S
      → List AiOperation
      → List PendingRemovalItem
      → Result E (S × List AiOperation × List PendingRemovalItem)
  sweep_ops [] s kept removed = ok (s, kept, removed)
  sweep_ops (op ∷ ops) s kept removed = elim (decide (length ops) s op) [
    | err e ↦ err e
    | ok (s', drop) ↦
        sweep_ops ops s' (if drop then kept else op ∷ kept)
          (if drop then removed ++ record { op = op; reason = reason } ∷ [] else removed)
  ]

  abbrev pub with_ops :
      BatchHandlerCtx
      → Result E (S × List AiOperation × List PendingRemovalItem)
      → Result E (S × BatchHandlerCtx)
  with_ops c (ok (s, kept, removed)) = ok (s, record c { batch = kept; pending_removal = removed })
  with_ops c (err e) = err e

  length-reverse : (xs : List AiOperation) → length (reverse xs) ≡ length xs
  length-reverse [] = refl
  length-reverse (x ∷ xs) =
      omega (
        arith,
        ap length (reverse-cons x xs),
        length-append (reverse xs) (x ∷ []),
        length-reverse xs,
      )

  get_elem?-middle :
      (xs ys : List AiOperation) (x : AiOperation) → get_elem? (xs ++ x ∷ ys) (length xs) ≡ some x
  get_elem?-middle [] ys x = refl
  get_elem?-middle (z ∷ zs) ys x = get_elem?-middle zs ys x

  erase_idx-middle :
      (xs ys : List AiOperation) (x : AiOperation) → erase_idx (length xs) (xs ++ x ∷ ys) ≡ xs ++ ys
  erase_idx-middle [] ys x = refl
  erase_idx-middle (z ∷ zs) ys x = ap (◌∷◌ z) (erase_idx-middle zs ys x)

  -- The operation at the index of the loop, while the operations behind it are `kept`.
  get_elem?-last :
      (op : AiOperation) (ops kept : List AiOperation)
      → get_elem? (reverse (op ∷ ops) ++ kept) (length ops) ≡ some op
  get_elem?-last op ops kept =
      rw (reverse-cons op ops, append_assoc (reverse ops) (op ∷ []) kept, ← length-reverse ops)
        (get_elem?-middle (reverse ops) kept op)

  abbrev at_last :
      BatchHandlerCtx
      → List AiOperation
      → List AiOperation
      → List PendingRemovalItem
      → BatchHandlerCtx
  at_last c ops kept removed = record c { batch = reverse ops ++ kept; pending_removal = removed }

  mark_last :
      (c : BatchHandlerCtx) (op : AiOperation) (ops kept : List AiOperation)
      (removed : List PendingRemovalItem)
      → mark_op_index_for_removal (at_last c (op ∷ ops) kept removed) (length ops) reason
        ≡ at_last c ops kept (removed ++ record { op = op; reason = reason } ∷ [])
  mark_last c op ops kept removed =
      mark_op_index_for_removal_lem (at_last c (op ∷ ops) kept removed) (length ops) reason
      ∙ ground (
        arith,
        get_elem?-last op ops kept,
        reverse-cons op ops,
        append_assoc (reverse ops) (op ∷ []) kept,
        length-reverse ops,
        erase_idx-middle (reverse ops) kept op,
      )

  sweep_loop_lem :
      (c : BatchHandlerCtx) (ops : List AiOperation) (s : S) (kept : List AiOperation)
      (removed : List PendingRemovalItem)
      → sweep_loop (length ops) s (at_last c ops kept removed)
        ≡ some (with_ops c (sweep_ops ops s kept removed))
  unfolding sweep_loop sweep_ops
  sweep_loop_lem c [] s kept removed = refl
  sweep_loop_lem c (op ∷ ops) s kept removed =
      decided (decide (length ops) s op) refl (sweep_loop_lem c ops)
    where
      decided :
          (r : Result E (S × Bool))
          → decide (length ops) s op ≡ r
          → ((s' : S) (kept' : List AiOperation) (removed' : List PendingRemovalItem)
              → sweep_loop (length ops) s' (at_last c ops kept' removed')
                ≡ some (with_ops c (sweep_ops ops s' kept' removed')))
          → sweep_loop (suc (length ops)) s (at_last c (op ∷ ops) kept removed)
            ≡ some (with_ops c (sweep_ops (op ∷ ops) s kept removed))
      decided (err e) h ih = rw (get_elem?-last op ops kept, h, sweep_loop, sweep_ops) refl
      decided (ok (s', true)) h ih =
          rw (get_elem?-last op ops kept, h, sweep_loop, sweep_ops)
            (rw (mark_last c op ops kept removed) (ih s' kept _))
      decided (ok (s', false)) h ih =
          rw (get_elem?-last op ops kept, h, sweep_loop, sweep_ops)
            (rw (reverse-cons op ops, append_assoc (reverse ops) (op ∷ []) kept)
              (ih s' (op ∷ kept) removed))

  -- The sweep never panics, and removes by position what the decisions say, so the index of a
  -- decision is that of the operation in the batch at the start.
  sweep_lem :
      (s : S) (c : BatchHandlerCtx)
      → sweep s c ≡ some (with_ops c (sweep_ops (reverse c.batch) s [] c.pending_removal))
  unfolding sweep
  sweep_lem s c =
      cc (length-reverse c.batch, rev, sweep_loop_lem c (reverse c.batch) s [] c.pending_removal)
    where
      rev : at_last c (reverse c.batch) [] c.pending_removal ≡ c
      rev = ground (arith, reverse-reverse c.batch, append-nil c.batch)

  module _ {μ ν} (Inv : S → Type μ) (Q : AiOperation → Type ν) (test : AiOperation → Bool)
      (judge : (i : ℕ) (s : S) (op : AiOperation)
        → Q op
        → Inv s
        → (s' : S) × Inv s' × (decide i s op ≡ ok (s', test op))) where
    sweep_ops-by :
        (ops : List AiOperation) (s : S) (kept : List AiOperation)
        (removed : List PendingRemovalItem)
        → All Q ops
        → Inv s
        → (s' : S) × Inv s'
          × (sweep_ops ops s kept removed
              ≡ ok (
                s',
                reverse (keep (λ op. not (test op)) ops) ++ kept,
                removed ++ items reason (keep test ops),
              ))
    unfolding sweep_ops
    sweep_ops-by [] s kept removed all inv = (s, inv, ground (arith, append-nil removed))
    sweep_ops-by (op ∷ ops) s kept removed all inv =
        let (s', inv', e) = judge (length ops) s op all.0 inv in
        elim (Bool-cases (test op)) [
          | inl dropped ↦
              let (t, inv'', f) =
                sweep_ops-by ops s' kept (removed ++ record { op = op; reason = reason } ∷ []) all.1
                  inv' in
              (
                t,
                inv'',
                rw (e, dropped, sweep_ops)
                    (f
                      ∙ ap (λ r. ok (t, reverse (keep (λ op. not (test op)) ops) ++ kept, r))
                          (append_assoc removed (record { op = op; reason = reason } ∷ []) _)),
              )
          | inr stays ↦
              let (t, inv'', f) = sweep_ops-by ops s' (op ∷ kept) removed all.1 inv' in
              (
                t,
                inv'',
                rw (e, stays, sweep_ops)
                    (f
                      ∙ ap (λ r. ok (t, r, removed ++ items reason (keep test ops)))
                          (sym (reverse-cons-append op (keep (λ x. not (test x)) ops) kept))),
              )
        ]

    -- If every decision is that of a test, the sweep keeps the operations that fail the test, in their
    -- order, and marks those that pass it, last first.
    pub sweep-by :
        (s : S) (c : BatchHandlerCtx)
        → All Q c.batch
        → Inv s
        → (s' : S) × Inv s'
          × (sweep s c
              ≡ some (
                  ok (
                    s',
                    record c {
                      batch = keep (λ op. not (test op)) c.batch;
                      pending_removal =
                          c.pending_removal ++ items reason (reverse (keep test c.batch));
                    },
                  )))
    sweep-by s c all inv =
        let (s', inv', e) =
          sweep_ops-by (reverse c.batch) s [] c.pending_removal (All-reverse Q c.batch all) inv in
        let kept : reverse (keep (λ op. not (test op)) (reverse c.batch)) ++ []
            ≡ keep (λ op. not (test op)) c.batch =
          append-nil _
          ∙ ap reverse (keep-reverse (λ op. not (test op)) c.batch)
          ∙ reverse-reverse _ in
        (
          s',
          inv',
          sweep_lem s c
              ∙ ap (λ r. some (with_ops c r)) e
              ∙ rw (kept, keep-reverse test c.batch) refl,
        )
