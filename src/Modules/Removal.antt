-- ===== src/Modules/Removal.antt =====
-- What MarkOpIndexForRemoval of pkg/modules/context.go does to the batch.
use mathlib.Core.List.{append_assoc, append-nil, map-append, perm_middle}
use mathlib.Core.List.Perm
use aiops_bundler.Base.{
  ℕ, zero, suc, ◌+◌, ◌<◌, String, ◌≡◌, inl, inr, List, [], ◌∷◌, ◌++◌, Option, none, some, map, Perm,
  arith,
}
use aiops_bundler.Base.Tests.{Option-cases}
use aiops_bundler.Base.Lists.{get_elem?}
use aiops_bundler.Aiop.{AiOperation}
use aiops_bundler.Modules.{
  PendingRemovalItem, BatchHandlerCtx, mark_loop, mark_op_index_for_removal,
}

-- The list without the element at a position.
abbrev pub erase_idx {ℓ} : {A : Type ℓ} → ℕ → List A → List A
erase_idx i [] = []
erase_idx zero (x ∷ xs) = xs
erase_idx (suc i) (x ∷ xs) = x ∷ erase_idx i xs

-- Past the index the loop copies what is left.
mark_loop_past :
    (index i : ℕ) (ops batch : List AiOperation) (op : Option AiOperation)
    → index < i
    → mark_loop index i ops batch op ≡ (batch ++ ops, op)
unfolding mark_loop
mark_loop_past index i [] batch op h = ground (arith, append-nil batch)
mark_loop_past index i (curr ∷ rest) batch op h = ground (
  arith,
  mark_loop_past index (suc i) rest (batch ++ curr ∷ []) op,
  append_assoc batch (curr ∷ []) rest,
)

mark_loop_lem :
    (k i index : ℕ) (ops batch : List AiOperation)
    → index ≡ k + i
    → mark_loop index i ops batch none ≡ (batch ++ erase_idx k ops, get_elem? ops k)
unfolding mark_loop
mark_loop_lem k i index [] batch h = ground (arith, append-nil batch)
mark_loop_lem zero i index (curr ∷ rest) batch h =
    ground (arith, mark_loop_past index (suc i) rest batch (some curr))
mark_loop_lem (suc k) i index (curr ∷ rest) batch h = ground (
  arith,
  mark_loop_lem k (suc i) index rest (batch ++ curr ∷ []),
  append_assoc batch (curr ∷ []) (erase_idx k rest),
)

-- The whole effect by the position: nothing outside the batch; else the operation there moves to the
-- end of the pending removals with the reason, and the others keep their order.
pub mark_op_index_for_removal_lem :
    (c : BatchHandlerCtx) (index : ℕ) (reason : String)
    → mark_op_index_for_removal c index reason ≡ elim (get_elem? c.batch index) [
      | none ↦ c
      | some o ↦ record c {
        batch = erase_idx index c.batch;
        pending_removal = c.pending_removal ++ record { op = o; reason = reason } ∷ [];
      }
    ]
unfolding mark_op_index_for_removal
mark_op_index_for_removal_lem c index reason =
    ground (arith, mark_loop_lem index 0 index c.batch [])

erase_idx-perm {ℓ} :
    {A : Type ℓ} (i : ℕ) (xs : List A) (x : A)
    → get_elem? xs i ≡ some x
    → Perm (x ∷ erase_idx i xs) xs
erase_idx-perm i [] x e = cc
erase_idx-perm zero (y ∷ ys) x e = Perm.cons' (ground arith) Perm.rfl
erase_idx-perm (suc i) (y ∷ ys) x e =
    Perm.trans (Perm.swap y x _) (Perm.cons y (erase_idx-perm i ys x e))

moved {ℓ} : {A : Type ℓ} (xs ys : List A) (x : A) → Perm (xs ++ (ys ++ x ∷ [])) ((x ∷ xs) ++ ys)
moved xs ys x =
    Perm.trans (Perm.append_left xs (rw append-nil at (perm_middle {a = x} ys [])))
      (perm_middle xs ys)

-- The operations that a context accounts for: those in the batch and those to be removed.
abbrev pub held : BatchHandlerCtx → List AiOperation
held c = c.batch ++ map (λ item. item.op) c.pending_removal

-- No operation is lost or duplicated by a removal, whatever the index.
pub mark-conserves :
    (c : BatchHandlerCtx) (index : ℕ) (reason : String)
    → Perm (held (mark_op_index_for_removal c index reason)) (held c)
mark-conserves c index reason = elim (Option-cases (get_elem? c.batch index)) [
  | inl e ↦ rw (mark_op_index_for_removal_lem c index reason, e) (Perm.refl _)
  | inr (o, e) ↦
      rw
        (
          mark_op_index_for_removal_lem c index reason,
          e,
          map-append (λ (item : PendingRemovalItem). item.op) c.pending_removal,
        )
        (Perm.trans (moved (erase_idx index c.batch) (map (λ item. item.op) c.pending_removal) o)
          (Perm.append_right _ (erase_idx-perm index c.batch o e)))
]
