-- ===== src/Modules/Shrinks.antt =====
-- Handlers that may drop operations from the batch without marking them for removal, as
-- FilterUnderpriced and MaintainGasLimit do; such operations stay in the mempool.
use mathlib.Core.List.{append_assoc, append-nil, perm_append_comm, perm_middle}
use mathlib.Core.List.Perm
use aiops_bundler.Base.{sym, subst, inl, inr, Bool, not, List, [], ◌∷◌, ◌++◌, map, Perm}
use aiops_bundler.Base.Tests.{Bool-cases}
use aiops_bundler.Base.Lists.{keep}
use aiops_bundler.Aiop.{AiOperation}
use aiops_bundler.Modules.{BatchHandlerCtx}
use aiops_bundler.Modules.Removal.{held}

-- What the second context holds is, with the operations that were dropped, what the first holds.
abbrev pub Shrinks : BatchHandlerCtx → BatchHandlerCtx → Type 0
Shrinks c d = (left : List AiOperation) × Perm (held d ++ left) (held c)

pub Shrinks-refl : (c : BatchHandlerCtx) → Shrinks c c
Shrinks-refl c = ([], rw (append-nil (held c)) (Perm.refl _))

pub Shrinks-trans : (c d e : BatchHandlerCtx) → Shrinks c d → Shrinks d e → Shrinks c e
Shrinks-trans c d e (l, p) (m, q) = (
  m ++ l,
  subst (λ ops. Perm ops (held c)) (append_assoc (held e) m l)
      (Perm.trans (Perm.append_right l q) p),
)

pub held-Shrinks : (c d : BatchHandlerCtx) → Perm (held d) (held c) → Shrinks c d
held-Shrinks c d p = ([], rw (append-nil (held d)) p)

-- A new batch that is the old one less some operations.
pub batch-Shrinks :
    (c : BatchHandlerCtx) (batch left : List AiOperation)
    → Perm (batch ++ left) c.batch
    → Shrinks c (record c { batch = batch })
batch-Shrinks c batch left p =
    let marked = map (λ item. item.op) c.pending_removal in
    (
      left,
      subst (λ ops. Perm ops (c.batch ++ marked)) (sym (append_assoc batch marked left))
          (Perm.trans (Perm.append_left batch (perm_append_comm marked left)) (
            subst (λ ops. Perm ops (c.batch ++ marked)) (append_assoc batch left marked)
              (Perm.append_right marked p))),
    )

-- A list is what is kept of it and what is not.
pub keep-perm {ℓ} :
    {A : Type ℓ} (p : A → Bool) (xs : List A) → Perm (keep p xs ++ keep (λ x. not (p x)) xs) xs
keep-perm p [] = Perm.refl _
keep-perm p (x ∷ xs) = elim (Bool-cases (p x)) [
  | inl e ↦ rw e (Perm.cons x (keep-perm p xs))
  | inr e ↦ rw e (Perm.trans (perm_middle _ _) (Perm.cons x (keep-perm p xs)))
]
