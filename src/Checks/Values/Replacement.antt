-- ===== src/Checks/Values/Replacement.antt =====
-- The replacement of a pending operation of the same nonce (pendingops.go).
use aiops_bundler.Base.{
  ℕ, ◌+◌, ◌*◌, ◌<◌, ◌≤◌, Bool, List, [], ◌∷◌, Option, none, some, ◌≡◌, refl, sym, ◌↔◌, inl, inr,
  arith,
}
use aiops_bundler.Base.Tests.{Option-cases, ◌==◌}
use aiops_bundler.Base.Lists.{keep}
use aiops_bundler.Base.Result.{ok}
use aiops_bundler.Aiop.{AiOperation}
use aiops_bundler.Checks.Values.{new_threshold, find_old_op, validate_pending_ops}

abbrev pub same_nonce : AiOperation → AiOperation → Bool
same_nonce op pen_op = op.nonce == pen_op.nonce

abbrev pub last_or {ℓ} : {A : Type ℓ} → List A → Option A → Option A
last_or [] old = old
last_or (x ∷ xs) old = last_or xs (some x)

-- Both fees rise by 10 percent, up to the rounding of one unit.
abbrev pub Outbids : AiOperation → Option AiOperation → Type 0
Outbids op none = Unit
Outbids op (some old_op) =
    (110 * old_op.max_fee_per_gas < 100 * op.max_fee_per_gas + 100)
    × (110 * old_op.max_priority_fee_per_gas < 100 * op.max_priority_fee_per_gas + 100)

find_old_op-last :
    (op : AiOperation) (pen_ops : List AiOperation) (old_op : Option AiOperation)
    → find_old_op op pen_ops old_op ≡ last_or (keep (same_nonce op) pen_ops) old_op
unfolding find_old_op
find_old_op-last op [] old_op = refl
find_old_op-last op (p ∷ pen_ops) old_op =
    ground (arith, find_old_op-last op pen_ops (some p), find_old_op-last op pen_ops old_op)

new_threshold_lem : (fee new : ℕ) → (new_threshold fee ≤ new) ↔ (110 * fee < 100 * new + 100)
unfolding new_threshold
new_threshold_lem fee new = omega arith

module _ {ℓ} {E : Type ℓ} where
  -- The operation passes exactly if no pending operation has its nonce, or both its fees are at
  -- least 110 percent, rounded down, of those of the last pending operation that has.
  pub validate_pending_ops_lem :
      (op : AiOperation) (pen_ops : List AiOperation)
      → (validate_pending_ops {E = E} op pen_ops ≡ ok tt)
        ↔ Outbids op (last_or (keep (same_nonce op) pen_ops) none)
  unfolding validate_pending_ops
  validate_pending_ops_lem op pen_ops = elim (Option-cases (find_old_op op pen_ops none)) [
    | inl e ↦ rw (sym (find_old_op-last op pen_ops none), e) (ground arith)
    | inr (old, e) ↦
        rw (sym (find_old_op-last op pen_ops none), e)
          (ground (
            arith,
            new_threshold_lem old.max_fee_per_gas op.max_fee_per_gas,
            new_threshold_lem old.max_priority_fee_per_gas op.max_priority_fee_per_gas,
          ))
  ]
