-- ===== src/Batch/GasLimit.antt =====
-- MaintainGasLimit of pkg/modules/batch/gaslimit.go.
use aiops_bundler.Base.{
  ℕ, suc, ◌+◌, ◌-◌, ◌≤◌, ◌<◌, ◌≡◌, refl, ◌⊎◌, inl, inr, List, [], ◌∷◌, ◌++◌, arith, ap, sym, ◌∙◌,
}
use mathlib.Core.List.{append_assoc, append-nil}
use aiops_bundler.Base.Tests.{leb, if◌then◌else◌, Bool-cases}
use aiops_bundler.Base.Lists.{length, take, All}
use aiops_bundler.Base.Result.{Result, ok, err, ◌>>=◌}
use aiops_bundler.Aiop.{AiOperation, get_max_gas_available}
use aiops_bundler.Modules.{BatchHandlerCtx}

-- `static` is CalcPreVerificationGas of the default overhead.
module _ {ℓ} {E : Type ℓ} (static : AiOperation → Result E ℕ) (max_batch_gas_limit : ℕ) where
  -- The gas that an operation can use for execution: `Sub` never goes below 0 here, since the
  -- available gas includes the preVerificationGas.
  unfoldable pub execution_gas : AiOperation → ℕ → ℕ
  execution_gas op s = get_max_gas_available op - op.pre_verification_gas + s

  unfoldable pub gas_limit_loop :
      ℕ → List AiOperation → List AiOperation → Result E (List AiOperation)
  unfolding execution_gas
  gas_limit_loop sum [] bat = ok bat
  gas_limit_loop sum (op ∷ rest) bat = static op >>= λ s.
      let sum' = sum + execution_gas op s in
      let more = gas_limit_loop sum' rest (bat ++ op ∷ []) in
      if leb max_batch_gas_limit sum' then ok bat else more

  unfoldable pub maintain_gas_limit : BatchHandlerCtx → Result E BatchHandlerCtx
  maintain_gas_limit ctx = gas_limit_loop 0 ctx.batch [] >>= λ bat. ok (record ctx { batch = bat })

  module _ (weight : AiOperation → ℕ) where
    -- The gas of a list of operations whose static gas is `weight`.
    abbrev pub total_gas : List AiOperation → ℕ
    total_gas [] = 0
    total_gas (op ∷ ops) = execution_gas op (weight op) + total_gas ops

    -- What the loop does from a running sum: it keeps a prefix, stays below the limit and stops only
    -- at an operation that would reach it.
    abbrev pub IsLongestFit : ℕ → List AiOperation → ℕ → Type 0
    IsLongestFit sum ops n =
        (n ≤ length ops)
        × ((n ≡ 0) ⊎ (sum + total_gas (take n ops) < max_batch_gas_limit))
        × ((n ≡ length ops) ⊎ (max_batch_gas_limit ≤ sum + total_gas (take (suc n) ops)))

    gas_limit_loop_lem :
        (sum : ℕ) (ops bat : List AiOperation)
        → All (λ op. static op ≡ ok (weight op)) ops
        → (n : ℕ) × (gas_limit_loop sum ops bat ≡ ok (bat ++ take n ops)) × IsLongestFit sum ops n
    unfolding gas_limit_loop
    gas_limit_loop_lem sum [] bat h =
        (0, ap ok (sym (append-nil bat)), (omega arith, inl refl, inl refl))
    gas_limit_loop_lem sum (op ∷ ops) bat h =
        let sum' = sum + execution_gas op (weight op) in
        elim (Bool-cases (leb max_batch_gas_limit sum')) [
          | inl full ↦ (
            0,
            rw (h.0, full) (ap ok (sym (append-nil bat))),
            (omega arith, inl refl, inr (ground arith)),
          )
          | inr room ↦
              let (n, e, fit) = gas_limit_loop_lem sum' ops (bat ++ op ∷ []) h.1 in
              (
                suc n,
                rw (h.0, room) (e ∙ ap ok (append_assoc bat (op ∷ []) (take n ops))),
                (ground arith, inr (ground arith), ground arith),
              )
        ]

    -- MaintainGasLimit keeps the longest prefix of the batch whose execution gas is below the limit, if
    -- the static gas of every operation can be computed.
    pub maintain_gas_limit_lem :
        (c : BatchHandlerCtx)
        → All (λ op. static op ≡ ok (weight op)) c.batch
        → (n : ℕ) × (maintain_gas_limit c ≡ ok (record c { batch = take n c.batch }))
          × IsLongestFit 0 c.batch n
    unfolding maintain_gas_limit
    maintain_gas_limit_lem c h =
        let (n, e, fit) = gas_limit_loop_lem 0 c.batch [] h in (n, rw e, fit)

  -- An operation whose static gas cannot be computed is an error if the loop comes to it.
  maintain_gas_limit-err :
      (c : BatchHandlerCtx) (op : AiOperation) (ops : List AiOperation) (e : E)
      → c.batch ≡ op ∷ ops
      → static op ≡ err e
      → maintain_gas_limit c ≡ err e
  unfolding maintain_gas_limit gas_limit_loop
  maintain_gas_limit-err c op ops e p h = ground arith
