-- ===== src/Relay.antt =====
-- SendAiOperation of the relayer (pkg/modules/relay/relayer.go), and the fees that HandleOps suggests
-- (pkg/aimiddleware/transaction/gas.go). EstimateHandleOpsGas and HandleOps are parameters.
pub mod Examples
pub mod Loop
pub mod Conserving
pub mod Fees
use aiops_bundler.Base.{
  ℕ, zero, suc, ◌+◌, ◌*◌, ◌/◌, String, Bool, true, false, List, [], ◌∷◌, ◌++◌, Option, none, some,
}
use aiops_bundler.Base.Tests.{ltb, ◌==◌, if◌then◌else◌}
use aiops_bundler.Base.Lists.{length}
use aiops_bundler.Base.Result.{Result, ok, err}
use aiops_bundler.Aiop.{AiOperation}
use aiops_bundler.Modules.{BatchHandlerCtx, mark_op_index_for_removal}

-- What EstimateHandleOpsGas returns without an error: a gas estimate, or the revert of an operation.
pub data Estimate : Type 0 where
  gas : ℕ → Estimate
  revert : ℕ → String → Estimate

-- The fees of the transaction that HandleOps sends.
pub data TxFees : Type 0 where
  dynamic : ℕ → ℕ → TxFees
  legacy : ℕ → TxFees

abbrev pub sum_fees : (AiOperation → ℕ) → List AiOperation → ℕ → ℕ
sum_fees fee [] sum = sum
sum_fees fee (op ∷ batch) sum = sum_fees fee batch (sum + fee op)

abbrev pub larger : ℕ → ℕ → ℕ
larger avg floor = if ltb floor avg then avg else floor

-- Each divides by the length of the batch, which is not empty where they are called.
unfoldable pub suggest_mean_gas_tip_cap : ℕ → List AiOperation → ℕ
suggest_mean_gas_tip_cap tip batch =
    larger (sum_fees (λ op. op.max_priority_fee_per_gas) batch 0 / length batch) tip

unfoldable pub suggest_mean_gas_fee_cap : ℕ → ℕ → List AiOperation → ℕ
suggest_mean_gas_fee_cap basefee tip batch =
    larger (sum_fees (λ op. op.max_fee_per_gas) batch 0 / length batch) (tip + basefee * 2)

unfoldable pub suggest_mean_gas_price : ℕ → List AiOperation → ℕ
suggest_mean_gas_price gas_price batch =
    larger (sum_fees (λ op. op.max_fee_per_gas) batch 0 / length batch) gas_price

-- The choice of fees in HandleOps; `none` is its error.
unfoldable pub choose_fees : Option ℕ → Option ℕ → Option ℕ → List AiOperation → Option TxFees
unfolding suggest_mean_gas_tip_cap suggest_mean_gas_fee_cap suggest_mean_gas_price
choose_fees (some base_fee) (some tip) gas_price batch =
    some
      (dynamic (suggest_mean_gas_tip_cap tip batch) (suggest_mean_gas_fee_cap base_fee tip batch))
choose_fees (some base_fee) none (some p) batch = some (legacy (suggest_mean_gas_price p batch))
choose_fees (some base_fee) none none batch = none
choose_fees none tip (some p) batch = some (legacy (suggest_mean_gas_price p batch))
choose_fees none tip none batch = none

module _ {ℓ} {E : Type ℓ} (estimate : List AiOperation → Result E Estimate) where
  -- The loop that estimates and drops. `batch` is that of the options, which the loop does not
  -- change; `none` is out of fuel.
  unfoldable pub estimate_loop :
      ℕ → List AiOperation → BatchHandlerCtx → Option (Result E (ℕ × BatchHandlerCtx))
  estimate_loop zero batch ctx = none
  estimate_loop (suc n) batch ctx = elim (length ctx.batch == 0) [
    | true ↦ some (ok (0, ctx))
    | false ↦ elim (estimate batch) [
      | err e ↦ some (err e)
      | ok (gas est) ↦ some (ok (est, ctx))
      | ok (revert index reason) ↦
          estimate_loop n batch (mark_op_index_for_removal ctx index reason)
    ]
  ]

  -- `handle_ops` sends a batch with a gas limit and returns the hash of the transaction.
  unfoldable pub send_ai_operation :
      (List AiOperation → ℕ → Result E ℕ) → ℕ → BatchHandlerCtx → Option (Result E BatchHandlerCtx)
  unfolding estimate_loop
  send_ai_operation handle_ops fuel ctx = elim (estimate_loop fuel ctx.batch ctx) [
    | none ↦ none
    | some (err e) ↦ some (err e)
    | some (ok (gas_limit, ctx')) ↦
        if length ctx'.batch == 0 then some (ok ctx') else elim (handle_ops ctx.batch gas_limit) [
          | err e ↦ some (err e)
          | ok hash ↦ some (ok (record ctx' { entries = ctx'.entries ++ ("txn_hash", hash) ∷ [] }))
        ]
  ]
