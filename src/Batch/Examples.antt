-- ===== src/Batch/Examples.antt =====
-- Tests of the batch modules on a batch of two operations with one paymaster.
use mathlib.Core.List.{reverse}
use aiops_bundler.Base.{ℕ, ◌≤◌, ◌≡◌, refl, not, ◌&&◌, [], ◌∷◌, some, arith}
use aiops_bundler.Base.Tests.{leb}
use aiops_bundler.Base.Lists.{take, keep}
use aiops_bundler.Base.Dict.{Dict}
use aiops_bundler.Base.Result.{Result, ok}
use aiops_bundler.Aiop.{Address, AiOperation, get_paymaster, get_max_prefund, get_max_gas_available}
use aiops_bundler.Aiop.Hash.{get_ai_op_hash}
use aiops_bundler.Aiop.Examples.{sample_op, sample_crypto}
use aiops_bundler.Modules.{BatchHandlerCtx}
use aiops_bundler.Modules.Examples.{sample_ctx}
use aiops_bundler.Batch.GasLimit.{maintain_gas_limit, IsLongestFit, maintain_gas_limit_lem}
use aiops_bundler.Batch.Sort.{
  sort_by_nonce, sort_by_gas_price, sort_price, IsSortedBy, sort_by_gas_price-IsSortedBy,
}
use aiops_bundler.Batch.StableSort.{slice_stable, insertion_loop, insert_back}
use aiops_bundler.Batch.GasPrice.{filter_underpriced, filter_underpriced-dynamic}
use aiops_bundler.Batch.Sweep.{items}
use aiops_bundler.Batch.Expire.{is_expired, drop_expired, Grew, drop_expired_lem}
use aiops_bundler.Batch.PaymasterDeposit.{spend, paymaster_deposit, paymaster_deposit_shifts}

abbrev sample_static : AiOperation → Result ℕ ℕ
sample_static op = ok 10

maintain_gas_limit_lem_example :
    (n : ℕ) × (maintain_gas_limit sample_static 200 sample_ctx
      ≡ ok (record sample_ctx { batch = take n sample_ctx.batch }))
    × IsLongestFit sample_static 200 (λ op. 10) 0 sample_ctx.batch n
maintain_gas_limit_lem_example =
    maintain_gas_limit_lem sample_static 200 (λ op. 10) sample_ctx (refl, (refl, tt))

sort_by_gas_price-IsSortedBy_example :
    IsSortedBy (sort_price sample_ctx) sample_ctx.batch (sort_by_gas_price sample_ctx).batch
    × (sort_by_gas_price sample_ctx
        ≡ record sample_ctx { batch = (sort_by_gas_price sample_ctx).batch })
sort_by_gas_price-IsSortedBy_example = sort_by_gas_price-IsSortedBy sample_ctx

-- Nonces 9 and 1 of sender 7, around an operation of sender 8.
abbrev blocked_ctx : BatchHandlerCtx
blocked_ctx = record sample_ctx {
  batch = record sample_op { nonce = 9 } ∷ record sample_op { sender = 8 } ∷ sample_op ∷ [];
}

-- The operation between the two keeps them in the wrong order.
sample_blocked : sort_by_nonce blocked_ctx ≡ blocked_ctx
unfolding sort_by_nonce slice_stable insertion_loop insert_back
sample_blocked = refl

filter_underpriced-dynamic_example :
    (filter_underpriced sample_ctx).batch
    ≡ keep (λ op. leb 6 op.max_fee_per_gas && leb 1 op.max_priority_fee_per_gas) sample_ctx.batch
filter_underpriced-dynamic_example =
    filter_underpriced-dynamic sample_ctx 5 1 refl (omega arith) refl

drop_expired_lem_example :
    let hash : AiOperation → ℕ = λ op. get_ai_op_hash sample_crypto op 3 1 in
    let expired = is_expired hash 30 ((2, 5) ∷ []) 40 in
    (seen : Dict ℕ) × Grew 40 ((2, 5) ∷ []) seen
    × (drop_expired ℕ sample_crypto
          (λ _. 40)
          (record { seen_at = (2, 5) ∷ []; ttl = 30 })
          sample_ctx
        ≡ some (
            ok (
              seen,
              record sample_ctx {
                batch = keep (λ op. not (expired op)) sample_ctx.batch;
                pending_removal = items "op expired" (reverse (keep expired sample_ctx.batch));
              },
            )))
drop_expired_lem_example =
    drop_expired_lem ℕ sample_crypto 40 (record { seen_at = (2, 5) ∷ []; ttl = 30 }) sample_ctx

sample_spend : (pm : Address) → spend pm sample_ctx.batch ≤ 100000
unfolding get_paymaster get_max_prefund get_max_gas_available
sample_spend pm = ground arith

-- A paymaster without a deposit, in an operation before one of its own and one without a paymaster.
abbrev shifted_ctx : BatchHandlerCtx
shifted_ctx = record sample_ctx {
  batch =
      sample_op
      ∷ record sample_op { nonce = 2 }
      ∷ record sample_op { paymaster_and_data = [] }
      ∷ [];
}

paymaster_deposit_shifts_example :
    paymaster_deposit {E = ℕ} (ok (λ pm. ok 3)) shifted_ctx
    ≡ ok (record shifted_ctx {
      batch = record sample_op { nonce = 2 } ∷ [];
      pending_removal =
          items "insufficient paymaster deposit"
            (sample_op ∷ record sample_op { paymaster_and_data = [] } ∷ []);
    })
unfolding get_paymaster get_max_prefund get_max_gas_available
paymaster_deposit_shifts_example =
    paymaster_deposit_shifts (λ pm. ok 3) shifted_ctx sample_op (record sample_op { nonce = 2 })
      (record sample_op { paymaster_and_data = [] }) 2 3 refl refl refl (λ h. ground arith) refl
      refl (omega arith)
