-- ===== src/Builder.antt =====
-- SendAiOperation of the builder client (pkg/modules/builder/client.go): the loop over estimates is that
-- of the relayer. EstimateHandleOpsGas, HandleOps, the number of the block, the broadcast to the block
-- builders and Wait are parameters.
pub mod Fees
pub mod Sending
pub mod Examples
use aiops_bundler.Base.{
  ℕ, zero, suc, ◌+◌, ◌*◌, ◌/◌, Bool, true, false, List, [], ◌∷◌, ◌++◌, Option, none, some,
}
use aiops_bundler.Base.Tests.{◌==◌, if◌then◌else◌}
use aiops_bundler.Base.Lists.{length}
use aiops_bundler.Base.Result.{Result, ok, err, ◌>>=◌}
use aiops_bundler.Aiop.{AiOperation}
use aiops_bundler.Modules.{BatchHandlerCtx}
use aiops_bundler.Relay.{Estimate, estimate_loop}

-- The loop over future blocks that raises the base fee.
unfoldable pub raise_base_fee : ℕ → ℕ → ℕ
raise_base_fee zero mbf = mbf
raise_base_fee (suc n) mbf = raise_base_fee n (mbf * 1125 / 1000 + 1)

-- The base fee that HandleOps is given. With a block to go, a nil one is read: `none` is the panic.
unfoldable pub max_base_fee : ℕ → Option ℕ → Option (Option ℕ)
unfolding raise_base_fee
max_base_fee zero base_fee = some base_fee
max_base_fee (suc n) none = none
max_base_fee (suc n) (some bf) = some (some (raise_base_fee (suc n) bf))

-- The calls of a run. The results of a broadcast are the errors of the builders, `none` a success;
-- `all_failed` wraps the joined errors, and `crashed` stands for a panic.
pub record BuilderClient {ℓ} (E : Type ℓ) : Type ℓ where
  pub blocks_in_the_future : ℕ
  pub estimate : List AiOperation → Result E Estimate
  pub block_number : Result E ℕ
  pub handle_ops : List AiOperation → ℕ → Option ℕ → Result E ℕ
  pub broadcast_bundle : ℕ → ℕ → List (Option E)
  pub wait : ℕ → Result E (Unit {0})
  pub all_failed : List E → E
  pub crashed : E

module _ {ℓ} {E : Type ℓ} where
  -- The loop over the results of one broadcast, with shouldFail and the errors so far.
  unfoldable pub read_results : List (Option E) → Bool × List E → Bool × List E
  read_results [] s = s
  read_results (some e ∷ rest) (should_fail, errs) = read_results rest (should_fail, errs ++ e ∷ [])
  read_results (none ∷ rest) (should_fail, errs) = read_results rest (false, errs)

  -- The loop over `n` blocks from a number.
  unfoldable pub broadcast_loop : (ℕ → List (Option E)) → ℕ → ℕ → Bool × List E → Bool × List E
  unfolding read_results
  broadcast_loop broadcast zero block s = s
  broadcast_loop broadcast (suc n) block s =
      broadcast_loop broadcast n (suc block) (read_results (broadcast block) s)

  module _ (b : BuilderClient E) where
    -- All blocks up to the future one, from the next.
    unfoldable pub broadcast : ℕ → ℕ → Bool × List E
    unfolding broadcast_loop
    broadcast txn bn =
        broadcast_loop (b.broadcast_bundle txn) b.blocks_in_the_future (bn + 1) (true, [])

    -- The part after the estimates, for the batch of the options.
    unfoldable pub send_bundle : List AiOperation → ℕ → BatchHandlerCtx → Result E BatchHandlerCtx
    unfolding broadcast max_base_fee
    send_bundle batch gas_limit ctx = b.block_number >>= λ bn.
        elim (max_base_fee b.blocks_in_the_future ctx.base_fee) [
          | none ↦ err b.crashed
          | some mbf ↦ b.handle_ops batch gas_limit mbf >>= λ txn.
              let (should_fail, errs) = broadcast txn bn in
              if should_fail
              then err (b.all_failed errs)
              else (b.wait txn >>= λ u.
                  ok (record ctx { entries = ctx.entries ++ ("txn_hash", txn) ∷ [] }))
        ]

    -- `none` is out of fuel.
    unfoldable pub build_and_send : ℕ → BatchHandlerCtx → Option (Result E BatchHandlerCtx)
    unfolding send_bundle
    build_and_send fuel ctx = elim (estimate_loop b.estimate fuel ctx.batch ctx) [
      | none ↦ none
      | some (err e) ↦ some (err e)
      | some (ok (gas_limit, ctx')) ↦
          if length ctx'.batch == 0
          then some (ok ctx')
          else some (send_bundle ctx.batch gas_limit ctx')
    ]
