-- ===== src/Relay/Examples.antt =====
-- Tests of the relayer on the sample batch.
use aiops_bundler.Base.{ℕ, suc, ◌++◌, ◌≡◌, refl, List, [], ◌∷◌, some, none, arith}
use aiops_bundler.Base.Lists.{length}
use aiops_bundler.Batch.Sweep.{items}
use aiops_bundler.Base.Result.{Result, ok}
use aiops_bundler.Aiop.{AiOperation}
use aiops_bundler.Modules.Examples.{sample_ctx}
use aiops_bundler.Relay.{Estimate, gas, revert, estimate_loop, send_ai_operation}
use aiops_bundler.Relay.Loop.{estimate_loop-repeats}

-- The second operation of every batch of at least two reverts.
abbrev second_reverts : List AiOperation → Result ℕ Estimate
second_reverts [] = ok (gas 21000)
second_reverts (op ∷ []) = ok (gas 90000)
second_reverts (op ∷ op' ∷ ops) = ok (revert 1 "AA25 invalid account nonce")

-- The first operation of a batch of at least two reverts; the second alone would not.
abbrev first_reverts : List AiOperation → Result ℕ Estimate
first_reverts [] = ok (gas 21000)
first_reverts (op ∷ []) = ok (gas 90000)
first_reverts (op ∷ op' ∷ ops) = ok (revert 0 "AA25 invalid account nonce")

estimate_loop-repeats_example :
    (estimate_loop second_reverts 1000 sample_ctx.batch sample_ctx ≡ none)
    × (estimate_loop first_reverts (suc (length sample_ctx.batch)) sample_ctx.batch sample_ctx
        ≡ some (
            ok (
              0,
              record sample_ctx {
                batch = [];
                pending_removal =
                    sample_ctx.pending_removal
                    ++ items "AA25 invalid account nonce" sample_ctx.batch;
              },
            )))
estimate_loop-repeats_example =
    estimate_loop-repeats second_reverts first_reverts sample_ctx.batch sample_ctx 0 1000
      "AA25 invalid account nonce" refl refl (omega arith)

-- A batch of operations that do not revert is sent with its estimate.
sent :
    send_ai_operation {E = ℕ} (λ ops. ok (gas 90000)) (λ ops limit. ok limit) 1 sample_ctx
    ≡ some (ok (record sample_ctx { entries = ("txn_hash", 90000) ∷ [] }))
unfolding send_ai_operation estimate_loop
sent = refl
