-- ===== src/Builder/Examples.antt =====
-- A test of a bundle for two blocks of which one builder takes the second.
use aiops_bundler.Base.{ℕ, ◌+◌, ◌*◌, ◌≤◌, ◌≡◌, refl, [], ◌∷◌, none, some, arith}
use aiops_bundler.Base.Tests.{◌==◌, if◌then◌else◌}
use aiops_bundler.Base.Result.{ok}
use aiops_bundler.Modules.{BatchHandlerCtx}
use aiops_bundler.Modules.Examples.{sample_ctx}
use aiops_bundler.Relay.{gas}
use aiops_bundler.Builder.{BuilderClient, raise_base_fee, send_bundle}
use aiops_bundler.Builder.Fees.{raise_base_fee-covers}
use aiops_bundler.Builder.Sending.{Sent, send_bundle-Sent}

abbrev pub sample_builder : BuilderClient ℕ
sample_builder = record {
  blocks_in_the_future = 2;
  estimate = λ batch. ok (gas 300);
  block_number = ok 10;
  handle_ops = λ batch g bf. ok 77;
  broadcast_bundle = λ txn block. if block == 12 then some 4 ∷ none ∷ [] else some 4 ∷ [];
  wait = λ txn. ok tt;
  all_failed = λ errs. 5;
  crashed = 6;
}

abbrev bundle_ctx : BatchHandlerCtx
bundle_ctx = record sample_ctx { entries = ("txn_hash", 77) ∷ [] }

sample_bundle : send_bundle sample_builder sample_ctx.batch 300 sample_ctx ≡ ok bundle_ctx
unfolding send_bundle
sample_bundle = refl

send_bundle-Sent_example :
    (txn : ℕ) × Sent sample_builder sample_ctx.batch 300 sample_ctx txn
    × (bundle_ctx ≡ record sample_ctx { entries = ("txn_hash", txn) ∷ [] })
send_bundle-Sent_example =
    send_bundle-Sent sample_builder sample_ctx.batch 300 sample_ctx bundle_ctx sample_bundle

raise_base_fee-covers_example : 1000 + 2 * 126 ≤ raise_base_fee 2 1000
raise_base_fee-covers_example =
    raise_base_fee-covers 2 1000 (λ i. 1000 + i * 126) (λ i. omega arith) (omega arith)
