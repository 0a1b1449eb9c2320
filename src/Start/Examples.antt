-- ===== src/Start/Examples.antt =====
-- A test of a run of the bundler with all of its handlers: of two operations one is underpriced and
-- stays in the mempool, and the other is sent.
use aiops_bundler.Base.{ℕ, ◌≡◌, refl, List, [], ◌∷◌, ◌++◌, none, some, Perm}
use aiops_bundler.Base.Dict.{insert}
use aiops_bundler.Base.Result.{ok}
use aiops_bundler.Aiop.{AiOperation}
use aiops_bundler.Aiop.Hash.{get_ai_op_hash}
use aiops_bundler.Aiop.Examples.{sample_op, sample_crypto}
use aiops_bundler.Modules.{BatchHandlerCtx}
use aiops_bundler.Modules.Examples.{sample_ctx}
use aiops_bundler.Bundler.{Bundler, adjust_batch_size, process}
use aiops_bundler.Relay.{gas}
use aiops_bundler.Builder.Examples.{sample_builder}
use aiops_bundler.Start.{BatchState, private_mode, Services}
use aiops_bundler.Start.Bundling.{with_modules, process-removes}

abbrev sample_services : Services ℕ
sample_services = record {
  crypto = sample_crypto;
  clock = λ i. 50;
  max_op_ttl = 100;
  static = λ op. ok 21000;
  max_batch_gas_limit = 1000000;
  keccak256 = λ bs. 8;
  get_code = λ a. ok [];
  not_found = 1;
  connect = ok (λ a. ok 5000);
  estimate = λ batch. ok (gas 300);
  handle_ops = λ batch g. ok 77;
  builder = sample_builder;
  fuel = 3;
  range = λ d. d;
  txn = record { get_error = λ a. none; set_error = λ a. none; commit_error = none };
  now = 50;
  commit = none;
  crashed = 0;
}

abbrev sample_stores : BatchState
sample_stores = record {
  ctx = sample_ctx;
  seen_at = [];
  counters = [];
  saved = insert (get_ai_op_hash sample_crypto sample_op 3 1) [] [];
}

abbrev sample_bundler : Bundler ℕ
sample_bundler = record {
  dump = λ ep. ok sample_ctx.batch;
  remove_ops = λ ep ops. ok tt;
  batch_handler = λ ctx. ok ctx;
  chain_id = 1;
  max_batch = 0;
  gbf = ok (some 5);
  ggt = ok (some 1);
  ggp = ok (some 6);
}

abbrev sent_ctx : BatchHandlerCtx
sent_ctx = record sample_ctx { batch = sample_op ∷ []; entries = ("txn_hash", 77) ∷ [] }

sample_run :
    process (with_modules sample_services private_mode sample_stores sample_bundler) 3
    ≡ ok (some (sent_ctx, sample_op ∷ []))
unfolding process aiops_bundler.Start.batch_handler aiops_bundler.Start.expiring
    aiops_bundler.Batch.Sweep.sweep aiops_bundler.Base.Dict.lookup insert get_ai_op_hash
    aiops_bundler.Batch.GasLimit.maintain_gas_limit aiops_bundler.Batch.GasLimit.gas_limit_loop
    aiops_bundler.Batch.Sort.sort_by_nonce aiops_bundler.Batch.StableSort.slice_stable
    aiops_bundler.Batch.GasPrice.filter_underpriced aiops_bundler.Batch.Sort.sort_by_gas_price
    aiops_bundler.Aiop.get_dynamic_gas_price aiops_bundler.Batch.GasPrice.is_priced
    aiops_bundler.Aiop.get_max_gas_available aiops_bundler.Aiop.get_paymaster
    aiops_bundler.Aiop.Hash.pack_for_signature aiops_bundler.Aiop.address_of
    aiops_bundler.Aiop.get_factory aiops_bundler.Aiop.get_max_prefund aiops_bundler.Base.Dict.delete
    aiops_bundler.Base.Int.is_negative aiops_bundler.Base.Int.◌-ℤ◌
    aiops_bundler.Batch.Expire.drop_expired aiops_bundler.Batch.Expire.expire_step
    aiops_bundler.Batch.GasLimit.execution_gas aiops_bundler.Batch.GasPrice.filter_loop
    aiops_bundler.Batch.PaymasterDeposit.deposit_loop
    aiops_bundler.Batch.PaymasterDeposit.known_deposit
    aiops_bundler.Batch.PaymasterDeposit.paymaster_deposit
    aiops_bundler.Batch.StableSort.insert_back aiops_bundler.Batch.StableSort.insertion_loop
    aiops_bundler.Batch.Sweep.sweep_loop adjust_batch_size aiops_bundler.Bundler.handle_batch
    aiops_bundler.Bundler.run_batch aiops_bundler.Checks.CodeHash.differs
    aiops_bundler.Checks.CodeHash.get_code_hashes aiops_bundler.Checks.CodeHash.get_code_hashes_loop
    aiops_bundler.Checks.CodeHash.has_code_hash_changes aiops_bundler.Checks.CodeHash.previous
    aiops_bundler.Checks.Saved.clean aiops_bundler.Checks.Saved.code_hashes
    aiops_bundler.Checks.Saved.code_hashes_step aiops_bundler.Checks.Saved.delete_all
    aiops_bundler.Checks.Saved.get_saved_code_hashes
    aiops_bundler.Checks.Saved.remove_saved_code_hashes
    aiops_bundler.Entities.Handlers.inc_ops_included aiops_bundler.Entities.apply_exp_weights
    aiops_bundler.Entities.count_ops aiops_bundler.Entities.decay_loop
    aiops_bundler.Entities.get_ops_count_by_entity
    aiops_bundler.Entities.increment_ops_included_by_entity aiops_bundler.Entities.set_entry
    aiops_bundler.Modules.compose_handlers aiops_bundler.Modules.mark_loop
    aiops_bundler.Modules.mark_op_index_for_removal aiops_bundler.Modules.new_batch_handler_context
    aiops_bundler.Relay.estimate_loop aiops_bundler.Relay.send_ai_operation
    aiops_bundler.Start.batch_modules aiops_bundler.Start.cleaning aiops_bundler.Start.comparing
    aiops_bundler.Start.counting aiops_bundler.Start.relaying
sample_run = refl

process-removes_example :
    (left : List AiOperation) × Perm (sample_op ∷ left) (adjust_batch_size 0 sample_ctx.batch)
process-removes_example =
    process-removes sample_services private_mode sample_stores sample_bundler 3 sample_ctx.batch
      (sample_op ∷ []) sent_ctx refl sample_run
