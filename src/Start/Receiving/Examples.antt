-- ===== src/Start/Receiving/Examples.antt =====
-- A test of the client's handlers on an operation with a paymaster, whose trace is empty, and of the
-- code hashes that are stored for it.
use aiops_bundler.Base.{
  ℕ, ◌≡◌, refl, ◌↔◌, Bool, true, false, not, List, [], ◌∷◌, Option, none, some, arith,
}
use aiops_bundler.Base.Lists.{length}
use aiops_bundler.Base.Result.{Result, ok, err}
use aiops_bundler.Aiop.{Address, Bytes, AiOperation}
use aiops_bundler.Aiop.Hash.{get_ai_op_hash}
use aiops_bundler.Aiop.Examples.{sample_op, sample_crypto}
use aiops_bundler.Modules.{DepositInfo, AiOpHandlerCtx}
use aiops_bundler.Entities.{ops_count_at}
use aiops_bundler.Entities.Examples.{sample_constants}
use aiops_bundler.Simulation.{account, factory, paymaster}
use aiops_bundler.Simulation.Trace.{TraceOutput}
use aiops_bundler.Checks.CodeHash.{CodeHash, same_code}
use aiops_bundler.Checks.Saved.{code_hashes_step}
use aiops_bundler.Checks.Values.{Verdict}
use aiops_bundler.Checks.Simulated.{
  Reading, SimulateInput, SimulationError, op_hash, trace_validation, simulate_op,
}
use aiops_bundler.Checks.Simulated.Remembered.{IsWait, remembered, simulate_op-code_hashes}
use aiops_bundler.Start.Receiving.{OpState, OpServices, simulation_of, op_handler}
use aiops_bundler.Modules.{compose_handlers}
use aiops_bundler.Checks.Values.Group
use aiops_bundler.Checks.Values.Group.{Acceptable}
use aiops_bundler.Entities.Standing.{below_limits}
use aiops_bundler.Start.Receiving.Passing.{in_good_standing, Simulated, op_handler-admits}

abbrev sample_reading : Reading ℕ ℕ
sample_reading = record {
  selectors = record { create_sender = 1; validate_paymaster_ai_op = 2; balance_of = 3 };
  decode = λ n. ok [];
  keccak256 = λ bs. length bs;
  set_string = λ s. none;
  no_data = 0;
  crypto = sample_crypto;
}

abbrev sample_deposit : DepositInfo
sample_deposit = record { deposit = 5000; staked = false }

abbrev sample_op_ctx : AiOpHandlerCtx
sample_op_ctx = record {
  ai_op = sample_op;
  ai_middleware = 3;
  chain_id = 1;
  pending_sender_ops = [];
  pending_factory_ops = [];
  pending_paymaster_ops = [];
  sender_deposit = some sample_deposit;
  factory_deposit = none;
  paymaster_deposit = some sample_deposit;
}

abbrev wait_all : List (Verdict ℕ) → Verdict ℕ
wait_all [] = ok tt
wait_all (err e ∷ rest) = err e
wait_all (ok u ∷ rest) = wait_all rest

abbrev wait_both {ℓ} :
    {F : Type ℓ} → Result F (Unit {0}) → Result F (Unit {0}) → Result F (Unit {0})
wait_both (err e) b = err e
wait_both (ok u) b = b

wait_both-IsWait : IsWait {F = SimulationError ℕ} wait_both
wait_both-IsWait (ok u) b = (λ h. (refl, h), λ k. k.1)
wait_both-IsWait (err e) b = (λ h. cc, λ k. let bad = k.0 in cc)

abbrev sample_op_services : OpServices ℕ ℕ
sample_op_services = record {
  txn = record { get_error = λ a. none; set_error = λ a. none; commit_error = none };
  now = 100;
  constants = sample_constants;
  get_code = λ a. ok (1 ∷ []);
  get_base_fee = ok (some 5);
  pvg = λ op. ok 10;
  static = λ op. ok 0;
  non_zero_value_call = 50;
  max_verification_gas = 60;
  max_batch_gas_limit = 1000;
  wait_values = wait_all;
  wait_simulations = wait_both;
  reading = sample_reading;
  simulate = λ ctx. ok (record { sig_failed = false; valid_until = 131 });
  trace = λ ctx. ok (record { calls_from_ai_middleware = []; keccak = []; calls = [] });
  commit = none;
  is_rip7212_supported = false;
  exceptions = λ title contract slot. [];
  first_titles = account ∷ factory ∷ paymaster ∷ [];
  second_titles = paymaster ∷ account ∷ factory ∷ [];
  writes_first = λ addr. false;
}

abbrev sample_input : SimulateInput ℕ ℕ
sample_input = simulation_of sample_op_services sample_op_ctx

abbrev sample_out : TraceOutput
sample_out = record { touched_contracts = 7 ∷ 0 ∷ 2 ∷ []; alt_mempool_ids = [] }

abbrev sample_hashes : List CodeHash
sample_hashes = remembered sample_reading sample_input (λ a. 1 ∷ []) sample_out

sample_trace : trace_validation sample_reading sample_input ≡ ok sample_out
unfolding trace_validation aiops_bundler.Simulation.Trace.check_entities
    aiops_bundler.Simulation.Trace.check_entity aiops_bundler.Simulation.new_known_entity
    aiops_bundler.Base.Dict.lookup aiops_bundler.Simulation.Trace.check_opcodes
    aiops_bundler.Simulation.Trace.check_create2 aiops_bundler.Simulation.Trace.count_of
    aiops_bundler.Simulation.Trace.check_storage aiops_bundler.Simulation.Slots.process
    aiops_bundler.Simulation.Slots.check_code aiops_bundler.Simulation.Slots.check_access
    aiops_bundler.Simulation.Trace.check_calls aiops_bundler.Simulation.Calls.new_call_stack
    aiops_bundler.Aiop.get_factory aiops_bundler.Aiop.get_paymaster simulate_op
    aiops_bundler.Base.Dict.insert get_ai_op_hash aiops_bundler.Aiop.Hash.pack_for_signature
    aiops_bundler.Aiop.address_of aiops_bundler.Checks.CodeHash.get_code_hashes
    aiops_bundler.Checks.CodeHash.get_code_hashes_loop aiops_bundler.Checks.Saved.save_code_hashes
    aiops_bundler.Checks.Simulated.check_simulation aiops_bundler.Checks.Simulated.check_tracing
    aiops_bundler.Simulation.Calls.call_loop aiops_bundler.Simulation.Calls.pop
    aiops_bundler.Simulation.Calls.push aiops_bundler.Simulation.Slots.add_slot
    aiops_bundler.Simulation.Slots.add_slots aiops_bundler.Simulation.Slots.check_slot
    aiops_bundler.Simulation.Slots.check_slots aiops_bundler.Simulation.Slots.has_prefix
    aiops_bundler.Simulation.Slots.is_associated_with aiops_bundler.Simulation.Slots.is_rip7212_call
    aiops_bundler.Simulation.Slots.new_storage_slots_by_entity aiops_bundler.Simulation.Slots.owned
    aiops_bundler.Simulation.Trace.check_call aiops_bundler.Simulation.Trace.contains_text
    aiops_bundler.Simulation.Trace.validate_trace aiops_bundler.Simulation.addr2_known_entity
    aiops_bundler.Simulation.sort_calls aiops_bundler.Simulation.stake_of
sample_trace = refl

-- The node after the contracts have lost their code.
abbrev emptied : Address → Result ℕ Bytes
emptied a = ok []

sample_simulation :
    simulate_op sample_reading sample_input wait_both []
    ≡ ((op_hash sample_reading sample_input, sample_hashes) ∷ [], ok tt)
unfolding simulate_op aiops_bundler.Simulation.Trace.check_entities
    aiops_bundler.Simulation.Trace.check_entity aiops_bundler.Simulation.new_known_entity
    aiops_bundler.Base.Dict.lookup aiops_bundler.Simulation.Trace.check_opcodes
    aiops_bundler.Simulation.Trace.check_create2 aiops_bundler.Simulation.Trace.count_of
    aiops_bundler.Simulation.Trace.check_storage aiops_bundler.Simulation.Slots.process
    aiops_bundler.Simulation.Slots.check_code aiops_bundler.Simulation.Slots.check_access
    aiops_bundler.Simulation.Trace.check_calls aiops_bundler.Simulation.Calls.new_call_stack
    aiops_bundler.Aiop.get_factory aiops_bundler.Aiop.get_paymaster aiops_bundler.Base.Dict.insert
    get_ai_op_hash aiops_bundler.Aiop.Hash.pack_for_signature aiops_bundler.Aiop.address_of
    aiops_bundler.Checks.CodeHash.get_code_hashes aiops_bundler.Checks.CodeHash.get_code_hashes_loop
    aiops_bundler.Checks.Saved.save_code_hashes aiops_bundler.Checks.Simulated.check_simulation
    aiops_bundler.Checks.Simulated.check_tracing trace_validation
    aiops_bundler.Simulation.Calls.call_loop aiops_bundler.Simulation.Calls.pop
    aiops_bundler.Simulation.Calls.push aiops_bundler.Simulation.Slots.add_slot
    aiops_bundler.Simulation.Slots.add_slots aiops_bundler.Simulation.Slots.check_slot
    aiops_bundler.Simulation.Slots.check_slots aiops_bundler.Simulation.Slots.has_prefix
    aiops_bundler.Simulation.Slots.is_associated_with aiops_bundler.Simulation.Slots.is_rip7212_call
    aiops_bundler.Simulation.Slots.new_storage_slots_by_entity aiops_bundler.Simulation.Slots.owned
    aiops_bundler.Simulation.Trace.check_call aiops_bundler.Simulation.Trace.contains_text
    aiops_bundler.Simulation.Trace.validate_trace aiops_bundler.Simulation.addr2_known_entity
    aiops_bundler.Simulation.sort_calls aiops_bundler.Simulation.stake_of
sample_simulation = refl

simulate_op-code_hashes_example :
    (out : TraceOutput) × (trace_validation sample_reading sample_input ≡ ok out)
    × (code_hashes_step
          (λ op. op_hash sample_reading sample_input)
          sample_reading.keccak256
          emptied
          9
          ((op_hash sample_reading sample_input, sample_hashes) ∷ [])
          0
          tt
          sample_op
        ≡ ok (
          tt,
          not (
              same_code sample_reading.keccak256 emptied
                (λ a. 1 ∷ [])
                (λ a. [])
                out.touched_contracts),
        ))
simulate_op-code_hashes_example =
    simulate_op-code_hashes sample_reading sample_input wait_both (λ a. 1 ∷ []) (λ a. []) emptied
      (λ op. op_hash sample_reading sample_input) 9 []
      ((op_hash sample_reading sample_input, sample_hashes) ∷ []) 0 wait_both-IsWait (λ a. refl)
      (λ a. refl) refl sample_simulation

abbrev op_before : OpState
op_before = record { ctx = sample_op_ctx; counters = []; saved = [] }

abbrev op_after : OpState
op_after = record {
  ctx = sample_op_ctx;
  counters = (7, ops_count_at 100 1 0) ∷ (2, ops_count_at 100 1 0) ∷ [];
  saved = (op_hash sample_reading sample_input, sample_hashes) ∷ [];
}

sample_admitted : op_handler sample_op_services op_before ≡ ok op_after
unfolding op_handler compose_handlers simulate_op aiops_bundler.Simulation.Trace.check_entities
    aiops_bundler.Simulation.Trace.check_entity aiops_bundler.Simulation.new_known_entity
    aiops_bundler.Base.Dict.lookup aiops_bundler.Simulation.Trace.check_opcodes
    aiops_bundler.Simulation.Trace.check_create2 aiops_bundler.Simulation.Trace.count_of
    aiops_bundler.Simulation.Trace.check_storage aiops_bundler.Simulation.Slots.process
    aiops_bundler.Simulation.Slots.check_code aiops_bundler.Simulation.Slots.check_access
    aiops_bundler.Simulation.Trace.check_calls aiops_bundler.Simulation.Calls.new_call_stack
    aiops_bundler.Aiop.get_factory aiops_bundler.Aiop.get_paymaster aiops_bundler.Base.Dict.insert
    get_ai_op_hash aiops_bundler.Aiop.Hash.pack_for_signature aiops_bundler.Aiop.address_of
    aiops_bundler.Checks.CodeHash.get_code_hashes aiops_bundler.Checks.CodeHash.get_code_hashes_loop
    aiops_bundler.Checks.Saved.save_code_hashes aiops_bundler.Checks.Simulated.check_simulation
    aiops_bundler.Checks.Simulated.check_tracing trace_validation
    aiops_bundler.Simulation.Calls.call_loop aiops_bundler.Simulation.Calls.pop
    aiops_bundler.Simulation.Calls.push aiops_bundler.Simulation.Slots.add_slot
    aiops_bundler.Simulation.Slots.add_slots aiops_bundler.Simulation.Slots.check_slot
    aiops_bundler.Simulation.Slots.check_slots aiops_bundler.Simulation.Slots.has_prefix
    aiops_bundler.Simulation.Slots.is_associated_with aiops_bundler.Simulation.Slots.is_rip7212_call
    aiops_bundler.Simulation.Slots.new_storage_slots_by_entity aiops_bundler.Simulation.Slots.owned
    aiops_bundler.Simulation.Trace.check_call aiops_bundler.Simulation.Trace.contains_text
    aiops_bundler.Simulation.Trace.validate_trace aiops_bundler.Simulation.addr2_known_entity
    aiops_bundler.Simulation.sort_calls aiops_bundler.Simulation.stake_of
    aiops_bundler.Entities.Handlers.check_status aiops_bundler.Entities.Handlers.check_block
    aiops_bundler.Entities.Handlers.check_entity aiops_bundler.Entities.Handlers.check_set_block
    aiops_bundler.Entities.Handlers.limit_entity aiops_bundler.Entities.Handlers.limit_set_entity
    aiops_bundler.Entities.Handlers.validate_op_limit aiops_bundler.Entities.Handlers.inc_ops_seen
    aiops_bundler.Entities.apply_exp_weights aiops_bundler.Entities.decay_loop
    aiops_bundler.Entities.get_ops_count_by_entity aiops_bundler.Entities.get_status
    aiops_bundler.Entities.set_entry aiops_bundler.Entities.status_of
    aiops_bundler.Entities.increment_ops_seen_by_entity aiops_bundler.Checks.Values.find_old_op
    aiops_bundler.Checks.Values.new_threshold aiops_bundler.Checks.Values.validate_sender
    aiops_bundler.Checks.Values.validate_init_code
    aiops_bundler.Checks.Values.validate_verification_gas
    aiops_bundler.Checks.Values.validate_paymaster_and_data
    aiops_bundler.Checks.Values.validate_call_gas_limit
    aiops_bundler.Checks.Values.validate_fee_per_gas
    aiops_bundler.Checks.Values.validate_pending_ops
    aiops_bundler.Checks.Values.validate_gas_available
    aiops_bundler.Checks.Values.Group.validate_op_values aiops_bundler.Aiop.get_max_prefund
    aiops_bundler.Aiop.get_max_gas_available
sample_admitted = refl

wait_all-IsWait : Group.IsWait wait_all
wait_all-IsWait [] = ground arith
wait_all-IsWait (ok u ∷ rest) = ground (arith, wait_all-IsWait rest)
wait_all-IsWait (err e ∷ rest) = ground arith

op_handler-admits_example :
    (in_good_standing sample_op_services op_before ≡ true)
    × (below_limits sample_constants sample_op_ctx ≡ true)
    × Acceptable sample_op (10, 0, 50, 60, 1000) (1 ∷ []) (1 ∷ []) (some 5) (some sample_deposit) []
    × Simulated sample_op_services (λ a. 1 ∷ []) op_before op_after
    × (op_after.ctx ≡ op_before.ctx)
op_handler-admits_example =
    op_handler-admits sample_op_services (λ a. 1 ∷ []) (some 5) 10 0 op_before op_after
      (λ a. refl, λ a. refl, refl) wait_all-IsWait wait_both-IsWait (λ a. refl) refl refl refl
      sample_admitted
