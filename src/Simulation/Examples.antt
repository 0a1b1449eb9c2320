-- ===== src/Simulation/Examples.antt =====
-- Tests of the simulation's checks: an operation of account 7 with the staked paymaster 2.
use aiops_bundler.Base.{ℕ, true, false, [], ◌∷◌, ◌++◌, none, some, ◌≡◌, ◌≢◌, refl, inl, inr, arith}
use aiops_bundler.Base.Lists.{length, replicate}
use aiops_bundler.Base.Dict.{lookup}
use aiops_bundler.Base.Result.{Result, ok}
use aiops_bundler.Aiop.{Bytes, get_factory, get_paymaster, address_of}
use aiops_bundler.Aiop.Examples.{sample_op}
use aiops_bundler.Simulation.{
  Slot, EntityStakes, no_info, Title, account, factory, paymaster, entity_of, new_known_entity,
  sort_calls, stake_of, addr2_known_entity,
}
use aiops_bundler.Simulation.Slots.{
  StorageSlotsValidator, has_prefix, is_associated_with, is_rip7212_call, owned,
  new_storage_slots_by_entity, process, check_code, check_access, check_slots, check_slot,
}
use aiops_bundler.Simulation.Slots.Owned.{contains, new_storage_slots_by_entity_lem}
use aiops_bundler.Simulation.Slots.Allowed.{process_lem}
use aiops_bundler.Simulation.Calls.{CallInfo, call, new_call_stack, call_loop, push, pop}
use aiops_bundler.Simulation.Calls.Nested.{
  Calls, done, made, traced, returned_calls, new_call_stack_lem,
}
use aiops_bundler.Simulation.Trace.{
  Selectors, BundlerCollectorReturn, TraceInput, contains_text, count_of, validator_of,
  validate_trace,
}
use aiops_bundler.Simulation.Trace.Entities.{has_title, EntityAllowed}
use aiops_bundler.Simulation.Trace.Checked.{StorageAllowed, known_of, slots_of, validate_trace_lem}

-- A hash by length.
abbrev sample_hash : Bytes → Slot
sample_hash k = length k

abbrev sample_stakes : EntityStakes
sample_stakes =
    (7, some (record { deposit = 0; staked = false }))
    ∷ (0, none)
    ∷ (2, some (record { deposit = 9; staked = true }))
    ∷ []

-- A mapping entry of the paymaster.
abbrev sample_text : Bytes
sample_text = replicate 31 0 ++ 2 ∷ 4 ∷ []

new_storage_slots_by_entity_lem_example :
    contains 33 (owned 2 (new_storage_slots_by_entity sample_hash sample_stakes (sample_text ∷ [])))
    ≡ true
unfolding has_prefix address_of
new_storage_slots_by_entity_lem_example =
    new_storage_slots_by_entity_lem sample_hash sample_stakes (sample_text ∷ []) 2 33

-- The staked paymaster reads a slot of contract 9 and writes one of its own there.
abbrev sample_validator : StorageSlotsValidator
sample_validator = record {
  op = sample_op;
  ai_middleware = 3;
  is_rip7212_supported = false;
  exceptions = λ title contract slot. [];
  writes_first = λ addr. false;
  sender_slots = [];
  factory_is_staked = false;
  entity_name = paymaster;
  entity_addr = 2;
  entity_access_map = (9, record { reads = 5 ∷ []; writes = 40 ∷ [] }) ∷ [];
  entity_contract_size_map = (9, record { contract_size = 1; opcode = "CALL" }) ∷ [];
  entity_slots = 33 ∷ [];
  entity_is_staked = true;
}

process_lem_example : process sample_validator ≡ ok []
unfolding is_associated_with
process_lem_example =
    (process_lem sample_validator []).1
      (((inr (inl (λ h. ground arith)), tt), (inr ((refl, tt), (refl, tt)), tt)), refl)

unstaked_is_refused : process (record sample_validator { entity_is_staked = false }) ≢ ok []
unfolding process check_code check_access check_slots check_slot is_associated_with is_rip7212_call
    addr2_known_entity
unstaked_is_refused h = cc

abbrev sample_info : CallInfo ℕ
sample_info = record { type = call "CALL"; from = 7; to = 9; method = 1; value = ""; payload = 0 }

-- A call that makes a call that reverts and a creation.
abbrev sample_calls : Calls ℕ
sample_calls =
    made sample_info (some "CALL")
      (made sample_info (some "STATICCALL") done true 6 (made sample_info none done false 8 done))
      false 5 done

new_call_stack_lem_example :
    new_call_stack (λ s. none) 0 (traced sample_calls) ≡ returned_calls (λ s. none) 0 sample_calls
new_call_stack_lem_example = new_call_stack_lem (λ s. none) 0 sample_calls

abbrev sample_input : TraceInput
sample_input = record {
  op = sample_op;
  ai_middleware = 3;
  is_rip7212_supported = false;
  stakes = sample_stakes;
  exceptions = λ title contract slot. [];
  first_titles = account ∷ factory ∷ paymaster ∷ [];
  second_titles = paymaster ∷ account ∷ factory ∷ [];
  writes_first = λ addr. false;
}

abbrev sample_selectors : Selectors
sample_selectors = record { create_sender = 1; validate_paymaster_ai_op = 2; balance_of = 3 }

-- The paymaster uses ADD and reads a balance; a context is read as the number of its bytes.
abbrev sample_return : BundlerCollectorReturn ℕ
sample_return = record {
  calls_from_ai_middleware =
      record no_info { top_level_target_address = 2; opcodes = ("ADD", 1) ∷ ("BALANCE", 1) ∷ [] }
      ∷ [];
  keccak = sample_text ∷ [];
  calls = traced sample_calls;
}

abbrev sample_decode : ℕ → Result ℕ Bytes
sample_decode n = ok (replicate n 0)

validate_trace_lem_example :
    validate_trace {E = ℕ} sample_selectors sample_decode sample_hash
      (λ s. none)
      0
      sample_input
      sample_return
    ≡ ok (record { touched_contracts = 7 ∷ 0 ∷ 2 ∷ []; alt_mempool_ids = [] })
unfolding new_known_entity sort_calls stake_of lookup get_paymaster get_factory address_of count_of
    contains_text returned_calls new_call_stack call_loop push pop traced
validate_trace_lem_example =
    (validate_trace_lem sample_selectors sample_decode sample_hash (λ s. none) 0 sample_input
        sample_return (record { touched_contracts = 7 ∷ 0 ∷ 2 ∷ []; alt_mempool_ids = [] }) first
        second).1
      (
        (
          entities,
          (inl refl, refl, refl),
          stores,
          (inr (λ h. omega arith, inr (λ h. omega arith, refl)), tt),
        ),
        refl,
      )
  where
    first : (t : Title) → has_title t sample_input.first_titles ≡ true
    first account = refl
    first factory = refl
    first paymaster = refl

    second : (t : Title) → has_title t sample_input.second_titles ≡ true
    second account = refl
    second factory = refl
    second paymaster = refl

    entities :
        (t : Title)
        → EntityAllowed 3
            (entity_of (known_of sample_selectors sample_decode sample_input sample_return) t)
    entities account = (refl, refl, tt)
    entities factory = (refl, refl, tt)
    entities paymaster = (refl, refl, ((refl, inr refl), ((refl, inl refl), tt)))

    stores :
        (t : Title)
        → StorageAllowed (
            validator_of sample_input
              (known_of sample_selectors sample_decode sample_input sample_return)
              (slots_of sample_selectors sample_decode sample_hash sample_input sample_return)
              t)
    stores account = (tt, tt)
    stores factory = (tt, tt)
    stores paymaster = (tt, tt)
