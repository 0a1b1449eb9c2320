-- ===== src/Simulation/Trace.antt =====
-- pkg/aimiddleware/simulation/tracevalidation.go: the checks on the trace of a simulated validation.
-- The trace comes from the node, and the data of a call's return is read by abi; both are parameters.
pub mod Entities
pub mod Checked
use text.Mathlib.Text.{◌==◌ as str_eq}
use aiops_bundler.Base.{
  ℕ, String, Bool, true, false, not, ◌&&◌, ◌||◌, List, [], ◌∷◌, ◌++◌, Option, none, some,
}
use aiops_bundler.Base.Tests.{ltb, ◌==◌, if◌then◌else◌}
use aiops_bundler.Base.Lists.{length}
use aiops_bundler.Base.Dict.{Dict, lookup}
use aiops_bundler.Base.Result.{Result, ok, err, ◌>>=◌}
use aiops_bundler.Aiop.{Address, Bytes, AiOperation}
use aiops_bundler.Simulation.{
  Slot, ContractSizeInfo, CallFromAiMiddlewareInfo, EntityStakes, Title, account, factory,
  paymaster, Entity, KnownEntity, entity_of, new_known_entity, Named, addr2_known_entity,
}
use aiops_bundler.Simulation.Slots.{
  Violation, StorageSlotsValidator, has_init_code, owned, new_storage_slots_by_entity, process,
}
use aiops_bundler.Simulation.Calls.{CallInfo, CallEntry, new_call_stack}

abbrev pub create2_op_code : String
create2_op_code = "CREATE2"

abbrev pub banned_op_codes : List String
banned_op_codes =
    "GASPRICE" ∷ "GASLIMIT" ∷ "DIFFICULTY" ∷ "TIMESTAMP" ∷ "BASEFEE" ∷ "BLOCKHASH" ∷ "NUMBER"
    ∷ "ORIGIN" ∷ "GAS" ∷ "CREATE" ∷ "COINBASE" ∷ "SELFDESTRUCT" ∷ []

abbrev pub banned_unstaked_op_codes : List String
banned_unstaked_op_codes = "SELFBALANCE" ∷ "BALANCE" ∷ []

unfoldable pub contains_text : String → List String → Bool
contains_text s [] = false
contains_text s (t ∷ ts) = str_eq t s || contains_text s ts

unfoldable pub count_of : String → List (String × ℕ) → Option ℕ
count_of s [] = none
count_of s ((t, n) ∷ counts) = if str_eq t s then some n else count_of s counts

-- The selectors of the methods that the checks know.
pub record Selectors : Type 0 where
  pub create_sender : ℕ
  pub validate_paymaster_ai_op : ℕ
  pub balance_of : ℕ

-- What the tracer returns.
pub record BundlerCollectorReturn {ℓ} (D : Type ℓ) : Type ℓ where
  pub calls_from_ai_middleware : List CallFromAiMiddlewareInfo
  pub keccak : List Bytes
  pub calls : List (CallInfo D)

-- `exceptions` is the directory of alternative mempools. The orders of the titles are those in which
-- Go ranges over the known entities, first to check their opcodes and then their storage.
pub record TraceInput : Type 0 where
  pub op : AiOperation
  pub ai_middleware : Address
  pub is_rip7212_supported : Bool
  pub stakes : EntityStakes
  pub exceptions : Title → Named → Slot → List String
  pub first_titles : List Title
  pub second_titles : List Title
  pub writes_first : Address → Bool

-- The touched contracts are a set, as the list of its elements.
pub record TraceOutput : Type 0 where
  pub touched_contracts : List Address
  pub alt_mempool_ids : List String

-- The errors, with what their text shows.
pub data TraceError {ℓ} (E : Type ℓ) : Type ℓ where
  out_of_gas ext_code_access : Title → TraceError E
  banned_opcode unstaked_banned_opcode : Title → String → TraceError E
  too_many_create2 : TraceError E
  storage : Violation → TraceError E
  unexpected_result : E → TraceError E
  unstaked_context : TraceError E
  balance_of_call : Named → TraceError E
  value_transfer : Named → Named → TraceError E

abbrev pub has_key {ℓ} : {A : Type ℓ} → Option A → Bool
has_key none = false
has_key (some a) = true

abbrev pub many : Option ℕ → Bool
many none = false
many (some n) = ltb 1 n

abbrev pub create2_of : KnownEntity → Title → Option ℕ
create2_of known title = count_of create2_op_code (entity_of known title).info.opcodes

module _ {ℓ} {E : Type ℓ} where
  unfoldable pub check_opcodes : Title → Bool → List (String × ℕ) → Result (TraceError E) (Unit {0})
  check_opcodes title staked [] = ok tt
  check_opcodes title staked ((opcode, n) ∷ rest) =
      if contains_text opcode banned_op_codes
      then err (banned_opcode title opcode)
      else if not staked && contains_text opcode banned_unstaked_op_codes
      then err (unstaked_banned_opcode title opcode)
      else check_opcodes title staked rest

  unfoldable pub check_entity : Address → Title → Entity → Result (TraceError E) (Unit {0})
  check_entity ai_middleware title entity =
      if entity.info.oog
      then err (out_of_gas title)
      else if has_key (lookup ai_middleware entity.info.ext_code_access_info)
      then err (ext_code_access title)
      else check_opcodes title entity.is_staked entity.info.opcodes

  unfoldable pub check_entities :
      Address → KnownEntity → List Title → Result (TraceError E) (Unit {0})
  check_entities ai_middleware known [] = ok tt
  check_entities ai_middleware known (title ∷ titles) =
      check_entity ai_middleware title (entity_of known title) >>= λ u.
      check_entities ai_middleware known titles

  unfoldable pub check_create2 : AiOperation → KnownEntity → Result (TraceError E) (Unit {0})
  check_create2 op known =
      if has_key (create2_of known factory)
        && (many (create2_of known factory) || not (has_init_code op))
      then err too_many_create2
      else if has_key (create2_of known account)
      then err (banned_opcode account create2_op_code)
      else if has_key (create2_of known paymaster)
      then err (banned_opcode paymaster create2_op_code)
      else ok tt

  abbrev pub storing {μ} : {A : Type μ} → Result Violation A → Result (TraceError E) A
  storing (ok a) = ok a
  storing (err v) = err (storage v)

  -- What a validatePaymasterAiOp returned.
  abbrev pub check_context : Bool → Result E Bytes → Result (TraceError E) (Unit {0})
  check_context staked (err e) = err (unexpected_result e)
  check_context staked (ok context) =
      if not (length context == 0) && not staked then err unstaked_context else ok tt

-- Add of the set.
abbrev pub add_address : Address → List Address → List Address
add_address a [] = a ∷ []
add_address a (b ∷ set) = if a == b then b ∷ set else b ∷ add_address a set

abbrev pub add_keys : Dict ContractSizeInfo → List Address → List Address
add_keys [] set = set
add_keys ((a, info) ∷ rest) set = add_keys rest (add_address a set)

abbrev pub touched : KnownEntity → List Title → List Address → List Address
touched known [] set = set
touched known (title ∷ titles) set = touched known titles (
    add_keys (entity_of known title).info.contract_size
      (add_address (entity_of known title).address set))

abbrev pub validator_of :
    TraceInput → KnownEntity → Dict (List Slot) → Title → StorageSlotsValidator
validator_of i known slots title = record {
  op = i.op;
  ai_middleware = i.ai_middleware;
  is_rip7212_supported = i.is_rip7212_supported;
  exceptions = i.exceptions;
  writes_first = i.writes_first;
  sender_slots = owned i.op.sender slots;
  factory_is_staked = known.factory_entity.is_staked;
  entity_name = title;
  entity_addr = (entity_of known title).address;
  entity_access_map = (entity_of known title).info.access;
  entity_contract_size_map = (entity_of known title).info.contract_size;
  entity_slots = owned (entity_of known title).address slots;
  entity_is_staked = (entity_of known title).is_staked;
}

module _ {ℓ κ} {E : Type ℓ} {D : Type κ} (selectors : Selectors) (decode : D → Result E Bytes) where
  unfoldable pub check_storage :
      TraceInput
      → KnownEntity
      → Dict (List Slot)
      → List Title
      → List String
      → Result (TraceError E) (List String)
  check_storage i known slots [] ids = ok ids
  check_storage i known slots (title ∷ titles) ids =
      storing (process (validator_of i known slots title)) >>= λ more.
      check_storage i known slots titles (ids ++ more)

  unfoldable pub check_call :
      TraceInput → KnownEntity → CallEntry D → Result (TraceError E) (Unit {0})
  check_call i known c =
      if c.method == selectors.validate_paymaster_ai_op
      then check_context known.paymaster_entity.is_staked (decode c.returned)
      else if (c.to == i.ai_middleware) && (c.method == selectors.balance_of)
      then err (balance_of_call (addr2_known_entity i.op c.from))
      else if not (c.to == i.ai_middleware) && ltb 0 c.value
      then err (value_transfer (addr2_known_entity i.op c.from) (addr2_known_entity i.op c.to))
      else ok tt

  unfoldable pub check_calls :
      TraceInput → KnownEntity → List (CallEntry D) → Result (TraceError E) (Unit {0})
  check_calls i known [] = ok tt
  check_calls i known (c ∷ calls) = check_call i known c >>= λ u. check_calls i known calls

  -- The part of TraceSimulateValidation after the trace.
  unfoldable pub validate_trace :
      (Bytes → Slot)
      → (String → Option ℕ)
      → D
      → TraceInput
      → BundlerCollectorReturn D
      → Result (TraceError E) TraceOutput
  validate_trace keccak256 set_string nil i res =
      let known =
        new_known_entity selectors.create_sender i.op res.calls_from_ai_middleware i.stakes in
      let slots = new_storage_slots_by_entity keccak256 i.stakes res.keccak in
      check_entities i.ai_middleware known i.first_titles >>= λ u. check_create2 i.op known >>= λ w.
      check_storage i known slots i.second_titles [] >>= λ ids.
      check_calls i known (new_call_stack set_string nil res.calls) >>= λ x.
      ok (record { touched_contracts = touched known i.first_titles []; alt_mempool_ids = ids })
