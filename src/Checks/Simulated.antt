-- ===== src/Checks/Simulated.antt =====
-- SimulateOp (pkg/modules/checks/standalone.go): a simulated validation and a traced one, in two
-- goroutines of an errgroup. The node's answers, the clock and the commit of the database are
-- parameters.
pub mod Remembered
use aiops_bundler.Base.{ℕ, ◌+◌, String, Bool, not, ◌&&◌, List, [], Option, none, some, ◌≡◌, ◌↔◌}
use aiops_bundler.Base.Tests.{leb, ◌==◌, if◌then◌else◌}
use aiops_bundler.Base.Dict.{insert}
use aiops_bundler.Base.Result.{Result, ok, err, ◌>>=◌}
use aiops_bundler.Errors.{
  RpcError, rejected_by_ep_or_account, invalid_signature, short_deadline, banned_opcode,
}
use aiops_bundler.Aiop.{Address, Bytes, AiOperation, get_factory, get_paymaster}
use aiops_bundler.Aiop.Hash.{Crypto, get_ai_op_hash}
use aiops_bundler.Modules.{AiOpHandlerCtx}
use aiops_bundler.Checks.CodeHash.{CodeHash, get_code_hashes}
use aiops_bundler.Checks.Saved.{Store, save_code_hashes}
use aiops_bundler.Simulation.{Slot, EntityStakes, Title, Named}
use aiops_bundler.Simulation.Trace.{
  Selectors, BundlerCollectorReturn, TraceInput, TraceOutput, TraceError, validate_trace,
}

-- What the errors say.
pub data Problem {ℓ} (E : Type ℓ) : Type ℓ where
  upstream : E → Problem E
  bad_signature expires_too_soon : Problem E
  bad_trace : TraceError E → Problem E

-- An RPC error, or the error of the database as it is.
pub data SimulationError {ℓ} (E : Type ℓ) : Type ℓ where
  rpc : RpcError (Problem E) → SimulationError E
  database : E → SimulationError E

-- The part of ReturnInfo of a ValidationResultRevert that is read.
pub record ReturnInfo : Type 0 where
  pub sig_failed : Bool
  pub valid_until : ℕ

-- The context with what the closures call: the two simulations, the code of contracts and the fields
-- of Standalone. The orders in which Go ranges over maps are those of TraceInput.
pub record SimulateInput {ℓ κ} (E : Type ℓ) (D : Type κ) : Type (ℓ ⊔ κ) where
  pub ctx : AiOpHandlerCtx
  pub simulated : Result E ReturnInfo
  pub traced : Result E (BundlerCollectorReturn D)
  pub get_code : Address → Result E Bytes
  pub now : ℕ
  pub commit : Option E
  pub is_rip7212_supported : Bool
  pub exceptions : Title → Named → Slot → List String
  pub first_titles : List Title
  pub second_titles : List Title
  pub writes_first : Address → Bool

-- The map of stakes: a later key replaces an earlier one.
abbrev pub stakes_of : AiOpHandlerCtx → EntityStakes
stakes_of ctx = insert (get_paymaster ctx.ai_op) ctx.paymaster_deposit (
    insert (get_factory ctx.ai_op) ctx.factory_deposit
      (insert ctx.ai_op.sender ctx.sender_deposit []))

-- The abi, big.Int and keccak that the trace is read with.
pub record Reading {ℓ κ} (E : Type ℓ) (D : Type κ) : Type (ℓ ⊔ κ) where
  pub selectors : Selectors
  pub decode : D → Result E Bytes
  pub keccak256 : Bytes → ℕ
  pub set_string : String → Option ℕ
  pub no_data : D
  pub crypto : Crypto

module _ {ℓ κ} {E : Type ℓ} {D : Type κ} (r : Reading E D) (s : SimulateInput E D) where
  abbrev pub simulation_error : Problem E → SimulationError E
  simulation_error p = rpc (record { code = rejected_by_ep_or_account; message = p })

  abbrev pub tracing_error : Problem E → SimulationError E
  tracing_error p = rpc (record { code = banned_opcode; message = p })

  -- The first goroutine. A deadline of 0 is none; one within 30 seconds is too soon.
  unfoldable pub check_simulation : Result (SimulationError E) (Unit {0})
  check_simulation = elim s.simulated [
    | err e ↦ err (simulation_error (upstream e))
    | ok info ↦
        if info.sig_failed
        then err (rpc (record { code = invalid_signature; message = bad_signature }))
        else if not (info.valid_until == 0) && leb info.valid_until (s.now + 30)
        then err (rpc (record { code = short_deadline; message = expires_too_soon }))
        else ok tt
  ]

  abbrev pub trace_input : TraceInput
  trace_input = record {
    op = s.ctx.ai_op;
    ai_middleware = s.ctx.ai_middleware;
    is_rip7212_supported = s.is_rip7212_supported;
    stakes = stakes_of s.ctx;
    exceptions = s.exceptions;
    first_titles = s.first_titles;
    second_titles = s.second_titles;
    writes_first = s.writes_first;
  }

  abbrev pub as_banned {μ ν} :
      {F : Type μ} {A : Type ν} → (F → Problem E) → Result F A → Result (SimulationError E) A
  as_banned problem (ok a) = ok a
  as_banned problem (err e) = err (tracing_error (problem e))

  -- TraceSimulateValidation, with the error that its caller makes of its own.
  unfoldable pub trace_validation : Result (SimulationError E) TraceOutput
  unfolding validate_trace
  trace_validation = as_banned upstream s.traced >>= λ res.
      as_banned bad_trace
        (validate_trace r.selectors r.decode r.keccak256 r.set_string r.no_data trace_input res)

  abbrev pub from_database {μ} : {A : Type μ} → Result E A → Result (SimulationError E) A
  from_database (ok a) = ok a
  from_database (err e) = err (database e)

  abbrev pub op_hash : ℕ
  op_hash = get_ai_op_hash r.crypto s.ctx.ai_op s.ctx.ai_middleware s.ctx.chain_id

  -- The second goroutine, with the store that it leaves.
  unfoldable pub check_tracing : Store → Result (SimulationError E) Store
  unfolding trace_validation get_code_hashes save_code_hashes
  check_tracing db = trace_validation >>= λ out.
      as_banned upstream (get_code_hashes r.keccak256 s.get_code out.touched_contracts) >>= λ ch.
      from_database (save_code_hashes s.commit db op_hash ch)

  abbrev pub stored : Store → Result (SimulationError E) Store → Store
  stored db (ok db') = db'
  stored db (err e) = db

  abbrev pub verdict : Result (SimulationError E) Store → Result (SimulationError E) (Unit {0})
  verdict (ok db') = ok tt
  verdict (err e) = err e

  -- SimulateOp. Both goroutines run to their end: code hashes are stored also for an operation whose
  -- simulation fails. `wait` is the Wait of the group.
  unfoldable pub simulate_op :
      (Result (SimulationError E) (Unit {0})
        → Result (SimulationError E) (Unit {0})
        → Result (SimulationError E) (Unit {0}))
      → Store
      → Store × Result (SimulationError E) (Unit {0})
  unfolding check_simulation check_tracing
  simulate_op wait db =
      (stored db (check_tracing db), wait check_simulation (verdict (check_tracing db)))
