-- ===== src/Start/Receiving.antt =====
-- internal/start/private.go: the composition of the client's handlers. They pass the context on as it
-- is, and write the counters of the entities and the code hashes. After an error the stores are not
-- followed; the counters are then as they were, and code hashes may have been stored.
pub mod Passing
pub mod Examples
use aiops_bundler.Base.{ℕ, String, Bool, List, [], ◌∷◌, Option}
use aiops_bundler.Base.Result.{Result, ok, err, ◌>>=◌}
use aiops_bundler.Aiop.{Address, Bytes, AiOperation}
use aiops_bundler.Errors.{RpcError}
use aiops_bundler.Modules.{AiOpHandlerCtx, Handler, compose_handlers}
use aiops_bundler.Checks.Saved.{Store as CodeStore}
use aiops_bundler.Checks.Values.{Invalid, Verdict}
use aiops_bundler.Checks.Values.Group.{ValuesInput, validate_op_values}
use aiops_bundler.Checks.Simulated.{
  Reading, ReturnInfo, SimulateInput, SimulationError, simulate_op,
}
use aiops_bundler.Entities.{Store as CounterStore, Txn, ReputationConstants, Refusal}
use aiops_bundler.Entities.Handlers.{check_status, validate_op_limit, inc_ops_seen}
use aiops_bundler.Simulation.{Slot, Title, Named}
use aiops_bundler.Simulation.Trace.{BundlerCollectorReturn}

pub record OpState : Type 0 where
  pub ctx : AiOpHandlerCtx
  pub counters : CounterStore
  pub saved : CodeStore

-- The errors of the handlers.
pub data ModuleError {ℓ} (E : Type ℓ) : Type ℓ where
  refused : Refusal E → ModuleError E
  invalid : RpcError (Invalid E) → ModuleError E
  unsimulated : SimulationError E → ModuleError E
  uncounted : List E → ModuleError E

-- What the handlers call, and the configured limits.
pub record OpServices {ℓ κ} (E : Type ℓ) (D : Type κ) : Type (ℓ ⊔ κ) where
  pub txn : Txn E
  pub now : ℕ
  pub constants : ReputationConstants
  pub get_code : Address → Result E Bytes
  pub get_base_fee : Result E (Option ℕ)
  pub pvg : AiOperation → Result E ℕ
  pub static : AiOperation → Result E ℕ
  pub non_zero_value_call : ℕ
  pub max_verification_gas : ℕ
  pub max_batch_gas_limit : ℕ
  pub wait_values : List (Verdict E) → Verdict E
  pub wait_simulations :
      Result (SimulationError E) (Unit {0})
      → Result (SimulationError E) (Unit {0})
      → Result (SimulationError E) (Unit {0})
  pub reading : Reading E D
  pub simulate : AiOpHandlerCtx → Result E ReturnInfo
  pub trace : AiOpHandlerCtx → Result E (BundlerCollectorReturn D)
  pub commit : Option E
  pub is_rip7212_supported : Bool
  pub exceptions : Title → Named → Slot → List String
  pub first_titles : List Title
  pub second_titles : List Title
  pub writes_first : Address → Bool

module _ {ℓ κ} {E : Type ℓ} {D : Type κ} (v : OpServices E D) where
  abbrev pub values_of : AiOpHandlerCtx → ValuesInput E
  values_of ctx = record {
    op = ctx.ai_op;
    gc = v.get_code;
    gbf = v.get_base_fee;
    pvg = v.pvg ctx.ai_op;
    static = v.static ctx.ai_op;
    non_zero_value_call = v.non_zero_value_call;
    max_verification_gas = v.max_verification_gas;
    max_batch_gas_limit = v.max_batch_gas_limit;
    paymaster_deposit = ctx.paymaster_deposit;
    pending_sender_ops = ctx.pending_sender_ops;
  }

  abbrev pub simulation_of : AiOpHandlerCtx → SimulateInput E D
  simulation_of ctx = record {
    ctx = ctx;
    simulated = v.simulate ctx;
    traced = v.trace ctx;
    get_code = v.get_code;
    now = v.now;
    commit = v.commit;
    is_rip7212_supported = v.is_rip7212_supported;
    exceptions = v.exceptions;
    first_titles = v.first_titles;
    second_titles = v.second_titles;
    writes_first = v.writes_first;
  }

  abbrev pub failing {μ ν} :
      {F : Type μ} {A : Type ν} → (F → ModuleError E) → Result F A → Result (ModuleError E) A
  failing as_error (ok a) = ok a
  failing as_error (err e) = err (as_error e)

  abbrev pub checking_status : Handler (ModuleError E) OpState
  checking_status s =
      failing refused (check_status v.txn v.now v.constants s.ctx s.counters) >>= λ db.
      ok (record s { counters = db })

  abbrev pub checking_limit : Handler (ModuleError E) OpState
  checking_limit s = failing refused (validate_op_limit v.constants s.ctx) >>= λ u. ok s

  abbrev pub checking_values : Handler (ModuleError E) OpState
  checking_values s =
      failing invalid (validate_op_values v.wait_values (values_of s.ctx)) >>= λ u. ok s

  abbrev pub simulating : Handler (ModuleError E) OpState
  simulating s =
      let (db, r) = simulate_op v.reading (simulation_of s.ctx) v.wait_simulations s.saved in
      failing unsimulated r >>= λ u. ok (record s { saved = db })

  abbrev pub counting_seen : Handler (ModuleError E) OpState
  counting_seen s = failing uncounted (inc_ops_seen v.txn v.now s.ctx s.counters) >>= λ db.
      ok (record s { counters = db })

  -- The handlers that PrivateMode gives to UseModules of the client, composed.
  unfoldable pub op_handler : Handler (ModuleError E) OpState
  unfolding compose_handlers
  op_handler =
      compose_handlers
        (checking_status ∷ checking_limit ∷ checking_values ∷ simulating ∷ counting_seen ∷ [])
