-- ===== src/Start/Receiving/Passing.antt =====
-- What an operation has passed that the client's handlers let in.
use aiops_bundler.Base.{ℕ, Bool, true, ◌&&◌, Option, ◌≡◌, refl, sym, ap, ◌∙◌, ◌↔◌}
use aiops_bundler.Base.Result.{Result, ok, err, ◌>>=◌}
use aiops_bundler.Modules.{compose_handlers}
use aiops_bundler.Aiop.{Address, Bytes, get_factory, get_paymaster}
use aiops_bundler.Checks.Values.Group
use aiops_bundler.Checks.Values.Group.{validate_op_values, Acceptable, validate_op_values_lem}
use aiops_bundler.Checks.Simulated.{ReturnInfo, trace_validation, simulate_op}
use aiops_bundler.Checks.Simulated.Remembered
use aiops_bundler.Checks.Simulated.Remembered.{Timely, Remembers, simulate_op_lem}
use aiops_bundler.Simulation.Trace.{TraceOutput}
use aiops_bundler.Entities.Reads.{counts, NoErrors}
use aiops_bundler.Entities.Standing.{
  may_enter, unless_zero, below_limits, passes, check_status_lem, validate_op_limit_lem,
}
use aiops_bundler.Entities.{Store as CounterStore}
use aiops_bundler.Entities.Handlers.{check_status, validate_op_limit, inc_ops_seen}
use aiops_bundler.Start.Receiving.{
  OpState, ModuleError, OpServices, values_of, simulation_of, failing, op_handler, refused, invalid,
  unsimulated, uncounted,
}

module _ {ℓ κ} {E : Type ℓ} {D : Type κ} (v : OpServices E D) where
  handler-elim {μ ν ξ} :
      {F : Type μ} {A : Type ν} {Q : Type ξ} (as_error : F → ModuleError E) (r : Result F A)
      (f : A → OpState) (next : OpState → Result (ModuleError E) OpState) (last : OpState)
      → ((failing v as_error r >>= λ a. ok (f a)) >>= next) ≡ ok last
      → ((a : A) → r ≡ ok a → next (f a) ≡ ok last → Q)
      → Q
  handler-elim as_error (ok a) f next last h rest = rest a refl h
  handler-elim as_error (err e) f next last h rest = cc

  -- Each of the handlers, in its turn, from the state that the last one left.
  abbrev Passed : OpState → OpState → Type ℓ
  Passed s t =
      (status : CounterStore) × (check_status v.txn v.now v.constants s.ctx s.counters ≡ ok status)
      × (validate_op_limit {E = E} v.constants s.ctx ≡ ok tt)
      × (validate_op_values v.wait_values (values_of v s.ctx) ≡ ok tt)
      × ((simulate_op v.reading (simulation_of v s.ctx) v.wait_simulations s.saved).1 ≡ ok tt)
      × (t.saved ≡ (simulate_op v.reading (simulation_of v s.ctx) v.wait_simulations s.saved).0)
      × (inc_ops_seen v.txn v.now s.ctx status ≡ ok t.counters)
      × (t.ctx ≡ s.ctx)

  abbrev pub in_good_standing : OpState → Bool
  in_good_standing s =
      may_enter v.constants (counts v.now s.counters s.ctx.ai_op.sender) s.ctx.pending_sender_ops
      && (unless_zero (get_factory s.ctx.ai_op) (
            may_enter v.constants (counts v.now s.counters (get_factory s.ctx.ai_op))
              s.ctx.pending_factory_ops)
          && unless_zero (get_paymaster s.ctx.ai_op) (
              may_enter v.constants (counts v.now s.counters (get_paymaster s.ctx.ai_op))
                s.ctx.pending_paymaster_ops))

  -- The simulation and the trace of the operation are good, and its code hashes stored.
  abbrev pub Simulated : (Address → Bytes) → OpState → OpState → Type ℓ
  Simulated code s t =
      let i = simulation_of v s.ctx in
      ((info : ReturnInfo) × (v.simulate s.ctx ≡ ok info) × Timely v.reading i info)
      × ((out : TraceOutput) × (trace_validation v.reading i ≡ ok out)
          × Remembers v.reading i code s.saved t.saved out)

  -- The handlers of the client let an operation in exactly if CheckStatus, ValidateOpLimit,
  -- ValidateOpValues, SimulateOp and IncOpsSeen all pass, of which each sees the same context; it keeps
  -- the code hashes that SimulateOp stored and the counters that CheckStatus and then IncOpsSeen left.
  op_handler_lem : (s t : OpState) → (op_handler v s ≡ ok t) ↔ Passed s t
  unfolding op_handler compose_handlers
  op_handler_lem s t = (
    λ h.
        let sim = simulate_op v.reading (simulation_of v s.ctx) v.wait_simulations s.saved in
        handler-elim refused (check_status v.txn v.now v.constants s.ctx s.counters)
          (λ db. record s { counters = db }) _ t h
          λ status e1 r1.
            let s1 : OpState = record s { counters = status } in
            handler-elim refused (validate_op_limit v.constants s.ctx) (λ u. s1) _ t r1
              λ u e2 r2.
                handler-elim invalid (validate_op_values v.wait_values (values_of v s.ctx))
                  (λ w. s1) _ t r2
                  λ w e3 r3.
                    handler-elim unsimulated sim.1 (λ x. record s1 { saved = sim.0 }) _ t r3
                      λ x e4 r4.
                        handler-elim uncounted (inc_ops_seen v.txn v.now s.ctx status)
                          (λ db. record s1 { saved = sim.0; counters = db }) _ t r4
                          λ db e5 r5.
                            let last : record s1 { saved = sim.0; counters = db } ≡ t = cc in
                            (
                              status,
                              e1,
                              e2,
                              e3,
                              e4,
                              ap (λ o. o.saved) (sym last),
                              e5 ∙ ap (λ o. ok o.counters) last,
                              ap (λ o. o.ctx) (sym last),
                            ),
    λ k.
        let (status, e1, e2, e3, e4, saved, e5, same) = k in
        let sim = simulate_op v.reading (simulation_of v s.ctx) v.wait_simulations s.saved in
        rw (e1, e2, e3, e4, e5)
          (ap (λ c. ok (record t { ctx = c; saved = sim.0 })) (sym same)
            ∙ ap (λ db. ok (record t { saved = db })) (sym saved)),
  )

  -- The handlers keep the context, whatever they read and write.
  op_handler-ctx : (s t : OpState) → op_handler v s ≡ ok t → t.ctx ≡ s.ctx
  op_handler-ctx s t h =
      let (status, e1, e2, e3, e4, saved, e5, same) = (op_handler_lem s t).0 h in same

  -- If the database does not fail, the errgroups wait as documented and the node knows the code of
  -- every address, the base fee and the gas, an operation that the client's handlers let in has
  -- entities that are not banned and, when throttled, not at the limit of pending operations;
  -- entities that are staked or not at the limit of pending operations; acceptable values; a
  -- simulation with a good signature and no near deadline; and a trace that passes validation, of
  -- which the hashes of the touched contracts' code are stored. The handlers keep the context.
  pub op_handler-admits :
      (code : Address → Bytes) (bf : Option ℕ) (pvg static : ℕ) (s t : OpState)
      → NoErrors v.txn
      → Group.IsWait v.wait_values
      → Remembered.IsWait v.wait_simulations
      → ((a : Address) → v.get_code a ≡ ok (code a))
      → v.get_base_fee ≡ ok bf
      → v.pvg s.ctx.ai_op ≡ ok pvg
      → v.static s.ctx.ai_op ≡ ok static
      → op_handler v s ≡ ok t
      → (in_good_standing s ≡ true)
        × (below_limits v.constants s.ctx ≡ true)
        × Acceptable s.ctx.ai_op
            (pvg, static, v.non_zero_value_call, v.max_verification_gas, v.max_batch_gas_limit)
            (code s.ctx.ai_op.sender)
            (code (get_paymaster s.ctx.ai_op))
            bf
            s.ctx.paymaster_deposit
            s.ctx.pending_sender_ops
        × Simulated code s t
        × (t.ctx ≡ s.ctx)
  op_handler-admits code bf pvg static s t no_errors wv ws known hb hp hs h =
      let (status, e1, e2, e3, e4, saved, e5, same) = (op_handler_lem s t).0 h in
      let run = simulate_op v.reading (simulation_of v s.ctx) v.wait_simulations s.saved in
      let ran : run ≡ (t.saved, ok tt) =
        ap (λ db. (db, run.1)) (sym saved) ∙ ap (λ r. (t.saved, r)) e4 in
      (
        sym (check_status_lem v.txn v.now v.constants s.ctx s.counters no_errors) ∙ ap passes e1,
        sym (validate_op_limit_lem E v.constants s.ctx) ∙ ap passes e2,
        (validate_op_values_lem v.wait_values (values_of v s.ctx) (code s.ctx.ai_op.sender)
              (code (get_paymaster s.ctx.ai_op)) bf pvg static wv (known s.ctx.ai_op.sender)
              (known (get_paymaster s.ctx.ai_op)) hb hp hs).0
            e3,
        (simulate_op_lem v.reading (simulation_of v s.ctx) v.wait_simulations code s.saved t.saved
              ws known).0
            ran,
        same,
      )
