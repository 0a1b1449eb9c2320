-- ===== src/Checks/Simulated/Remembered.antt =====
-- What SimulateOp lets through, and what CodeHashes makes of the code hashes that it stored.
use aiops_bundler.Base.{
  ℕ, ◌+◌, ◌<◌, ◌≡◌, refl, ap, ◌∙◌, subst, ◌⊎◌, inl, inr, ◌↔◌, false, not, List, [], ◌∷◌, none, some,
  arith,
}
use aiops_bundler.Base.Tests.{◌==◌, if-true, Option-cases}
use aiops_bundler.Base.Lists.{All}
use aiops_bundler.Base.Dict.{lookup, insert, lookup-insert}
use aiops_bundler.Base.Result.{Result, ok, err, call_iff, Result-cases}
use aiops_bundler.Aiop.{Address, Bytes, AiOperation}
use aiops_bundler.Checks.CodeHash.{
  CodeHash, get_code_hashes, get_code_hashes_loop_lem, hashes, same_code, has_code_hash_changes_lem,
}
use aiops_bundler.Checks.Saved.{Store, save_code_hashes, get_saved_code_hashes, code_hashes_step}
use aiops_bundler.Simulation.Trace.{TraceOutput}
use aiops_bundler.Checks.Simulated.{
  Reading, SimulateInput, SimulationError, ReturnInfo, check_simulation, trace_validation,
  check_tracing, from_database, op_hash, stored, verdict, simulate_op,
}

-- Wait of a group of two returns nil exactly if both goroutines did.
abbrev pub IsWait {ℓ} :
    {F : Type ℓ} → (Result F (Unit {0}) → Result F (Unit {0}) → Result F (Unit {0})) → Type ℓ
IsWait {F} wait = (a b : Result F (Unit {0})) → (wait a b ≡ ok tt) ↔ ((a ≡ ok tt) × (b ≡ ok tt))

module _ {ℓ κ} {E : Type ℓ} {D : Type κ} (r : Reading E D) (s : SimulateInput E D) where
  -- A good signature, and no deadline or one more than 30 seconds away.
  abbrev pub Timely : ReturnInfo → Type 0
  Timely info =
      (info.sig_failed ≡ false) × ((info.valid_until ≡ 0) ⊎ (s.now + 30 < info.valid_until))

  check_simulation_lem :
      (check_simulation r s ≡ ok tt) ↔ ((info : ReturnInfo) × (s.simulated ≡ ok info) × Timely info)
  unfolding check_simulation
  check_simulation_lem = elim (Result-cases s.simulated) [
    | inr (e, f) ↦
        (λ h. let bad = rw (f, check_simulation) at h in cc, λ k. let (info, g, t) = k in cc)
    | inl (info, f) ↦ (
      λ h. (info, f, ground (arith, rw (f, check_simulation) at h)),
      λ k.
          let (other, g, t) = k in
          let same : other ≡ info = cc in
          let timely = subst Timely same t in rw (f, check_simulation) (ground (arith, timely)),
    )
  ]

  -- What the second goroutine stores, if the code of every contract is known.
  abbrev pub remembered : (Address → Bytes) → TraceOutput → List CodeHash
  remembered code out = hashes r.keccak256 s.get_code code out.touched_contracts

  -- The database committed a store with these code hashes under the hash of the operation.
  abbrev pub Remembers : (Address → Bytes) → Store → Store → TraceOutput → Type ℓ
  Remembers code db db' out =
      (s.commit ≡ none) × (db' ≡ insert (op_hash r s) (remembered code out) db)

  get_code_hashes_lem :
      (code : Address → Bytes) (ic : List Address)
      → ((a : Address) → s.get_code a ≡ ok (code a))
      → get_code_hashes r.keccak256 s.get_code ic ≡ ok (hashes r.keccak256 s.get_code code ic)
  unfolding get_code_hashes
  get_code_hashes_lem code ic known =
      get_code_hashes_loop_lem r.keccak256 s.get_code code ic [] (all ic)
    where
      all : (ic : List Address) → All (λ a. s.get_code a ≡ ok (code a)) ic
      all [] = tt
      all (a ∷ ic) = (known a, all ic)

  saving_lem :
      (db db' : Store) (ch : List CodeHash)
      → (from_database r s (save_code_hashes s.commit db (op_hash r s) ch) ≡ ok db')
        ↔ ((s.commit ≡ none) × (db' ≡ insert (op_hash r s) ch db))
  unfolding save_code_hashes
  saving_lem db db' ch = elim (Option-cases s.commit) [
    | inl e ↦ rw e (λ h. (refl, cc), λ k. let same = k.1 in cc)
    | inr (x, e) ↦ rw e (λ h. cc, λ k. let none_left = k.0 in cc)
  ]

  check_tracing_lem :
      (code : Address → Bytes) (db db' : Store)
      → ((a : Address) → s.get_code a ≡ ok (code a))
      → (check_tracing r s db ≡ ok db')
        ↔ ((out : TraceOutput) × (trace_validation r s ≡ ok out) × Remembers code db db' out)
  unfolding check_tracing
  check_tracing_lem code db db' known =
      call_iff (trace_validation r s) _ db' (Remembers code db db') (λ out.
        rw (get_code_hashes_lem code out.touched_contracts known)
          (saving_lem db db' (remembered code out)))

  verdict_lem :
      (t : Result (SimulationError E) Store)
      → (verdict r s t ≡ ok tt) ↔ ((db' : Store) × (t ≡ ok db'))
  verdict_lem (ok db') = (λ h. (db', refl), λ k. refl)
  verdict_lem (err e) = (λ h. cc, λ k. let (db', f) = k in cc)

  -- SimulateOp passes an operation exactly if the simulated validation succeeds with a good signature
  -- and no deadline or one more than 30 seconds away, the trace is allowed, and the database commits.
  -- It then stores the hashes of the code of the contracts that the trace touched, under the hash of
  -- the operation. The node is assumed to know the code of every contract.
  pub simulate_op_lem :
      (wait : Result (SimulationError E) (Unit {0})
        → Result (SimulationError E) (Unit {0})
        → Result (SimulationError E) (Unit {0}))
      (code : Address → Bytes) (db db' : Store)
      → IsWait wait
      → ((a : Address) → s.get_code a ≡ ok (code a))
      → (simulate_op r s wait db ≡ (db', ok tt)) ↔ (
          ((info : ReturnInfo) × (s.simulated ≡ ok info) × Timely info)
          × ((out : TraceOutput) × (trace_validation r s ≡ ok out) × Remembers code db db' out))
  unfolding simulate_op
  simulate_op_lem wait code db db' w known =
      let waited = w (check_simulation r s) (verdict r s (check_tracing r s db)) in
      let traced = verdict_lem (check_tracing r s db) in
      (
        λ h.
            let passed : wait (check_simulation r s) (verdict r s (check_tracing r s db)) ≡ ok tt =
              ap (λ x. x.1) h in
            let (sim, tr) = waited.0 passed in
            let (db'', e) = traced.0 tr in
            let left : stored r s db (check_tracing r s db) ≡ db' = ap (λ x. x.0) h in
            let same : db'' ≡ db' = rw e at left in
            (check_simulation_lem.0 sim, (check_tracing_lem code db db' known).0 (e ∙ ap ok same)),
        λ k.
            let e = (check_tracing_lem code db db' known).1 k.1 in
            let passed = waited.1 (check_simulation_lem.1 k.0, traced.1 (db', e)) in
            rw passed (ap (λ d. (d, ok tt)) (ap (stored r s db) e)),
      )

  code_hashes_step-kept :
      (code new : Address → Bytes) (gc : Address → Result E Bytes) (hash : AiOperation → ℕ)
      (not_found : E) (db db' : Store) (i : ℕ) (out : TraceOutput)
      → ((a : Address) → gc a ≡ ok (new a))
      → hash s.ctx.ai_op ≡ op_hash r s
      → db' ≡ insert (op_hash r s) (remembered code out) db
      → code_hashes_step hash r.keccak256 gc not_found db' i tt s.ctx.ai_op
        ≡ ok (tt, not (same_code r.keccak256 gc code new out.touched_contracts))
  unfolding code_hashes_step get_saved_code_hashes
  code_hashes_step-kept code new gc hash not_found db db' i out known same_hash kept =
      let key = op_hash r s in
      let found : lookup (hash s.ctx.ai_op) db' ≡ some (remembered code out) =
        ap (lookup (hash s.ctx.ai_op)) kept
        ∙ lookup-insert key (hash s.ctx.ai_op) (remembered code out) db
        ∙ if-true (key == hash s.ctx.ai_op) _ _ (ground arith) in
      let compared =
        has_code_hash_changes_lem r.keccak256 gc code new out.touched_contracts
          (all out.touched_contracts) in
      rw (code_hashes_step, get_saved_code_hashes, found, compared) refl
    where
      all : (ic : List Address) → All (λ a. gc a ≡ ok (new a)) ic
      all [] = tt
      all (a ∷ ic) = (known a, all ic)

  -- After SimulateOp passed an operation, CodeHashes finds its code hashes and reports a change exactly
  -- if the code of a contract that the trace touched has another hash than it had.
  pub simulate_op-code_hashes :
      (wait : Result (SimulationError E) (Unit {0})
        → Result (SimulationError E) (Unit {0})
        → Result (SimulationError E) (Unit {0}))
      (code new : Address → Bytes) (gc : Address → Result E Bytes) (hash : AiOperation → ℕ)
      (not_found : E) (db db' : Store) (i : ℕ)
      → IsWait wait
      → ((a : Address) → s.get_code a ≡ ok (code a))
      → ((a : Address) → gc a ≡ ok (new a))
      → hash s.ctx.ai_op ≡ op_hash r s
      → simulate_op r s wait db ≡ (db', ok tt)
      → (out : TraceOutput) × (trace_validation r s ≡ ok out)
        × (code_hashes_step hash r.keccak256 gc not_found db' i tt s.ctx.ai_op
            ≡ ok (tt, not (same_code r.keccak256 gc code new out.touched_contracts)))
  simulate_op-code_hashes wait code new gc hash not_found db db' i w known known' same_hash passed =
      let (sim, (out, traced, (committed, kept))) =
        (simulate_op_lem wait code db db' w known).0 passed in
      (
        out,
        traced,
        code_hashes_step-kept code new gc hash not_found db db' i out known' same_hash kept,
      )
