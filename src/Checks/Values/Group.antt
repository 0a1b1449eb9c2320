-- ===== src/Checks/Values/Group.antt =====
-- ValidateOpValues (pkg/modules/checks/standalone.go:75-95): eight validations in goroutines of an
-- errgroup. Its Wait is a parameter, with what its documentation promises as a hypothesis.
use aiops_bundler.Base.{
  ℕ, ◌+◌, ◌-◌, ◌≤◌, not, List, [], ◌∷◌, Option, none, ◌≡◌, ◌≢◌, ◌⊎◌, ◌↔◌, arith,
}
use aiops_bundler.Base.Lists.{All, keep}
use aiops_bundler.Base.Result.{Result, ok, err}
use aiops_bundler.Aiop.{
  Address, Bytes, AiOperation, zero_address, get_paymaster, get_factory, get_max_gas_available,
}
use aiops_bundler.Errors.{RpcError, invalid_fields}
use aiops_bundler.Modules.{DepositInfo}
use aiops_bundler.Checks.Values.{
  Invalid, Verdict, is_empty, validate_sender, validate_init_code, validate_call_gas_limit,
  validate_gas_available, validate_fee_per_gas, validate_verification_gas,
  validate_paymaster_and_data, validate_pending_ops,
}
use aiops_bundler.Checks.Values.Accepts.{
  FeesAccepted, PaymasterAccepted, validate_sender_lem, validate_init_code_lem,
  validate_call_gas_limit_lem, validate_gas_available_lem, validate_fee_per_gas_lem,
  validate_verification_gas_lem, validate_paymaster_and_data_lem,
}
use aiops_bundler.Checks.Values.Replacement.{same_nonce, last_or, Outbids, validate_pending_ops_lem}

-- The values that the handler's closures read: the operation, the node's answers, the limits of
-- Standalone, and the entries of the context.
pub record ValuesInput {ℓ} (E : Type ℓ) : Type ℓ where
  pub op : AiOperation
  pub gc : Address → Result E Bytes
  pub gbf : Result E (Option ℕ)
  pub pvg : Result E ℕ
  pub static : Result E ℕ
  pub non_zero_value_call : ℕ
  pub max_verification_gas : ℕ
  pub max_batch_gas_limit : ℕ
  pub paymaster_deposit : Option DepositInfo
  pub pending_sender_ops : List AiOperation

abbrev pub verdicts {ℓ} : {E : Type ℓ} → ValuesInput E → List (Verdict E)
verdicts v =
    validate_sender v.op v.gc
    ∷ validate_init_code v.op
    ∷ validate_verification_gas v.op v.pvg v.max_verification_gas
    ∷ validate_paymaster_and_data v.op v.paymaster_deposit v.gc
    ∷ validate_call_gas_limit v.op v.non_zero_value_call
    ∷ validate_fee_per_gas v.op v.gbf
    ∷ validate_pending_ops v.op v.pending_sender_ops
    ∷ validate_gas_available v.op v.static v.max_batch_gas_limit
    ∷ []

-- The wrapping of the group's error.
abbrev pub as_rpc_error {ℓ} : {E : Type ℓ} → Verdict E → Result (RpcError (Invalid E)) (Unit {0})
as_rpc_error (ok u) = ok u
as_rpc_error (err e) = err (record { code = invalid_fields; message = e })

unfoldable pub validate_op_values {ℓ} :
    {E : Type ℓ}
    → (List (Verdict E) → Verdict E)
    → ValuesInput E
    → Result (RpcError (Invalid E)) (Unit {0})
validate_op_values wait v = as_rpc_error (wait (verdicts v))

-- Wait returns nil exactly if every goroutine returned nil.
abbrev pub IsWait {ℓ} : {E : Type ℓ} → (List (Verdict E) → Verdict E) → Type ℓ
IsWait {E = E} wait = (vs : List (Verdict E)) → (wait vs ≡ ok tt) ↔ All (λ v. v ≡ ok tt) vs

-- What a new operation must satisfy, given the code of the sender and of the paymaster.
abbrev pub Acceptable :
    AiOperation
    → (ℕ × ℕ × ℕ × ℕ × ℕ)
    → Bytes
    → Bytes
    → Option ℕ
    → Option DepositInfo
    → List AiOperation
    → Type 0
Acceptable op (pvg, static, cg, max_ver, max_batch) sender_code paymaster_code bf dep pen_ops =
    (is_empty sender_code ≡ not (is_empty op.init_code))
    × ((op.init_code ≡ []) ⊎ (get_factory op ≢ zero_address))
    × ((op.verification_gas_limit ≤ max_ver) × (pvg ≤ op.pre_verification_gas))
    × PaymasterAccepted op dep paymaster_code
    × (cg ≤ op.call_gas_limit)
    × FeesAccepted op bf
    × Outbids op (last_or (keep (same_nonce op) pen_ops) none)
    × (get_max_gas_available op - op.pre_verification_gas + static ≤ max_batch)

module _ {ℓ} {E : Type ℓ} where
  as_rpc_error_lem : (r : Verdict E) → (as_rpc_error r ≡ ok tt) ↔ (r ≡ ok tt)
  as_rpc_error_lem (ok u) = ground arith
  as_rpc_error_lem (err e) = ground arith

  validate_op_values-wait :
      (wait : List (Verdict E) → Verdict E) (v : ValuesInput E)
      → IsWait wait
      → (validate_op_values wait v ≡ ok tt) ↔ All (λ r. r ≡ ok tt) (verdicts v)
  unfolding validate_op_values
  validate_op_values-wait wait v w =
      let wrapped = as_rpc_error_lem (wait (verdicts v)) in
      let waited = w (verdicts v) in (λ h. waited.0 (wrapped.0 h), λ h. wrapped.1 (waited.1 h))

  -- However the goroutines are scheduled, ValidateOpValues passes an operation exactly if it
  -- satisfies all eight conditions, given the node's answers for the code of the sender and of the
  -- paymaster's address, the fees and the gas. The deposit is the one in the context, or none for an
  -- operation without a paymaster, which then passes only if its paymasterAndData is empty.
  pub validate_op_values_lem :
      (wait : List (Verdict E) → Verdict E) (v : ValuesInput E) (sender_code paymaster_code : Bytes)
      (bf : Option ℕ) (pvg static : ℕ)
      → IsWait wait
      → v.gc v.op.sender ≡ ok sender_code
      → v.gc (get_paymaster v.op) ≡ ok paymaster_code
      → v.gbf ≡ ok bf
      → v.pvg ≡ ok pvg
      → v.static ≡ ok static
      → (validate_op_values wait v ≡ ok tt)
        ↔ Acceptable v.op
            (pvg, static, v.non_zero_value_call, v.max_verification_gas, v.max_batch_gas_limit)
            sender_code
            paymaster_code
            bf
            v.paymaster_deposit
            v.pending_sender_ops
  validate_op_values_lem wait v sc pc bf pvg static w hs hp hb hv ht =
      let all = validate_op_values-wait wait v w in
      let sender = validate_sender_lem v.op v.gc sc hs in
      let init = validate_init_code_lem {E = E} v.op in
      let verification = validate_verification_gas_lem v.op v.pvg pvg v.max_verification_gas hv in
      let paymaster = validate_paymaster_and_data_lem v.op v.paymaster_deposit v.gc pc hp in
      let call = validate_call_gas_limit_lem {E = E} v.op v.non_zero_value_call in
      let fees = validate_fee_per_gas_lem v.op v.gbf bf hb in
      let pending = validate_pending_ops_lem {E = E} v.op v.pending_sender_ops in
      let gas = validate_gas_available_lem v.op v.static static v.max_batch_gas_limit ht in
      (
        λ h.
            let (a, (b, (c, (p, (e, (f, (g, (i, u)))))))) = all.0 h in
            (
              sender.0 a,
              init.0 b,
              verification.0 c,
              paymaster.0 p,
              call.0 e,
              fees.0 f,
              pending.0 g,
              gas.0 i,
            ),
        λ (a, b, c, p, e, f, g, i). all.1 (
          sender.1 a,
          (
            init.1 b,
            (
              verification.1 c,
              (paymaster.1 p, (call.1 e, (fees.1 f, (pending.1 g, (gas.1 i, tt))))),
            ),
          ),
        ),
      )
