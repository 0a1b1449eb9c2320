-- ===== src/Checks/Values/Accepts.antt =====
-- Which operations each validation of Checks.Values lets through.
use aiops_bundler.Base.{
  ℕ, ◌-◌, ◌+◌, ◌≤◌, true, not, [], ◌∷◌, ◌≢◌, Option, none, some, ◌≡◌, ◌↔◌, ◌⊎◌, arith,
}
use aiops_bundler.Base.Lists.{length}
use aiops_bundler.Base.Result.{Result, ok}
use aiops_bundler.Aiop.{
  Address, Bytes, AiOperation, address_length, zero_address, get_paymaster, get_factory,
  get_max_gas_available, get_max_prefund,
}
use aiops_bundler.Modules.{DepositInfo}
use aiops_bundler.Checks.Values.{
  is_empty, validate_sender, validate_init_code, validate_call_gas_limit, validate_gas_available,
  validate_fee_per_gas, validate_verification_gas, validate_paymaster_and_data,
}

abbrev pub FeesAccepted : AiOperation → Option ℕ → Type 0
FeesAccepted op none = op.max_priority_fee_per_gas ≡ op.max_fee_per_gas
FeesAccepted op (some b) =
    (op.max_priority_fee_per_gas ≤ op.max_fee_per_gas) × (b ≤ op.max_fee_per_gas)

-- GetStakeWithEthClient gives no deposit for the zero address.
abbrev pub Covered : AiOperation → Option DepositInfo → Type 0
Covered op none = ⊥
Covered op (some d) = get_max_prefund op ≤ d.deposit

abbrev pub PaymasterAccepted : AiOperation → Option DepositInfo → Bytes → Type 0
PaymasterAccepted op dep code =
    (op.paymaster_and_data ≡ [])
    ⊎ ((address_length ≤ length op.paymaster_and_data) × (code ≢ []) × Covered op dep)

pub is_empty_iff : (bs : Bytes) → (is_empty bs ≡ true) ↔ (bs ≡ [])
is_empty_iff [] = ground arith
is_empty_iff (b ∷ bs) = ground arith

module _ {ℓ} {E : Type ℓ} where
  -- With the sender's code read, the operation passes exactly if it is either deployed or brings an
  -- initCode, and not both.
  pub validate_sender_lem :
      (op : AiOperation) (gc : Address → Result E Bytes) (code : Bytes)
      → gc op.sender ≡ ok code
      → (validate_sender op gc ≡ ok tt) ↔ (is_empty code ≡ not (is_empty op.init_code))
  unfolding validate_sender
  validate_sender_lem op gc code h = rw h (ground arith)

  pub validate_fee_per_gas_lem :
      (op : AiOperation) (gbf : Result E (Option ℕ)) (bf : Option ℕ)
      → gbf ≡ ok bf
      → (validate_fee_per_gas op gbf ≡ ok tt) ↔ FeesAccepted op bf
  unfolding validate_fee_per_gas
  validate_fee_per_gas_lem op gbf none h = rw h (ground arith)
  validate_fee_per_gas_lem op gbf (some b) h = rw h (ground arith)

  pub validate_init_code_lem :
      (op : AiOperation)
      → (validate_init_code {E = E} op ≡ ok tt)
        ↔ ((op.init_code ≡ []) ⊎ (get_factory op ≢ zero_address))
  unfolding validate_init_code
  validate_init_code_lem op = ground (arith, is_empty_iff op.init_code)

  pub validate_gas_available_lem :
      (op : AiOperation) (static : Result E ℕ) (s max_batch_gas_limit : ℕ)
      → static ≡ ok s
      → (validate_gas_available op static max_batch_gas_limit ≡ ok tt)
        ↔ (get_max_gas_available op - op.pre_verification_gas + s ≤ max_batch_gas_limit)
  unfolding validate_gas_available
  validate_gas_available_lem op static s max_batch_gas_limit h = rw h (ground arith)

  pub validate_call_gas_limit_lem :
      (op : AiOperation) (cg : ℕ)
      → (validate_call_gas_limit {E = E} op cg ≡ ok tt) ↔ (cg ≤ op.call_gas_limit)
  unfolding validate_call_gas_limit
  validate_call_gas_limit_lem op cg = ground arith

  pub validate_verification_gas_lem :
      (op : AiOperation) (pvg : Result E ℕ) (g max_verification_gas : ℕ)
      → pvg ≡ ok g
      → (validate_verification_gas op pvg max_verification_gas ≡ ok tt)
        ↔ ((op.verification_gas_limit ≤ max_verification_gas) × (g ≤ op.pre_verification_gas))
  unfolding validate_verification_gas
  validate_verification_gas_lem op pvg g max_verification_gas h = rw h (ground arith)

  -- An operation without paymasterAndData passes; one with it passes exactly if the data holds an
  -- address, code is deployed there, and a deposit there covers the maximal prefund.
  pub validate_paymaster_and_data_lem :
      (op : AiOperation) (dep : Option DepositInfo) (gc : Address → Result E Bytes) (code : Bytes)
      → gc (get_paymaster op) ≡ ok code
      → (validate_paymaster_and_data op dep gc ≡ ok tt) ↔ PaymasterAccepted op dep code
  unfolding validate_paymaster_and_data
  validate_paymaster_and_data_lem op none gc code h =
      rw h (ground (arith, is_empty_iff op.paymaster_and_data, is_empty_iff code))
  validate_paymaster_and_data_lem op (some d) gc code h =
      rw h (ground (arith, is_empty_iff op.paymaster_and_data, is_empty_iff code))
