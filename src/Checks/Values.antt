-- ===== src/Checks/Values.antt =====
-- The validations of single operations: sender.go, initcode.go, callgas.go, gas.go, gasfee.go,
-- verificationgas.go, paymaster.go and pendingops.go of pkg/modules/checks. GetCodeFunc and
-- GetBaseFeeFunc ask an eth client and are parameters, as is the static gas of the overhead.
pub mod Accepts
pub mod Replacement
pub mod Group
use aiops_bundler.Base.{
  ℕ, ◌+◌, ◌-◌, ◌*◌, ◌/◌, Bool, true, false, not, ◌&&◌, ◌||◌, List, [], ◌∷◌, Option, none, some,
}
use aiops_bundler.Base.Tests.{ltb, leb, ◌==◌, if◌then◌else◌}
use aiops_bundler.Base.Lists.{length}
use aiops_bundler.Base.Result.{Result, ok, err, ◌>>=◌}
use aiops_bundler.Aiop.{
  Address, Bytes, AiOperation, address_length, zero_address, get_paymaster, get_factory,
  get_max_gas_available, get_max_prefund,
}
use aiops_bundler.Modules.{DepositInfo}

-- The errors, each with the numbers that its text shows; `upstream` is the error of a call.
pub data Invalid {ℓ} (E : Type ℓ) : Type ℓ where
  upstream : E → Invalid E
  sender_not_deployed sender_already_deployed : Invalid E
  init_code_address : Invalid E
  call_gas_below : ℕ → Invalid E
  exceeds_max_batch_gas_limit : ℕ → Invalid E
  legacy_fee_mode fee_below_priority_fee fee_below_base_fee : Invalid E
  exceeds_max_verification_gas : ℕ → Invalid E
  pre_verification_gas_below : ℕ → Invalid E
  paymaster_invalid_length paymaster_not_deployed paymaster_deposit_too_low : Invalid E
  replacement_underpriced : Invalid E
  -- A nil pointer is read: Go panics.
  nil_deposit : Invalid E

abbrev pub Verdict {ℓ} : Type ℓ → Type ℓ
Verdict E = Result (Invalid E) (Unit {0})

abbrev pub calling {ℓ κ} : {E : Type ℓ} {A : Type κ} → Result E A → Result (Invalid E) A
calling (ok a) = ok a
calling (err e) = err (upstream e)

abbrev pub is_empty : Bytes → Bool
is_empty bs = length bs == 0

abbrev pub min_price_bump : ℕ
min_price_bump = 10

-- calcNewThresholds for one of the two fees.
unfoldable pub new_threshold : ℕ → ℕ
new_threshold fee = (100 + min_price_bump) * fee / 100

-- The loop over the pending operations: the last one of the nonce.
unfoldable pub find_old_op :
    AiOperation → List AiOperation → Option AiOperation → Option AiOperation
find_old_op op [] old_op = old_op
find_old_op op (pen_op ∷ rest) old_op =
    find_old_op op rest (if op.nonce == pen_op.nonce then some pen_op else old_op)

module _ {ℓ} {E : Type ℓ} where
  unfoldable pub validate_sender : AiOperation → (Address → Result E Bytes) → Verdict E
  validate_sender op gc = calling (gc op.sender) >>= λ bytecode.
      if is_empty bytecode && is_empty op.init_code
      then err sender_not_deployed
      else if not (is_empty bytecode) && not (is_empty op.init_code)
      then err sender_already_deployed
      else ok tt

  unfoldable pub validate_init_code : AiOperation → Verdict E
  validate_init_code op =
      if is_empty op.init_code
      then ok tt
      else if get_factory op == zero_address
      then err init_code_address
      else ok tt

  -- `cg` is NonZeroValueCall of the overhead.
  unfoldable pub validate_call_gas_limit : AiOperation → ℕ → Verdict E
  validate_call_gas_limit op cg =
      if ltb op.call_gas_limit cg then err (call_gas_below cg) else ok tt

  -- `static` is CalcPreVerificationGas of the default overhead.
  unfoldable pub validate_gas_available : AiOperation → Result E ℕ → ℕ → Verdict E
  validate_gas_available op static max_batch_gas_limit = calling static >>= λ s.
      let mgl = get_max_gas_available op - op.pre_verification_gas in
      let mga = mgl + s in
      if ltb max_batch_gas_limit mga
      then err (exceeds_max_batch_gas_limit max_batch_gas_limit)
      else ok tt

  unfoldable pub validate_fee_per_gas : AiOperation → Result E (Option ℕ) → Verdict E
  validate_fee_per_gas op gbf = calling gbf >>= λ bf. elim bf [
    | none ↦
        if op.max_priority_fee_per_gas == op.max_fee_per_gas then ok tt else err legacy_fee_mode
    | some b ↦
        if ltb op.max_fee_per_gas op.max_priority_fee_per_gas
        then err fee_below_priority_fee
        else if ltb op.max_fee_per_gas b
        then err fee_below_base_fee
        else ok tt
  ]

  -- `pvg` is CalcPreVerificationGas of the overhead.
  unfoldable pub validate_verification_gas : AiOperation → Result E ℕ → ℕ → Verdict E
  validate_verification_gas op pvg max_verification_gas =
      if ltb max_verification_gas op.verification_gas_limit
      then err (exceeds_max_verification_gas max_verification_gas)
      else (calling pvg >>= λ g.
          if ltb op.pre_verification_gas g then err (pre_verification_gas_below g) else ok tt)

  -- The deposit is nil only for the zero address.
  unfoldable pub validate_paymaster_and_data :
      AiOperation → Option DepositInfo → (Address → Result E Bytes) → Verdict E
  validate_paymaster_and_data op dep gc =
      if is_empty op.paymaster_and_data
      then ok tt
      else if ltb (length op.paymaster_and_data) address_length
      then err paymaster_invalid_length
      else (calling (gc (get_paymaster op)) >>= λ bytecode.
          if is_empty bytecode then err paymaster_not_deployed else elim dep [
            | none ↦ err nil_deposit
            | some d ↦
                if ltb d.deposit (get_max_prefund op) then err paymaster_deposit_too_low else ok tt
          ])

  unfoldable pub validate_pending_ops : AiOperation → List AiOperation → Verdict E
  unfolding find_old_op new_threshold
  validate_pending_ops op pen_ops = elim (find_old_op op pen_ops none) [
    | none ↦ ok tt
    | some old_op ↦
        if ltb op.max_fee_per_gas (new_threshold old_op.max_fee_per_gas)
          || ltb op.max_priority_fee_per_gas (new_threshold old_op.max_priority_fee_per_gas)
        then err replacement_underpriced
        else ok tt
  ]
