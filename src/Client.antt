-- ===== src/Client.antt =====
-- pkg/client/client.go: the methods that add an operation to the mempool and that estimate its gas.
-- Logging is left out. The handlers, the stakes, the fees, the gas estimator, the state overrides and
-- the commit of the database are parameters.
pub mod Sending
pub mod Estimating
pub mod Debug
pub mod Examples
use aiops_bundler.Base.{ℕ, ◌+◌, ◌^◌, ◌-◌, Bool, List, [], ◌∷◌, Option, none, some, map}
use aiops_bundler.Base.Tests.{ltb, ◌==◌, if◌then◌else◌}
use aiops_bundler.Base.Int.{ℤ, pos, negsuc}
use aiops_bundler.Base.Result.{Result, ok, err, ◌>>=◌}
use aiops_bundler.Aiop.{Address, Bytes, AiOperation}
use aiops_bundler.Aiop.Hash.{Crypto, get_ai_op_hash}
use aiops_bundler.Aiop.Parse.{Codec, ParseError, RawOp, Text, new}
use aiops_bundler.Modules.{Handler, AiOpHandlerCtx, DepositInfo, new_ai_op_handler_context}
use aiops_bundler.Mempool.{SortedSet, get_ops}
use aiops_bundler.Mempool.Pool.{Mempool, pool_add}
use aiops_bundler.Gas.Overhead.{Overhead, Fault, calc_pre_verification_gas_with_buffer}

-- The errors of the methods: an AiMiddleware that is not supported, a bad operation, one of a call,
-- or one of the calculation of preVerificationGas.
pub data ClientError {ℓ} (E : Type ℓ) : Type ℓ where
  not_supported : ClientError E
  bad_operation : ParseError → ClientError E
  upstream : E → ClientError E
  pvg : Fault E → ClientError E

pub record GasPrices : Type 0 where
  pub max_fee_per_gas : ℕ
  pub max_priority_fee_per_gas : ℕ

-- The fields that are called. `Os` are state overrides as they come, and `Sos` parsed.
pub record Client {ℓ κ μ} (E : Type ℓ) (Os : Type κ) (Sos : Type μ) : Type (ℓ ⊔ κ ⊔ μ) where
  pub supported_ai_middlewares : List Address
  pub chain_id : ℕ
  pub ov : Overhead E
  pub ai_op_handler : Handler E AiOpHandlerCtx
  pub get_gas_prices : Result E GasPrices
  pub get_gas_estimate : Address → AiOperation → Sos → Result E (ℕ × ℕ)
  pub get_stake_func : Address → Address → Result E (Option DepositInfo)
  pub parse_override_data : Os → Result E Sos

-- GasEstimates. A uint64 becomes an int64 and then a big.Int; `none` is a nil.
pub record GasEstimates : Type 0 where
  pub pre_verification_gas : Option ℕ
  pub verification_gas_limit : ℤ
  pub call_gas_limit : ℤ
  pub verification_gas : ℤ

abbrev pub int64 : ℕ → ℤ
int64 n = if ltb n (2 ^ 63) then pos n else negsuc (2 ^ 64 - n - 1)

module _ {ℓ} {E : Type ℓ} where
  abbrev pub outside {κ} : {A : Type κ} → Result E A → Result (ClientError E) A
  outside (ok a) = ok a
  outside (err e) = err (upstream e)

  abbrev pub operation {κ} : {A : Type κ} → Result ParseError A → Result (ClientError E) A
  operation (ok a) = ok a
  operation (err e) = err (bad_operation e)

  abbrev pub gas_of {κ} : {A : Type κ} → Result (Fault E) A → Result (ClientError E) A
  gas_of (ok a) = ok a
  gas_of (err e) = err (pvg e)

  -- `ep` is what HexToAddress makes of the text.
  unfoldable pub parse_ai_middleware_address :
      List Address → Address → Result (ClientError E) Address
  parse_ai_middleware_address [] ep = err not_supported
  parse_ai_middleware_address (addr ∷ rest) ep =
      if ep == addr then ok addr else parse_ai_middleware_address rest ep

module _ {ℓ κ μ ν} {E : Type ℓ} {Os : Type κ} {Sos : Type μ} (S : SortedSet) (V : Type ν)
    (codec : Codec) (crypto : Crypto) (abi : AiOperation → Bytes) (i : Client E Os Sos) where
  -- SendAiOperation up to the mempool: the AiMiddleware, the hash, and the context after the handlers.
  -- The empty sets that a read of the queue creates are left out; no later read tells them from missing
  -- ones.
  unfoldable pub checked_operation :
      RawOp → Text → Mempool S V → Result (ClientError E) (Address × ℕ × AiOpHandlerCtx)
  checked_operation raw ep m =
      parse_ai_middleware_address i.supported_ai_middlewares (codec.hex_to_address ep)
      >>= λ ep_addr. operation (new codec raw) >>= λ ai_op.
          outside (
            new_ai_op_handler_context ai_op ep_addr i.chain_id (λ a e. ok (get_ops S a e m.queue).0)
              i.get_stake_func)
          >>= λ ctx. outside (i.ai_op_handler ctx) >>= λ ctx'.
              ok (ep_addr, get_ai_op_hash crypto ai_op ep_addr i.chain_id, ctx')

  -- SendAiOperation, with the mempool before and after.
  unfoldable pub send_ai_operation :
      (AiOperation → Result E V)
      → Option E
      → RawOp
      → Text
      → Mempool S V
      → Mempool S V × Result (ClientError E) ℕ
  unfolding checked_operation
  send_ai_operation marshal commit raw ep m = elim (checked_operation raw ep m) [
    | err e ↦ (m, err e)
    | ok (ep_addr, hash, ctx) ↦ elim (pool_add S V marshal commit ep_addr ctx.ai_op m) [
      | err e ↦ (m, err (upstream e))
      | ok m' ↦ (m', ok hash)
    ]
  ]

  -- The fees are replaced where maxFeePerGas is not positive.
  abbrev pub priced : AiOperation → Result E AiOperation
  priced op =
      if ltb 0 op.max_fee_per_gas
      then ok op
      else (i.get_gas_prices >>= λ gp. ok (record op {
        max_fee_per_gas = gp.max_fee_per_gas;
        max_priority_fee_per_gas = gp.max_priority_fee_per_gas;
      }))

  unfoldable pub estimate_ai_operation_gas : RawOp → Text → Os → Result (ClientError E) GasEstimates
  estimate_ai_operation_gas raw ep os =
      parse_ai_middleware_address i.supported_ai_middlewares (codec.hex_to_address ep)
      >>= λ ep_addr. operation (new codec raw) >>= λ ai_op.
          outside (i.parse_override_data os) >>= λ sos. outside (priced ai_op) >>= λ op.
          outside (i.get_gas_estimate ep_addr op sos) >>= λ limits.
          gas_of (calc_pre_verification_gas_with_buffer codec abi i.ov op) >>= λ g. ok (record {
            pre_verification_gas = g;
            verification_gas_limit = int64 limits.0;
            call_gas_limit = int64 limits.1;
            verification_gas = int64 limits.0;
          })
