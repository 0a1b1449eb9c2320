-- ===== src/Gas/Overhead.antt =====
-- pkg/gas/overhead.go, calcPVGFuncNoop of pkg/gas/pvg.go, and internal/utils/buffer.go.
-- The float64 parameters are whole numbers, and so are all values computed from them: below 2^53 they
-- are exact, so they are ℕ. The ABI encoder is a parameter.
pub mod Sanitized
pub mod Static
use aiops_bundler.Base.{ℕ, ◌+◌, ◌*◌, ◌/◌, ◌≡◌, refl, Bool, List, [], ◌∷◌, Option, none, some}
use aiops_bundler.Base.Tests.{◌==◌, if◌then◌else◌}
use aiops_bundler.Base.Lists.{length, drop, replicate}
use aiops_bundler.Base.Result.{Result, ok, err, ◌>>=◌}
use aiops_bundler.Aiop.{Bytes, AiOperation}
use aiops_bundler.Aiop.Parse.{Codec, ParseError, RawOp, text, new, to_map}

-- An error of the program's parser, or one of a call outside it.
pub data Fault {ℓ} (E : Type ℓ) : Type ℓ where
  parse : ParseError → Fault E
  upstream : E → Fault E

abbrev pub parsed {ℓ κ} : {E : Type ℓ} {A : Type κ} → Result ParseError A → Result (Fault E) A
parsed (ok a) = ok a
parsed (err e) = err (parse e)

abbrev pub called {ℓ κ} : {E : Type ℓ} {A : Type κ} → Result E A → Result (Fault E) A
called (ok a) = ok a
called (err e) = err (upstream e)

abbrev pub CalcPreVerificationGasFunc {ℓ} : Type ℓ → Type ℓ
CalcPreVerificationGasFunc E = AiOperation → ℕ → Result E (Option ℕ)

pub record Overhead {ℓ} (E : Type ℓ) : Type ℓ where
  pub intrinsic_fixed : ℕ
  pub per_ai_op_fixed : ℕ
  pub per_ai_op_multiplier : ℕ
  pub zero_byte : ℕ
  pub non_zero_byte : ℕ
  pub min_bundle_size : ℕ
  pub warm_storage_read : ℕ
  pub call_with_value : ℕ
  pub call_opcode : ℕ
  pub non_zero_value_stipend : ℕ
  pub sanitized_pvg : ℕ
  pub sanitized_vgl : ℕ
  pub sanitized_cgl : ℕ
  pub calc_pvg_func : CalcPreVerificationGasFunc E
  pub pvg_buffer_factor : ℕ

abbrev pub calc_pvg_func_noop {ℓ} : {E : Type ℓ} → CalcPreVerificationGasFunc E
calc_pvg_func_noop op static = ok none

unfoldable pub new_default_overhead {ℓ} : {E : Type ℓ} → Overhead E
new_default_overhead = record {
  intrinsic_fixed = 21000;
  per_ai_op_fixed = 22874;
  per_ai_op_multiplier = 25;
  zero_byte = 4;
  non_zero_byte = 16;
  min_bundle_size = 1;
  warm_storage_read = 100;
  call_with_value = 9000;
  call_opcode = 700;
  non_zero_value_stipend = 2300;
  sanitized_pvg = 100000;
  sanitized_vgl = 1000000;
  sanitized_cgl = 1000000;
  calc_pvg_func = calc_pvg_func_noop;
  pvg_buffer_factor = 0;
}

-- AddBuffer; nil stays nil.
unfoldable pub add_buffer : Option ℕ → ℕ → Option ℕ
add_buffer none factor = none
add_buffer (some amt) factor = some (amt * (1000 + factor * 10) / 1000)

-- Pack of pkg/aiop/object.go, which drops the first word of the encoded tuple.
unfoldable pub pack : (AiOperation → Bytes) → AiOperation → Bytes
pack abi op = drop 32 (abi op)

module _ {ℓ} {E : Type ℓ} where
  unfoldable pub set_calc_pre_verification_gas_func :
      Overhead E → CalcPreVerificationGasFunc E → Overhead E
  set_calc_pre_verification_gas_func ov fn = record ov { calc_pvg_func = fn }

  unfoldable pub set_pre_verification_gas_buffer_factor : Overhead E → ℕ → Overhead E
  set_pre_verification_gas_buffer_factor ov factor = record ov { pvg_buffer_factor = factor }

  -- The loop of CalcCallDataCost.
  unfoldable pub byte_costs : Overhead E → Bytes → ℕ → ℕ
  byte_costs ov [] cost = cost
  byte_costs ov (b ∷ bs) cost =
      byte_costs ov bs (cost + (if b == 0 then ov.zero_byte else ov.non_zero_byte))

  unfoldable pub non_zero_value_call : Overhead E → ℕ
  non_zero_value_call ov =
      ov.call_opcode + ov.call_with_value + ov.warm_storage_read + ov.non_zero_value_stipend

  module _ (codec : Codec) (abi : AiOperation → Bytes) where
    unfoldable pub calc_call_data_cost : Overhead E → AiOperation → ℕ
    unfolding pack byte_costs
    calc_call_data_cost ov op = byte_costs ov (pack abi op) 0

    unfoldable pub calc_per_ai_op_cost : Overhead E → AiOperation → ℕ
    unfolding pack
    calc_per_ai_op_cost ov op =
        let op_len = (length (pack abi op) + 31) / 32 in
        ov.per_ai_op_multiplier * op_len + ov.per_ai_op_fixed

    -- The map with the fields that vary in length replaced.
    unfoldable pub sanitize : Overhead E → AiOperation → RawOp
    sanitize ov op =
        let mapped = to_map codec op in
        record mapped {
          pre_verification_gas = some (text (codec.encode_big ov.sanitized_pvg));
          verification_gas_limit = some (text (codec.encode_big ov.sanitized_vgl));
          call_gas_limit = some (text (codec.encode_big ov.sanitized_cgl));
          signature = some (text (codec.encode (replicate (length op.signature) 1)));
        }

    unfoldable pub static_gas : Overhead E → AiOperation → ℕ
    unfolding calc_call_data_cost calc_per_ai_op_cost
    static_gas ov tmp =
        let batch_ov = ov.intrinsic_fixed / ov.min_bundle_size + calc_call_data_cost ov tmp in
        batch_ov + calc_per_ai_op_cost ov tmp

    unfoldable pub calc_pre_verification_gas : Overhead E → AiOperation → Result (Fault E) ℕ
    unfolding sanitize static_gas
    calc_pre_verification_gas ov op = do
      tmp ← parsed (new codec (sanitize ov op))
      g ← called (ov.calc_pvg_func tmp (static_gas ov tmp))
      ok (elim g [ some v ↦ v | none ↦ static_gas ov tmp ])

    unfoldable pub calc_pre_verification_gas_with_buffer :
        Overhead E → AiOperation → Result (Fault E) (Option ℕ)
    unfolding add_buffer
    calc_pre_verification_gas_with_buffer ov op =
        calc_pre_verification_gas ov op >>= λ pvg. ok (add_buffer (some pvg) ov.pvg_buffer_factor)
