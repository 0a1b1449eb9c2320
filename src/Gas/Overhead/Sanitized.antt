-- ===== src/Gas/Overhead/Sanitized.antt =====
-- What CalcPreVerificationGas does not look at (pkg/gas/overhead.go).
use aiops_bundler.Base.{ℕ, ◌≡◌, refl, ap, some, none}
use aiops_bundler.Base.Lists.{length}
use aiops_bundler.Base.Result.{ok, ◌>>=◌}
use aiops_bundler.Aiop.{Bytes, AiOperation, get_factory, get_factory_data}
use aiops_bundler.Aiop.Parse.{Codec, new, to_map}
use aiops_bundler.Gas.Overhead.{
  Overhead, parsed, called, sanitize, static_gas, calc_pre_verification_gas,
}

module _ {ℓ} {E : Type ℓ} (codec : Codec) (abi : AiOperation → Bytes) (ov : Overhead E) where
  sanitize_same :
      (op : AiOperation) (pvg vgl cgl : ℕ) (s : Bytes)
      → length s ≡ length op.signature
      → sanitize codec abi ov (record op {
        pre_verification_gas = pvg;
        verification_gas_limit = vgl;
        call_gas_limit = cgl;
        signature = s;
      })
        ≡ sanitize codec abi ov op
  unfolding sanitize to_map get_factory get_factory_data
  sanitize_same op pvg vgl cgl s e = rw e refl

  -- The preVerificationGas that is expected of an operation does not depend on the gas limits that it
  -- states, nor on its signature but for the length.
  calc_pre_verification_gas-sanitized :
      (op : AiOperation) (pvg vgl cgl : ℕ) (s : Bytes)
      → length s ≡ length op.signature
      → calc_pre_verification_gas codec abi ov (record op {
        pre_verification_gas = pvg;
        verification_gas_limit = vgl;
        call_gas_limit = cgl;
        signature = s;
      })
        ≡ calc_pre_verification_gas codec abi ov op
  unfolding calc_pre_verification_gas
  calc_pre_verification_gas-sanitized op pvg vgl cgl s e =
      ap
        (λ raw. parsed (new codec raw) >>= λ tmp.
          called (ov.calc_pvg_func tmp (static_gas codec abi ov tmp)) >>= λ g.
          ok (elim g [ some v ↦ v | none ↦ static_gas codec abi ov tmp ]))
        (sanitize_same op pvg vgl cgl s e)
