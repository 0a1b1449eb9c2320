-- ===== src/Gas/Overhead/Static.antt =====
-- The size of the static gas and of the buffer (pkg/gas/overhead.go, internal/utils/buffer.go).
use aiops_bundler.Base.{ℕ, ◌+◌, ◌*◌, ◌/◌, ◌≤◌, ◌≡◌, refl, [], ◌∷◌, some, arith}
use aiops_bundler.Base.Lists.{length}
use aiops_bundler.Base.Result.{Result, ok, err, >>=-eq-ok}
use aiops_bundler.Aiop.{Bytes, AiOperation}
use aiops_bundler.Aiop.Parse.{Codec, ParseError, new}
use aiops_bundler.Gas.Overhead.{
  Overhead, parsed, new_default_overhead, byte_costs, add_buffer, pack, sanitize, static_gas,
  calc_pre_verification_gas,
}

module _ {ℓ} {E : Type ℓ} where
  parsed-ok {κ} :
      {A : Type κ} (r : Result ParseError A) {a : A} → parsed {E = E} r ≡ ok a → r ≡ ok a
  parsed-ok (ok b) e = cc
  parsed-ok (err x) e = cc

  abbrev default_ov : Overhead E
  default_ov = new_default_overhead

  byte_costs_bounds :
      (ov : Overhead E) (bs : Bytes) (cost : ℕ)
      → ov.zero_byte ≡ 4
      → ov.non_zero_byte ≡ 16
      → (cost + 4 * length bs ≤ byte_costs ov bs cost)
        × (byte_costs ov bs cost ≤ cost + 16 * length bs)
  unfolding byte_costs
  byte_costs_bounds ov [] cost z n = omega arith
  byte_costs_bounds ov (b ∷ bs) cost z n = ground (
    arith,
    byte_costs_bounds ov bs (cost + ov.zero_byte),
    byte_costs_bounds ov bs (cost + ov.non_zero_byte),
  )

  module _ (codec : Codec) (abi : AiOperation → Bytes) where
    -- Under the default overhead the preVerificationGas is the fixed gas of a bundle and an operation,
    -- 25 for each word and between 4 and 16 for each byte of the packed operation, as it comes out of
    -- the sanitizing.
    calc_pre_verification_gas_bounds :
        (op : AiOperation) (g : ℕ)
        → calc_pre_verification_gas codec abi default_ov op ≡ ok g
        → (tmp : AiOperation) × (new codec (sanitize codec abi default_ov op) ≡ ok tmp)
          × (let size = length (pack abi tmp) in
              (43874 + 25 * ((size + 31) / 32) + 4 * size ≤ g)
              × (g ≤ 43874 + 25 * ((size + 31) / 32) + 16 * size))
    unfolding calc_pre_verification_gas new_default_overhead static_gas
    calc_pre_verification_gas_bounds op g e =
        let (tmp, fresh, rest) =
          >>=-eq-ok (parsed (new codec (sanitize codec abi default_ov op))) _ e in
        let total : static_gas codec abi default_ov tmp ≡ g = cc rest in
        let costs = byte_costs_bounds default_ov (pack abi tmp) 0 refl refl in
        (tmp, parsed-ok _ fresh, (omega (arith, costs.0, total), omega (arith, costs.1, total)))

-- A buffer never lowers the gas, and raises it by its percentage, rounded down to a tenth of it.
add_buffer_bounds :
    (amt factor : ℕ)
    → (v : ℕ) × (add_buffer (some amt) factor ≡ some v)
      × (amt ≤ v)
      × (100 * v ≤ amt * (100 + factor))
unfolding add_buffer
add_buffer_bounds amt factor = (amt * (1000 + factor * 10) / 1000, refl, omega arith, omega arith)
