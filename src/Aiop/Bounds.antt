-- ===== src/Aiop/Bounds.antt =====
-- Bounds on the derived values of an operation (pkg/aiop/object.go).
use Prim.Native.Nat.{min}
use aiops_bundler.Base.{ℕ, ◌+◌, ◌≤◌, ◌≡◌, ◌++◌, some, inl, inr, arith}
use aiops_bundler.Base.Tests.{ltb, Bool-cases}
use aiops_bundler.Base.Lists.{length, take, take-append-drop}
use aiops_bundler.Aiop.{
  AiOperation, address_length, get_factory_data, get_max_gas_available, get_dynamic_gas_price,
}

-- The effective price of an operation is the smaller of its fee cap and basefee plus priority fee,
-- so it exceeds neither.
get_dynamic_gas_price-min :
    (op : AiOperation) (b : ℕ)
    → get_dynamic_gas_price op (some b) ≡ min op.max_fee_per_gas (b + op.max_priority_fee_per_gas)
unfolding get_dynamic_gas_price
get_dynamic_gas_price-min op b = ground arith

-- The price never falls as the basefee rises.
get_dynamic_gas_price_mono :
    (op : AiOperation) (a b : ℕ)
    → a ≤ b
    → get_dynamic_gas_price op (some a) ≤ get_dynamic_gas_price op (some b)
unfolding get_dynamic_gas_price
get_dynamic_gas_price_mono op a b h = ground arith

pre_verification_gas-le-available :
    (op : AiOperation) → op.pre_verification_gas ≤ get_max_gas_available op
unfolding get_max_gas_available
pre_verification_gas-le-available op = ground arith

-- The initCode of an operation with a factory is 20 bytes followed by the factory data.
factory_data-suffix :
    (op : AiOperation)
    → address_length ≤ length op.init_code
    → take address_length op.init_code ++ get_factory_data op ≡ op.init_code
unfolding get_factory_data
factory_data-suffix op h = elim (Bool-cases (ltb (length op.init_code) address_length)) [
  | inl short ↦ absurd (ground arith)
  | inr long ↦ ground (arith, take-append-drop address_length op.init_code)
]
