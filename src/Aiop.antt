-- ===== src/Aiop.antt =====
-- pkg/aiop/object.go: the AiOperation and the values derived from it.
-- An operation that aiop.New has accepted has no negative number, so its big.Int fields are ℕ.
-- An address is written as the number that its 20 bytes spell; the zero address is 0.
pub mod Bounds
pub mod Parse
pub mod Hash
pub mod Examples
use aiops_bundler.Base.{ℕ, ◌+◌, ◌*◌, Bool, List, [], ◌∷◌, Option, none, some}
use aiops_bundler.Base.Tests.{ltb, ◌==◌, if◌then◌else◌}
use aiops_bundler.Base.Lists.{length, take, drop}

abbrev pub Address : Type 0
Address = ℕ

abbrev pub Bytes : Type 0
Bytes = List ℕ

pub record AiOperation : Type 0 where
  pub sender : Address
  pub nonce : ℕ
  pub init_code : Bytes
  pub call_data : Bytes
  pub call_gas_limit : ℕ
  pub verification_gas_limit : ℕ
  pub pre_verification_gas : ℕ
  pub max_fee_per_gas : ℕ
  pub max_priority_fee_per_gas : ℕ
  pub paymaster_and_data : Bytes
  pub signature : Bytes

abbrev pub address_length : ℕ
address_length = 20

abbrev pub zero_address : Address
zero_address = 0

-- The number that a byte string spells, most significant byte first.
unfoldable pub address_of : ℕ → Bytes → Address
address_of acc [] = acc
address_of acc (b ∷ bs) = address_of (acc * 256 + b) bs

unfoldable pub get_paymaster : AiOperation → Address
unfolding address_of
get_paymaster op =
    if ltb (length op.paymaster_and_data) address_length
    then zero_address
    else address_of 0 (take address_length op.paymaster_and_data)

unfoldable pub get_factory : AiOperation → Address
unfolding address_of
get_factory op =
    if ltb (length op.init_code) address_length
    then zero_address
    else address_of 0 (take address_length op.init_code)

unfoldable pub get_factory_data : AiOperation → Bytes
get_factory_data op =
    if ltb (length op.init_code) address_length then [] else drop address_length op.init_code

-- The verification limit counts three times if a paymaster is named.
unfoldable pub get_max_gas_available : AiOperation → ℕ
get_max_gas_available op =
    let mul : ℕ = if get_paymaster op == zero_address then 1 else 3 in
    op.verification_gas_limit * mul + (op.pre_verification_gas + op.call_gas_limit)

unfoldable pub get_max_prefund : AiOperation → ℕ
get_max_prefund op = get_max_gas_available op * op.max_fee_per_gas

-- A missing basefee counts as 0.
unfoldable pub get_dynamic_gas_price : AiOperation → Option ℕ → ℕ
get_dynamic_gas_price op basefee =
    let bf : ℕ = elim basefee [ none ↦ 0 | some b ↦ b ] in
    let gp = bf + op.max_priority_fee_per_gas in
    if ltb op.max_fee_per_gas gp then op.max_fee_per_gas else gp
