-- ===== src/Aiop/Parse/Roundtrip.antt =====
-- An operation read back from its own map (pkg/aiop/parse.go, pkg/aiop/object.go).
use aiops_bundler.Base.{◌≡◌, ◌≢◌, refl, ap, ◌∙◌, false, [], ◌++◌, some, arith, inl, inr}
use aiops_bundler.Base.Tests.{◌==◌, if◌then◌else◌, Bool-cases}
use aiops_bundler.Base.Int.{pos}
use aiops_bundler.Base.Result.{ok}
use aiops_bundler.Aiop.{Bytes, AiOperation, zero_address, get_factory, get_factory_data}
use aiops_bundler.Aiop.Parse.{Codec, byte_string, new, to_map}

-- The formats of go-ethereum read back what they wrote, for the values of one operation.
pub record ReadsBack (codec : Codec) (op : AiOperation) : Type 0 where
  pub sender : codec.hex_to_address (codec.address_text op.sender) ≡ op.sender
  pub nonce : codec.set_string (codec.encode_big op.nonce) ≡ some (pos op.nonce)
  pub call_gas_limit :
      codec.set_string (codec.encode_big op.call_gas_limit) ≡ some (pos op.call_gas_limit)
  pub verification_gas_limit :
      codec.set_string (codec.encode_big op.verification_gas_limit)
      ≡ some (pos op.verification_gas_limit)
  pub pre_verification_gas :
      codec.set_string (codec.encode_big op.pre_verification_gas)
      ≡ some (pos op.pre_verification_gas)
  pub max_fee_per_gas :
      codec.set_string (codec.encode_big op.max_fee_per_gas) ≡ some (pos op.max_fee_per_gas)
  pub max_priority_fee_per_gas :
      codec.set_string (codec.encode_big op.max_priority_fee_per_gas)
      ≡ some (pos op.max_priority_fee_per_gas)
  pub factory :
      get_factory op ≢ zero_address
      → byte_string
          (codec.address_text (get_factory op) ++ codec.bytes_to_hex (get_factory_data op))
        ≡ some op.init_code
  pub call_data : byte_string (codec.encode op.call_data) ≡ some op.call_data
  pub paymaster_and_data :
      byte_string (codec.encode op.paymaster_and_data) ≡ some op.paymaster_and_data
  pub signature : byte_string (codec.encode op.signature) ≡ some op.signature

-- The operation as its map keeps it: an initCode that names no factory is lost.
abbrev pub kept_init_code : AiOperation → Bytes
kept_init_code op = if get_factory op == zero_address then [] else op.init_code

-- An operation with a sender comes back from its map as it was, but for an initCode without a
-- factory, which comes back empty.
pub new-to_map :
    (codec : Codec) (op : AiOperation)
    → ReadsBack codec op
    → op.sender ≢ zero_address
    → new codec (to_map codec op) ≡ ok (record op { init_code = kept_init_code op })
unfolding new to_map byte_string
new-to_map codec op r s =
    let named : (op.sender == zero_address) ≡ false = ground arith in
    elim (Bool-cases (get_factory op == zero_address)) [
      | inl without ↦
          rw (without, r.sender, r.nonce, r.call_data, r.call_gas_limit, new, to_map)
            (rw (r.verification_gas_limit, r.pre_verification_gas, r.max_fee_per_gas)
              (rw (r.max_priority_fee_per_gas, r.paymaster_and_data, r.signature, named) refl))
      | inr with_factory ↦
          rw (with_factory, r.sender, r.nonce, r.factory (ground arith), new, to_map)
            (rw (r.call_data, r.call_gas_limit, r.verification_gas_limit, r.pre_verification_gas)
              (rw (r.max_fee_per_gas, r.max_priority_fee_per_gas, r.paymaster_and_data)
                (rw (r.signature, named) refl)))
    ]

-- An operation whose map reads back as it is: its fields do, and its initCode is empty or names a
-- factory.
abbrev pub Restorable : Codec → AiOperation → Type 0
Restorable codec op =
    ReadsBack codec op × (op.sender ≢ zero_address) × (kept_init_code op ≡ op.init_code)

pub Restorable-new :
    (codec : Codec) (op : AiOperation) → Restorable codec op → new codec (to_map codec op) ≡ ok op
Restorable-new codec op (reads, sender, same) =
    new-to_map codec op reads sender ∙ ap (λ c. ok (record op { init_code = c })) same
