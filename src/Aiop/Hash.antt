-- ===== src/Aiop/Hash.antt =====
-- PackForSignature and GetAiOpHash of pkg/aiop/object.go. Keccak, the ABI encoder and the padding of
-- go-ethereum are parameters.
use aiops_bundler.Base.{ℕ, ◌≡◌, refl, List, [], ◌∷◌}
use aiops_bundler.Aiop.{Address, Bytes, AiOperation}

-- The arguments that the ABI encoder is given.
pub data AbiValue : Type 0 where
  address uint256 : ℕ → AbiValue
  bytes32 : ℕ → AbiValue

-- `keccak256_hash` is the digest as a number, `keccak256` as bytes, both of a concatenation.
pub record Crypto : Type 0 where
  pub keccak256 : List Bytes → Bytes
  pub keccak256_hash : List Bytes → ℕ
  pub pack : List AbiValue → Bytes
  pub left_pad_32 : ℕ → Bytes

module _ (c : Crypto) where
  unfoldable pub pack_for_signature : AiOperation → Bytes
  pack_for_signature op = c.pack (
      address op.sender
      ∷ uint256 op.nonce
      ∷ bytes32 (c.keccak256_hash (op.init_code ∷ []))
      ∷ bytes32 (c.keccak256_hash (op.call_data ∷ []))
      ∷ uint256 op.call_gas_limit
      ∷ uint256 op.verification_gas_limit
      ∷ uint256 op.pre_verification_gas
      ∷ uint256 op.max_fee_per_gas
      ∷ uint256 op.max_priority_fee_per_gas
      ∷ bytes32 (c.keccak256_hash (op.paymaster_and_data ∷ []))
      ∷ [])

  unfoldable pub get_ai_op_hash : AiOperation → Address → ℕ → ℕ
  get_ai_op_hash op ai_middleware chain_id = c.keccak256_hash (
      c.keccak256 (pack_for_signature op ∷ [])
      ∷ c.left_pad_32 ai_middleware
      ∷ c.left_pad_32 chain_id
      ∷ [])

  -- The hash does not depend on the signature, which is made over it.
  get_ai_op_hash-signature :
      (op : AiOperation) (s : Bytes) (ep chain_id : ℕ)
      → get_ai_op_hash (record op { signature = s }) ep chain_id ≡ get_ai_op_hash op ep chain_id
  unfolding get_ai_op_hash pack_for_signature
  get_ai_op_hash-signature op s ep chain_id = refl
