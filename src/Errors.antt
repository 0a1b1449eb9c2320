-- ===== src/Errors.antt =====
-- The errors of the JSON-RPC interface (pkg/errors/rpc.go).

-- The variables that name a code, in the source's order.
pub data ErrorCode : Type 0 where
  rejected_by_ep_or_account rejected_by_paymaster banned_opcode short_deadline : ErrorCode
  banned_or_throttled_entity invalid_entity_stake invalid_aggregator : ErrorCode
  invalid_signature invalid_fields execution_reverted : ErrorCode

-- RPCError: the code, and the value whose text the message and the data show.
pub record RpcError {ℓ} (E : Type ℓ) : Type ℓ where
  pub code : ErrorCode
  pub message : E
