-- ===== src/Client/Examples.antt =====
-- A test of a client of one AiMiddleware, over the sample codec and mempool.
use mathlib.Core.List.{Mem}
use aiops_bundler.Base.{ℕ, ◌≡◌, refl, subst, [], ◌∷◌, none, arith}
use aiops_bundler.Base.Result.{ok}
use aiops_bundler.Aiop.{Bytes, AiOperation, get_factory}
use aiops_bundler.Aiop.Hash.{get_ai_op_hash}
use aiops_bundler.Aiop.Parse.{RawOp, new, to_map}
use aiops_bundler.Aiop.Examples.{sample_op, sample_codec, sample_crypto, sample_op-ReadsBack}
use aiops_bundler.Modules.{AiOpHandlerCtx}
use aiops_bundler.Mempool.Pool.{Mempool}
use aiops_bundler.Mempool.Examples.{list_set, list_set-IsSortedSet, keep_op, empty_pool}
use aiops_bundler.Gas.Overhead.{new_default_overhead}
use aiops_bundler.Client.{Client, send_ai_operation}
use aiops_bundler.Client.Debug.{dump_mempool}
use aiops_bundler.Aiop.Parse.Roundtrip.{Restorable}
use aiops_bundler.Client.Debug.Dumped.{dump_mempool-accepted}
use aiops_bundler.Client.Sending.{Sent, send_ai_operation_lem}

abbrev sample_abi : AiOperation → Bytes
sample_abi op = []

abbrev sample_client : Client ℕ ℕ ℕ
sample_client = record {
  supported_ai_middlewares = 3 ∷ [];
  chain_id = 1;
  ov = new_default_overhead;
  ai_op_handler = λ ctx. ok ctx;
  get_gas_prices = ok (record { max_fee_per_gas = 5; max_priority_fee_per_gas = 1 });
  get_gas_estimate = λ ep op sos. ok (100, 200);
  get_stake_func = λ ep a. ok none;
  parse_override_data = λ os. ok os;
}

sample_handler-keeps :
    (c d : AiOpHandlerCtx) → sample_client.ai_op_handler c ≡ ok d → d.ai_op ≡ c.ai_op
sample_handler-keeps c d h = ground arith

send_ai_operation_lem_example :
    Sent list_set list_set-IsSortedSet AiOperation sample_codec sample_crypto sample_abi
      sample_client
      (to_map sample_codec sample_op)
      (3 ∷ [])
      empty_pool
      (send_ai_operation list_set AiOperation sample_codec sample_crypto sample_abi sample_client
        keep_op none
        (to_map sample_codec sample_op)
        (3 ∷ [])
        empty_pool)
send_ai_operation_lem_example =
    send_ai_operation_lem list_set list_set-IsSortedSet AiOperation sample_codec sample_crypto
      sample_abi sample_client keep_op none (to_map sample_codec sample_op) (3 ∷ []) empty_pool
      sample_handler-keeps

abbrev sent_pool : Mempool list_set AiOperation
sent_pool =
    (send_ai_operation list_set AiOperation sample_codec sample_crypto sample_abi sample_client
      keep_op none (to_map sample_codec sample_op) (3 ∷ []) empty_pool).0

abbrev sent_hash : ℕ
sent_hash = get_ai_op_hash sample_crypto sample_op 3 1

sample_parsed : new sample_codec (to_map sample_codec sample_op) ≡ ok sample_op
unfolding new to_map get_factory
sample_parsed = refl

sample_sent :
    send_ai_operation list_set AiOperation sample_codec sample_crypto sample_abi sample_client
      keep_op none
      (to_map sample_codec sample_op)
      (3 ∷ [])
      empty_pool
    ≡ (sent_pool, ok sent_hash)
unfolding send_ai_operation aiops_bundler.Client.parse_ai_middleware_address new to_map get_factory
    aiops_bundler.Modules.new_ai_op_handler_context aiops_bundler.Mempool.Pool.pool_add
sample_sent = refl

sample_op-Restorable : Restorable sample_codec sample_op
unfolding get_factory
sample_op-Restorable = (sample_op-ReadsBack, λ h. omega arith, refl)

sent-Restorable :
    (op : AiOperation)
    → new sample_codec (to_map sample_codec sample_op) ≡ ok op
    → Restorable sample_codec op
sent-Restorable op h =
    let parsed = sample_parsed in
    let same : sample_op ≡ op = cc in subst (Restorable sample_codec) same sample_op-Restorable

dump_mempool-accepted_example :
    (item : RawOp) × Mem item (dump_mempool list_set AiOperation sample_codec (3 ∷ []) sent_pool)
    × (new sample_codec item ≡ new sample_codec (to_map sample_codec sample_op))
dump_mempool-accepted_example =
    dump_mempool-accepted list_set list_set-IsSortedSet AiOperation sample_codec sample_crypto
      sample_abi sample_client keep_op none (to_map sample_codec sample_op) (3 ∷ []) empty_pool
      sent_pool sent_hash sample_handler-keeps sent-Restorable sample_sent
