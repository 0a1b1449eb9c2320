-- ===== src/Modules/Examples.antt =====
-- Tests of the contexts and of the composition of handlers.
use aiops_bundler.Base.{[], ◌∷◌, some}
use aiops_bundler.Aiop.Examples.{sample_op}
use aiops_bundler.Modules.{BatchHandlerCtx}

-- A batch of two operations on a network with a base fee.
abbrev pub sample_ctx : BatchHandlerCtx
sample_ctx = record {
  batch = sample_op ∷ record sample_op { nonce = 2; max_fee_per_gas = 4 } ∷ [];
  pending_removal = [];
  ai_middleware = 3;
  chain_id = 1;
  base_fee = some 5;
  tip = some 1;
  gas_price = some 6;
  entries = [];
}
