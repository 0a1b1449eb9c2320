-- ===== src/Client/Estimating.antt =====
-- The fees under which the gas of an operation is estimated.
use aiops_bundler.Base.{◌<◌, ◌≡◌, refl, ◌∙◌, arith}
use aiops_bundler.Base.Tests.{ltb, if-true, if-false}
use aiops_bundler.Base.Result.{ok}
use aiops_bundler.Aiop.{Bytes, AiOperation}
use aiops_bundler.Aiop.Hash.{Crypto}
use aiops_bundler.Aiop.Parse.{Codec, RawOp, Text, new}
use aiops_bundler.Mempool.{SortedSet}
use aiops_bundler.Client.{Client, GasPrices, priced, estimate_ai_operation_gas}

module _ {ℓ κ μ ν} {E : Type ℓ} {Os : Type κ} {Sos : Type μ} (S : SortedSet) (V : Type ν)
    (codec : Codec) (crypto : Crypto) (abi : AiOperation → Bytes) (i : Client E Os Sos) where
  abbrev pub with_prices : AiOperation → GasPrices → AiOperation
  with_prices op gp = record op {
    max_fee_per_gas = gp.max_fee_per_gas;
    max_priority_fee_per_gas = gp.max_priority_fee_per_gas;
  }

  -- A request without a fee is estimated as the same request with the suggested fees.
  estimate_ai_operation_gas-priced :
      (raw raw' : RawOp) (ep : Text) (os : Os) (op : AiOperation) (gp : GasPrices)
      → new codec raw ≡ ok op
      → op.max_fee_per_gas ≡ 0
      → i.get_gas_prices ≡ ok gp
      → 0 < gp.max_fee_per_gas
      → new codec raw' ≡ ok (with_prices op gp)
      → estimate_ai_operation_gas S V codec crypto abi i raw ep os
        ≡ estimate_ai_operation_gas S V codec crypto abi i raw' ep os
  unfolding estimate_ai_operation_gas
  estimate_ai_operation_gas-priced raw raw' ep os op gp parsed free suggested positive parsed' =
      let first : priced S V codec crypto abi i op ≡ ok (with_prices op gp) =
        if-false (ltb 0 op.max_fee_per_gas) _ _ (ground arith) ∙ rw suggested refl in
      let second : priced S V codec crypto abi i (with_prices op gp) ≡ ok (with_prices op gp) =
        if-true (ltb 0 gp.max_fee_per_gas) _ _ (ground arith) in
      rw (parsed, parsed', first, second) refl
