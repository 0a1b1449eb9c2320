-- ===== src/Gas/Layer2.antt =====
-- The preVerificationGas on an Optimism network (pkg/gas/pvg.go, CalcOptimismPVGWithEthClient). The head
-- of the chain, the tip and the fee that the Gas Price Oracle asks for a signed transaction of the
-- operation alone are parameters; the fees of that transaction are those of HandleOps.
use native.Mathlib.Nat.{div-lt_iff_lt-mul, div-add-mod', mul-le-mul_left, lt_of_lt_of_le}
use aiops_bundler.Base.{
  ℕ, suc, ◌+◌, ◌*◌, ◌/◌, ◌≤◌, ◌<◌, ◌≡◌, ◌⊎◌, inl, inr, subst, false, true, [], ◌∷◌, Option, none,
  some, arith,
}
use aiops_bundler.Base.Tests.{ltb, ◌==◌, if◌then◌else◌, if-true, if-false, Bool-cases}
use aiops_bundler.Base.Result.{Result, ok, err, ◌>>=◌}
use aiops_bundler.Aiop.{AiOperation}
use aiops_bundler.Relay.{
  TxFees, dynamic, suggest_mean_gas_tip_cap, suggest_mean_gas_fee_cap, choose_fees,
}

-- `no_fees` is the error of HandleOps without fees, and `crashed` stands for the panic of a division
-- by zero.
pub record OptimismNode {ℓ} (E : Type ℓ) : Type ℓ where
  pub head_base_fee : Result E (Option ℕ)
  pub tip : Result E ℕ
  pub l1_fee : AiOperation → TxFees → Result E ℕ
  pub no_fees : E
  pub crashed : E

-- The price of the operation's gas: its priority fee over the base fee, up to its maximum.
abbrev pub l2_price : ℕ → AiOperation → ℕ
l2_price base_fee op =
    if ltb (op.max_priority_fee_per_gas + base_fee) op.max_fee_per_gas
    then op.max_priority_fee_per_gas + base_fee
    else op.max_fee_per_gas

-- The price is the smaller of the two.
l2_price-cases :
    (base_fee : ℕ) (op : AiOperation)
    → ((l2_price base_fee op ≡ op.max_fee_per_gas)
        × (op.max_fee_per_gas ≤ op.max_priority_fee_per_gas + base_fee))
      ⊎ ((l2_price base_fee op ≡ op.max_priority_fee_per_gas + base_fee)
          × (op.max_priority_fee_per_gas + base_fee ≤ op.max_fee_per_gas))
l2_price-cases base_fee op =
    elim (Bool-cases (ltb (op.max_priority_fee_per_gas + base_fee) op.max_fee_per_gas)) [
      | inl h ↦ inr (ground arith, ground arith)
      | inr h ↦ inl (ground arith, ground arith)
    ]

module _ {ℓ} {E : Type ℓ} (node : OptimismNode E) where
  unfoldable pub calc_optimism_pvg : AiOperation → ℕ → Result E (Option ℕ)
  unfolding choose_fees
  calc_optimism_pvg op static = node.head_base_fee >>= λ bf. node.tip >>= λ tip.
      elim (choose_fees bf (some tip) none (op ∷ [])) [
        | none ↦ err node.no_fees
        | some fees ↦ node.l1_fee op fees >>= λ fee. elim bf [
          | none ↦ err node.crashed
          | some b ↦
              if l2_price b op == 0
              then err node.crashed
              else ok (some (static + fee / l2_price b op))
        ]
      ]

  -- What the node answers for an operation on a chain with a base fee.
  abbrev pub Answers : AiOperation → ℕ → ℕ → ℕ → Type ℓ
  Answers op base_fee tip fee =
      (node.head_base_fee ≡ ok (some base_fee))
      × (node.tip ≡ ok tip)
      × (node.l1_fee op (
            dynamic (suggest_mean_gas_tip_cap tip (op ∷ []))
              (suggest_mean_gas_fee_cap base_fee tip (op ∷ [])))
          ≡ ok fee)

  calc_optimism_pvg-price :
      (op : AiOperation) (static base_fee tip fee : ℕ)
      → Answers op base_fee tip fee
      → 0 < l2_price base_fee op
      → (extra : ℕ) × (calc_optimism_pvg op static ≡ ok (some (static + extra)))
        × (extra * l2_price base_fee op ≤ fee)
        × (fee < suc extra * l2_price base_fee op)
  unfolding calc_optimism_pvg
  calc_optimism_pvg-price op static base_fee tip fee (head, tipped, charged) h =
      let price = l2_price base_fee op in
      let extra = fee / price in
      let whole = div-add-mod' fee price in
      let next : extra < suc extra = omega arith in
      let positive : (price == 0) ≡ false = ground arith in
      (
        extra,
        rw (head, tipped, charged) (if-false (price == 0) _ _ positive),
        omega arith,
        (div-lt_iff_lt-mul h).0 next,
      )

  -- If the node answers, and neither the operation's maximal fee nor the sum of its priority fee and
  -- the base fee is 0, the gas added to the static one costs at most the fee on the first layer at one
  -- of these two prices, and one gas more costs more than that fee at either.
  pub calc_optimism_pvg_bounds :
      (op : AiOperation) (static base_fee tip fee : ℕ)
      → Answers op base_fee tip fee
      → 0 < op.max_fee_per_gas
      → 0 < op.max_priority_fee_per_gas + base_fee
      → (extra : ℕ) × (calc_optimism_pvg op static ≡ ok (some (static + extra)))
        × ((extra * op.max_fee_per_gas ≤ fee)
            ⊎ (extra * (op.max_priority_fee_per_gas + base_fee) ≤ fee))
        × (fee < suc extra * op.max_fee_per_gas)
        × (fee < suc extra * (op.max_priority_fee_per_gas + base_fee))
  calc_optimism_pvg_bounds op static base_fee tip fee answers hm hp =
      let (extra, found, lower, upper) =
        calc_optimism_pvg-price op static base_fee tip fee answers (ground arith) in
      elim (l2_price-cases base_fee op) [
        | inl (e, h) ↦
            let below = subst (λ p. extra * p ≤ fee) e lower in
            let above = subst (λ p. fee < suc extra * p) e upper in
            (extra, found, inl below, above, lt_of_lt_of_le above (mul-le-mul_left (suc extra) h))
        | inr (e, h) ↦
            let below = subst (λ p. extra * p ≤ fee) e lower in
            let above = subst (λ p. fee < suc extra * p) e upper in
            (extra, found, inr below, lt_of_lt_of_le above (mul-le-mul_left (suc extra) h), above)
      ]

  -- If the node answers, the calculation for an operation whose maximal fee is zero panics.
  pub calc_optimism_pvg-free :
      (op : AiOperation) (static base_fee tip fee : ℕ)
      → Answers op base_fee tip fee
      → op.max_fee_per_gas ≡ 0
      → calc_optimism_pvg op static ≡ err node.crashed
  unfolding calc_optimism_pvg
  calc_optimism_pvg-free op static base_fee tip fee (head, tipped, charged) free =
      let price = l2_price base_fee op in
      let zero_price : (price == 0) ≡ true = ground arith in
      rw (head, tipped, charged) (if-true (price == 0) _ _ zero_price)
