-- ===== src/Relay/Fees.antt =====
-- The fees of the transaction cover the suggested ones and the mean of the batch.
use aiops_bundler.Base.{ℕ, suc, ◌+◌, ◌*◌, ◌/◌, ◌≤◌, ◌<◌, List, [], ◌∷◌, ◌≡◌, ◌∙◌, arith}
use native.Mathlib.Nat.{div-lt_iff_lt-mul}
use aiops_bundler.Base.Lists.{length}
use aiops_bundler.Aiop.{AiOperation}
use aiops_bundler.Relay.{sum_fees, larger, suggest_mean_gas_fee_cap}

-- The sum of a fee over a batch.
abbrev pub total_fee : (AiOperation → ℕ) → List AiOperation → ℕ
total_fee fee [] = 0
total_fee fee (op ∷ batch) = fee op + total_fee fee batch

sum_fees_lem :
    (fee : AiOperation → ℕ) (batch : List AiOperation) (sum : ℕ)
    → sum_fees fee batch sum ≡ sum + total_fee fee batch
sum_fees_lem fee [] sum = omega arith
sum_fees_lem fee (op ∷ batch) sum = ground (arith, sum_fees_lem fee batch (sum + fee op))

mean_covers : (sum n floor : ℕ) → 0 < n → sum < suc (larger (sum / n) floor) * n
mean_covers sum n floor h =
    let mean : sum / n < suc (larger (sum / n) floor) = ground arith in (div-lt_iff_lt-mul h).0 mean

-- The transaction's fee cap pays at least the tip over twice the base fee, and at least the mean of
-- the operations' fee caps, rounded down.
suggest_mean_gas_fee_cap_lem :
    (basefee tip : ℕ) (batch : List AiOperation)
    → 0 < length batch
    → (tip + 2 * basefee ≤ suggest_mean_gas_fee_cap basefee tip batch)
      × (total_fee (λ op. op.max_fee_per_gas) batch
          < suc (suggest_mean_gas_fee_cap basefee tip batch) * length batch)
unfolding suggest_mean_gas_fee_cap
suggest_mean_gas_fee_cap_lem basefee tip batch h =
    let fee : AiOperation → ℕ = λ op. op.max_fee_per_gas in
    let sum : sum_fees fee batch 0 ≡ total_fee fee batch = sum_fees_lem fee batch 0 ∙ omega arith in
    (ground arith, rw sum (mean_covers (total_fee fee batch) (length batch) (tip + basefee * 2) h))
