-- ===== src/Builder/Fees.antt =====
-- The base fee of a bundle (pkg/modules/builder/client.go) against the rule of EIP-1559, by which the
-- base fee of a block is at most that of the last and an eighth of it, and one more at least.
use aiops_bundler.Base.{ℕ, zero, suc, ◌+◌, ◌*◌, ◌/◌, ◌≤◌, arith}
use aiops_bundler.Builder.{raise_base_fee}

-- The most that the rule allows after a base fee.
abbrev pub next_base_fee : ℕ → ℕ
next_base_fee bf = bf + (bf / 8 + 1)

-- If the base fee rises by no more than the rule allows from one block to the next, that of the n-th
-- block from now is at most what the loop makes of the present one, or of a higher fee.
pub raise_base_fee-covers :
    (n start : ℕ) (fee : ℕ → ℕ)
    → ((i : ℕ) → fee (suc i) ≤ next_base_fee (fee i))
    → fee 0 ≤ start
    → fee n ≤ raise_base_fee n start
unfolding raise_base_fee
raise_base_fee-covers zero start fee rises h = h
raise_base_fee-covers (suc n) start fee rises h =
    let first = rises 0 in
    raise_base_fee-covers n (start * 1125 / 1000 + 1) (λ i. fee (suc i)) (λ i. rises (suc i))
      (omega arith)
