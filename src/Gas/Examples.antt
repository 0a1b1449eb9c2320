-- ===== src/Gas/Examples.antt =====
-- Tests of the overheads and of the estimation.
use aiops_bundler.Base.{
  ℕ, suc, ◌<◌, ◌*◌, ◌+◌, ◌≤◌, ◌≡◌, refl, ◌⊎◌, false, ◌++◌, Option, none, some, arith,
}
use aiops_bundler.Base.Tests.{leb, if◌then◌else◌}
use aiops_bundler.Base.Lists.{replicate}
use aiops_bundler.Base.Result.{Result, ok, err}
use aiops_bundler.Aiop.{Bytes, AiOperation, get_paymaster, get_factory}
use aiops_bundler.Aiop.Parse.{new, to_map, byte_string, decode_hex, hex_digit}
use aiops_bundler.Aiop.Examples.{sample_op, sample_codec}
use aiops_bundler.Gas.Layer2.{
  OptimismNode, calc_optimism_pvg, calc_optimism_pvg_bounds, calc_optimism_pvg-free,
}
use aiops_bundler.Gas.Overhead.{
  new_default_overhead, calc_pre_verification_gas, pack, sanitize, static_gas, calc_call_data_cost,
  calc_per_ai_op_cost, byte_costs,
}
use aiops_bundler.Gas.Estimate.{
  higher, Probe, search, search_fuel, Node, EstimateInput, confirm, derive, first_search, attempt,
  estimate_gas,
}
use aiops_bundler.Gas.Estimate.Search.{IsThreshold, search-near}
use aiops_bundler.Gas.Estimate.Sound.{
  IsConfirmed, Repriced, estimate_gas-total, estimate_gas-IsConfirmed,
}

-- An encoding in which only the callData shows, behind the word that Pack drops.
abbrev sample_abi : AiOperation → Bytes
sample_abi op = replicate 32 0 ++ op.call_data

-- A limit is enough from 50000 gas on.
abbrev sample_probe : ℕ → Probe ℕ
sample_probe m = if leb 50000 m then ok (ok tt) else ok (err 1)

sample_search :
    search 9 sample_probe (λ e. higher) search_fuel 0 200000 0 none ≡ some (ok (74999, none))
unfolding search
sample_search = refl

sample-IsThreshold : IsThreshold 9 sample_probe (λ e. higher) 50000
sample-IsThreshold = (λ m h. ground arith, λ m h. (1, ground arith, refl))

search-near_example :
    (g : ℕ) × ((x : Option ℕ) × (search 9 sample_probe (λ e. higher) search_fuel 0 200000 0 none
        ≡ some (ok (g, x))))
    × ((50000 ≤ g) × (g ≤ 80000))
search-near_example =
    search-near 9 sample_probe (λ e. higher) 50000 200000 sample-IsThreshold (omega arith)
      (omega arith)

-- A node on which every simulation passes and a trace uses 40000 gas.
abbrev sample_node : Node ℕ ℕ
sample_node = record {
  contains = λ e s. false;
  bad_operation = λ e. 7;
  copy = λ sos. ok sos;
  with_max_balance = λ a sos. sos + a;
  simulate = λ op sos. ok tt;
  trace = λ op sos cap. ok 40000;
}

abbrev sample_estimate : EstimateInput ℕ
sample_estimate = record {
  op = sample_op;
  sos = 0;
  non_zero_value_call = 12100;
  max_gas_limit = 200000;
  attempts = 0;
  last_vgl = 0;
}

sample_op-Repriced : Repriced sample_codec sample_node sample_op
unfolding byte_string decode_hex hex_digit get_factory
sample_op-Repriced fee tip vgl cgl = (
  record {
    sender = refl;
    nonce = refl;
    call_gas_limit = refl;
    verification_gas_limit = refl;
    pre_verification_gas = refl;
    max_fee_per_gas = refl;
    max_priority_fee_per_gas = refl;
    factory = λ h. absurd (h refl);
    call_data = refl;
    paymaster_and_data = refl;
    signature = refl;
  },
  λ h. ground arith,
  refl,
)

estimate_gas-total_example :
    (res : Result ℕ (ℕ × ℕ)) × (estimate_gas sample_codec sample_node 8 sample_estimate ≡ some res)
estimate_gas-total_example =
    estimate_gas-total sample_codec sample_node 7 sample_estimate (omega arith) sample_op-Repriced
      (omega arith)

sample_run : estimate_gas sample_codec sample_node 8 sample_estimate ≡ some (ok (31248, 40000))
unfolding estimate_gas attempt first_search derive confirm search get_paymaster get_factory new
    to_map byte_string decode_hex hex_digit
sample_run = refl

estimate_gas-IsConfirmed_example :
    ((◌≡◌ {A = ℕ} 31248 0) × (◌≡◌ {A = ℕ} 40000 0))
    ⊎ IsConfirmed sample_codec sample_node sample_op 0 31248 40000
estimate_gas-IsConfirmed_example =
    estimate_gas-IsConfirmed sample_codec sample_node 7 sample_estimate 31248 40000 (omega arith)
      sample_op-Repriced (omega arith) sample_run

sample_pvg :
    calc_pre_verification_gas {E = ℕ} sample_codec sample_abi new_default_overhead sample_op
    ≡ ok 43931
unfolding calc_pre_verification_gas sanitize static_gas calc_call_data_cost calc_per_ai_op_cost pack
    byte_costs new to_map byte_string decode_hex hex_digit get_factory new_default_overhead
sample_pvg = refl

-- A node with a base fee of 5, on which the sample operation pays 8 for its gas.
abbrev sample_optimism : OptimismNode ℕ
sample_optimism = record {
  head_base_fee = ok (some 5);
  tip = ok 1;
  l1_fee = λ op fees. ok 1000;
  no_fees = 1;
  crashed = 2;
}

calc_optimism_pvg_bounds_example :
    (extra : ℕ) × (calc_optimism_pvg sample_optimism sample_op 21000 ≡ ok (some (21000 + extra)))
    × ((extra * 10 ≤ 1000) ⊎ (extra * (3 + 5) ≤ 1000))
    × (1000 < suc extra * 10)
    × (1000 < suc extra * (3 + 5))
calc_optimism_pvg_bounds_example =
    calc_optimism_pvg_bounds sample_optimism sample_op 21000 5 1 1000 (refl, refl, refl)
      (omega arith) (omega arith)

calc_optimism_pvg-free_example :
    calc_optimism_pvg sample_optimism (record sample_op { max_fee_per_gas = 0 }) 21000 ≡ err 2
calc_optimism_pvg-free_example =
    calc_optimism_pvg-free sample_optimism (record sample_op { max_fee_per_gas = 0 }) 21000 5 1 1000
      (refl, refl, refl) refl
