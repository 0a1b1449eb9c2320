-- ===== src/Checks/Examples.antt =====
-- Tests of the checks on a sender whose code is known.
use mathlib.Core.List.{reverse}
use aiops_bundler.Base.{ℕ, ◌≡◌, refl, ◌↔◌, Bool, false, not, List, [], ◌∷◌, some, arith}
use aiops_bundler.Base.Tests.{◌==◌, if◌then◌else◌}
use aiops_bundler.Base.Lists.{length, keep, take}
use aiops_bundler.Base.Dict.{lookup, insert}
use aiops_bundler.Base.Result.{Result, ok, err}
use aiops_bundler.Aiop.{Address, Bytes, AiOperation, get_paymaster}
use aiops_bundler.Aiop.Examples.{sample_op}
use aiops_bundler.Modules.Examples.{sample_ctx}
use aiops_bundler.Batch.Sweep.{items}
use aiops_bundler.Checks.CodeHash.{
  get_code_hashes, previous, differs, has_code_hash_changes, hashes,
}
use aiops_bundler.Checks.Saved.{Store, code_hashes, code_hashes_lem}
use aiops_bundler.Checks.Values.{Verdict}
use aiops_bundler.Checks.Values.Group.{
  ValuesInput, validate_op_values, IsWait, Acceptable, validate_op_values_lem,
}

-- A hash by length; the code of an address is as long as the address.
abbrev sample_keccak : Bytes → ℕ
sample_keccak bs = length bs

abbrev sample_code : Address → Bytes
sample_code a = take a (1 ∷ 2 ∷ 3 ∷ [])

abbrev changed_code : Address → Bytes
changed_code a = if a == 1 then [] else sample_code a

abbrev changed_gc : Address → Result ℕ Bytes
changed_gc a = ok (changed_code a)

-- The code hashes of both operations of the sample batch, by nonce.
abbrev sample_store : Store
sample_store =
    (1, hashes sample_keccak changed_gc sample_code (1 ∷ []))
    ∷ (2, hashes sample_keccak changed_gc sample_code (2 ∷ []))
    ∷ []

abbrev sample_changed : AiOperation → Bool
sample_changed op = op.nonce == 1

code_hashes_lem_example :
    code_hashes {E = ℕ} (λ op. op.nonce) sample_keccak changed_gc 404 sample_store sample_ctx
    ≡ some (
        ok (
          tt,
          record sample_ctx {
            batch = keep (λ op. not (sample_changed op)) sample_ctx.batch;
            pending_removal =
                items "code hash changed" (reverse (keep sample_changed sample_ctx.batch));
          },
        ))
unfolding lookup insert has_code_hash_changes get_code_hashes previous differs
code_hashes_lem_example =
    code_hashes_lem (λ op. op.nonce) sample_keccak changed_gc 404 sample_store sample_changed
      sample_ctx
      (
        (hashes sample_keccak changed_gc sample_code (1 ∷ []), refl, refl),
        ((hashes sample_keccak changed_gc sample_code (2 ∷ []), refl, refl), tt),
      )

-- A replacement of the sample operation's nonce at 110 percent of its fees, and one below it.
abbrev raised_op : AiOperation
raised_op = record sample_op { max_fee_per_gas = 11; max_priority_fee_per_gas = 4 }

abbrev first_error : List (Verdict ℕ) → Verdict ℕ
first_error [] = ok tt
first_error (v ∷ vs) = elim v [ ok u ↦ first_error vs | err e ↦ err e ]

first_error-IsWait : IsWait first_error
first_error-IsWait [] = ground arith
first_error-IsWait (ok u ∷ vs) =
    let rest = first_error-IsWait vs in (λ h. (refl, rest.0 h), λ h. rest.1 h.1)
first_error-IsWait (err e ∷ vs) = ground arith

abbrev sample_input : ValuesInput ℕ
sample_input = record {
  op = sample_op;
  gc = λ a. ok (sample_code a);
  gbf = ok (some 5);
  pvg = ok 20;
  static = ok 15;
  non_zero_value_call = 90;
  max_verification_gas = 60;
  max_batch_gas_limit = 500;
  paymaster_deposit = some (record { deposit = 5000; staked = false });
  pending_sender_ops = [];
}

validate_op_values_lem_example :
    (validate_op_values first_error sample_input ≡ ok tt)
    ↔ Acceptable sample_op
        (20, 15, 90, 60, 500)
        (1 ∷ 2 ∷ 3 ∷ [])
        (1 ∷ 2 ∷ [])
        (some 5)
        (some (record { deposit = 5000; staked = false }))
        []
unfolding get_paymaster
validate_op_values_lem_example =
    validate_op_values_lem first_error sample_input (1 ∷ 2 ∷ 3 ∷ []) (1 ∷ 2 ∷ []) (some 5) 20 15
      first_error-IsWait refl refl refl refl refl
