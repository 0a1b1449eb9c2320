-- ===== src/Entities/Examples.antt =====
-- Tests of the reputation on a sender and a paymaster that have been seen before.
use aiops_bundler.Base.{ℕ, ◌≡◌, refl, true, false, ◌&&◌, [], ◌∷◌, none, some, arith}
use aiops_bundler.Base.Dict.{lookup}
use aiops_bundler.Base.Result.{ok}
use aiops_bundler.Aiop.{get_factory, get_paymaster}
use aiops_bundler.Aiop.Examples.{sample_op}
use aiops_bundler.Modules.{AiOpHandlerCtx}
use aiops_bundler.Modules.Examples.{sample_ctx}
use aiops_bundler.Entities.{ReputationConstants, Store, Txn, status_of, decay_loop, ops_count_at}
use aiops_bundler.Entities.Handlers.{check_status, inc_ops_included}
use aiops_bundler.Entities.Standing.{passes, may_enter, unless_zero, check_status_lem}
use aiops_bundler.Entities.Reads.{NoErrors, counts}
use aiops_bundler.Entities.Freeze.{read_all, read_all-frequent}
use aiops_bundler.Entities.Counting.{Adds, occurrences, inc_ops_included_lem}

-- The defaults of internal/config/mempool.go.
abbrev pub sample_constants : ReputationConstants
sample_constants = record {
  same_sender_mempool_count = 10;
  same_unstaked_entity_mempool_count = 11;
  throttled_entity_mempool_count = 4;
  min_inclusion_rate_denominator = 10;
  throttling_slack = 10;
  ban_slack = 50;
}

abbrev sample_txn : Txn ℕ
sample_txn = record { get_error = λ a. none; set_error = λ a. none; commit_error = none }

sample_txn-NoErrors : NoErrors sample_txn
sample_txn-NoErrors = (λ a. refl, λ a. refl, refl)

-- The sender is fine, the paymaster throttled.
abbrev sample_store : Store
sample_store = (7, ops_count_at 100 30 3) ∷ (2, ops_count_at 100 200 0) ∷ []

abbrev crowded_ctx : AiOpHandlerCtx
crowded_ctx = record {
  ai_op = sample_op;
  ai_middleware = 3;
  chain_id = 1;
  pending_sender_ops = [];
  pending_factory_ops = [];
  pending_paymaster_ops = sample_op ∷ sample_op ∷ sample_op ∷ sample_op ∷ sample_op ∷ [];
  sender_deposit = some (record { deposit = 0; staked = false });
  factory_deposit = some (record { deposit = 0; staked = false });
  paymaster_deposit = some (record { deposit = 0; staked = false });
}

check_status_lem_example :
    passes (check_status sample_txn 200 sample_constants crowded_ctx sample_store) ≡ (
      may_enter sample_constants (counts 200 sample_store 7) []
      && (unless_zero
            (get_factory sample_op)
            (may_enter sample_constants (counts 200 sample_store (get_factory sample_op)) [])
          && unless_zero (get_paymaster sample_op) (
              may_enter sample_constants
                (counts 200 sample_store (get_paymaster sample_op))
                crowded_ctx.pending_paymaster_ops)))
check_status_lem_example =
    check_status_lem sample_txn 200 sample_constants crowded_ctx sample_store sample_txn-NoErrors

-- The throttled paymaster has five operations pending, one more than the limit, and the next one
-- passes.
check_status_over_limit :
    passes (check_status sample_txn 200 sample_constants crowded_ctx sample_store) ≡ true
unfolding lookup status_of decay_loop get_factory get_paymaster
check_status_over_limit = check_status_lem_example

read_all-frequent_example :
    (db' : Store) × (read_all sample_txn (3600 ∷ 7100 ∷ 10600 ∷ []) 7 sample_store ≡ ok db')
    × (lookup 7 db' ≡ some (ops_count_at 10600 30 3))
unfolding lookup
read_all-frequent_example =
    read_all-frequent sample_txn (3600 ∷ 7100 ∷ 10600 ∷ []) 7 sample_store (ops_count_at 100 30 3)
      sample_txn-NoErrors refl
      (omega arith, omega arith, (omega arith, omega arith, (omega arith, omega arith, tt)))

inc_ops_included_lem_example :
    (db' : Store) × (inc_ops_included (λ c. c) sample_txn 200 sample_ctx sample_store ≡ ok db')
    × Adds 200 sample_store (λ a. occurrences a sample_ctx.batch) db'
inc_ops_included_lem_example =
    inc_ops_included_lem (λ c. c) sample_txn 200 sample_ctx sample_store (λ a c. refl)
      sample_txn-NoErrors
