-- ===== src/Entities/Handlers.antt =====
-- The handlers of pkg/modules/entities/reputation.go. Each runs in one transaction of the database.
use aiops_bundler.Base.{ℕ, not, ◌&&◌, List, [], ◌∷◌, ◌++◌, Option, none, some}
use aiops_bundler.Base.Tests.{◌==◌, if◌then◌else◌}
use aiops_bundler.Base.Lists.{length}
use aiops_bundler.Base.Dict.{Dict}
use aiops_bundler.Base.Result.{Result, ok, err, ◌>>=◌}
use aiops_bundler.Errors.{banned_or_throttled_entity, invalid_entity_stake}
use aiops_bundler.Aiop.{Address, AiOperation, zero_address, get_factory, get_paymaster}
use aiops_bundler.Modules.{AiOpHandlerCtx, BatchHandlerCtx, DepositInfo}
use aiops_bundler.Entities.{
  Status, fine, throttled, banned, ReputationConstants, ReputationOverride, Store, Txn,
  banned_entity, throttled_entity, exceeds_pending_ops_limit, Refusal, upstream, rpc, nil_deposit,
  count_ops, set_entry, ops_count_at, get_status, increment_ops_seen_by_entity,
  increment_ops_included_by_entity, update,
}

module _ {ℓ} {E : Type ℓ} where
  abbrev pub calling {κ} : {A : Type κ} → Result E A → Result (Refusal E) A
  calling (ok a) = ok a
  calling (err e) = err (upstream e)

  -- One of the three blocks of CheckStatus, for an entity with its pending operations.
  unfoldable pub check_entity :
      ReputationConstants → Address → List AiOperation → Status → Result (Refusal E) (Unit {0})
  check_entity c entity pending banned =
      err (rpc (record { code = banned_or_throttled_entity; message = banned_entity entity }))
  check_entity c entity pending throttled =
      if length pending == c.throttled_entity_mempool_count
      then err
          (rpc (record { code = banned_or_throttled_entity; message = throttled_entity entity }))
      else ok tt
  check_entity c entity pending fine = ok tt

  unfoldable pub check_block :
      Txn E
      → ℕ
      → ReputationConstants
      → Address
      → List AiOperation
      → Store
      → Result (Refusal E) Store
  unfolding get_status check_entity
  check_block txn now c entity pending db =
      calling (get_status txn now c entity db) >>= λ (status, db').
      check_entity c entity pending status >>= λ u. ok db'

  -- The blocks of the factory and of the paymaster are skipped for the zero address.
  unfoldable pub check_set_block :
      Txn E
      → ℕ
      → ReputationConstants
      → Address
      → List AiOperation
      → Store
      → Result (Refusal E) Store
  unfolding check_block
  check_set_block txn now c entity pending db =
      if entity == zero_address then ok db else check_block txn now c entity pending db

  unfoldable pub check_status :
      Txn E → ℕ → ReputationConstants → AiOpHandlerCtx → Store → Result (Refusal E) Store
  unfolding check_block check_set_block
  check_status txn now c ctx db = update upstream txn (
      check_block txn now c ctx.ai_op.sender ctx.pending_sender_ops db >>= λ db1.
      check_set_block txn now c (get_factory ctx.ai_op) ctx.pending_factory_ops db1 >>= λ db2.
      check_set_block txn now c (get_paymaster ctx.ai_op) ctx.pending_paymaster_ops db2)

  -- One of the three blocks of ValidateOpLimit.
  unfoldable pub limit_entity :
      Address → List AiOperation → Option DepositInfo → ℕ → Result (Refusal E) (Unit {0})
  limit_entity entity pending dep limit = elim dep [
    | none ↦ err nil_deposit
    | some d ↦
        if not d.staked && (length pending == limit)
        then err (
            rpc (record {
              code = invalid_entity_stake;
              message = exceeds_pending_ops_limit entity limit;
            }))
        else ok tt
  ]

  unfoldable pub limit_set_entity :
      Address → List AiOperation → Option DepositInfo → ℕ → Result (Refusal E) (Unit {0})
  unfolding limit_entity
  limit_set_entity entity pending dep limit =
      if entity == zero_address then ok tt else limit_entity entity pending dep limit

  unfoldable pub validate_op_limit :
      ReputationConstants → AiOpHandlerCtx → Result (Refusal E) (Unit {0})
  unfolding limit_entity limit_set_entity
  validate_op_limit c ctx =
      limit_entity ctx.ai_op.sender ctx.pending_sender_ops ctx.sender_deposit
        c.same_sender_mempool_count
      >>= λ u.
          limit_set_entity (get_factory ctx.ai_op) ctx.pending_factory_ops ctx.factory_deposit
            c.same_unstaked_entity_mempool_count
          >>= λ u'.
              limit_set_entity (get_paymaster ctx.ai_op) ctx.pending_paymaster_ops
                ctx.paymaster_deposit c.same_unstaked_entity_mempool_count

  -- A call whose error is joined: the transaction goes on, and is dropped at its end.
  abbrev pub join : List E → Store → Result E Store → List E × Store
  join errs db (ok db') = (errs, db')
  join errs db (err e) = (errs ++ e ∷ [], db)

  abbrev pub no_errors : List E × Store → Result (List E) Store
  no_errors ([], db) = ok db
  no_errors (e ∷ errs, db) = err (e ∷ errs)

  abbrev pub see : Txn E → ℕ → Address → List E × Store → List E × Store
  see txn now a (errs, db) = join errs db (increment_ops_seen_by_entity txn now a db)

  abbrev pub see_set : Txn E → ℕ → Address → List E × Store → List E × Store
  see_set txn now a s = if a == zero_address then s else see txn now a s

  unfoldable pub inc_ops_seen : Txn E → ℕ → AiOpHandlerCtx → Store → Result (List E) Store
  unfolding increment_ops_seen_by_entity
  inc_ops_seen txn now ctx db =
      update (λ e. e ∷ []) txn
        (no_errors (
          see_set txn now (get_paymaster ctx.ai_op)
            (see_set txn now (get_factory ctx.ai_op) (see txn now ctx.ai_op.sender ([], db)))))

  -- `range` is the order in which Go runs over the map of counters.
  unfoldable pub inc_ops_included :
      (Dict ℕ → Dict ℕ) → Txn E → ℕ → BatchHandlerCtx → Store → Result E Store
  unfolding count_ops increment_ops_included_by_entity
  inc_ops_included range txn now ctx db =
      update (λ e. e) txn
        (increment_ops_included_by_entity txn now (range (count_ops ctx.batch [])) db)

  -- The joined error is not assigned: `err` stays nil.
  unfoldable pub override_loop : Txn E → ℕ → List ReputationOverride → Store → Store
  unfolding set_entry
  override_loop txn now [] db = db
  override_loop txn now (entry ∷ entries) db =
      override_loop txn now entries
        (elim (set_entry txn entry.address (ops_count_at now entry.ops_seen entry.ops_included)
          db) [ ok db' ↦ db' | err e ↦ db ])

  unfoldable pub override : Txn E → ℕ → List ReputationOverride → Store → Result E Store
  unfolding override_loop
  override txn now entries db = update (λ e. e) txn (ok (override_loop txn now entries db))
