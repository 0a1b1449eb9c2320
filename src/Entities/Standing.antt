-- ===== src/Entities/Standing.antt =====
-- Statuses, and the operations that CheckStatus and ValidateOpLimit let through.
use aiops_bundler.Base.{
  ℕ, ◌≤◌, Bool, true, false, not, ◌&&◌, ◌||◌, List, Option, none, some, ◌≡◌, refl, ◌∙◌, sym, inl,
  inr, arith,
}
use aiops_bundler.Base.Tests.{◌==◌, Bool-cases}
use aiops_bundler.Base.Lists.{length}
use aiops_bundler.Base.Result.{Result, ok, err, ◌>>=◌}
use aiops_bundler.Aiop.{Address, AiOperation, zero_address, get_factory, get_paymaster}
use aiops_bundler.Modules.{AiOpHandlerCtx, DepositInfo}
use aiops_bundler.Entities.{
  Status, fine, throttled, banned, ReputationConstants, Store, Txn, Refusal, upstream, status_of,
  get_status, update,
}
use aiops_bundler.Entities.Handlers.{
  check_entity, check_block, check_set_block, check_status, limit_entity, limit_set_entity,
  validate_op_limit,
}
use aiops_bundler.Entities.Reads.{
  counts, touched, counts-touched, NoErrors, get_ops_count_by_entity_lem,
}

abbrev pub rank : Status → ℕ
rank fine = 0
rank throttled = 1
rank banned = 2

-- More included operations never make a status worse.
status_of_mono :
    (c : ReputationConstants) (seen n m : ℕ)
    → n ≤ m
    → rank (status_of c seen m) ≤ rank (status_of c seen n)
unfolding status_of
status_of_mono c seen n m h = ground arith

-- Whether an entity of a status, with its pending operations, lets one more operation in.
abbrev pub admits : ReputationConstants → List AiOperation → Status → Bool
admits c pending fine = true
admits c pending throttled = not (length pending == c.throttled_entity_mempool_count)
admits c pending banned = false

abbrev pub may_enter : ReputationConstants → ℕ × ℕ → List AiOperation → Bool
may_enter c (seen, included) pending = admits c pending (status_of c seen included)

abbrev pub unless_zero : Address → Bool → Bool
unless_zero a b = (a == zero_address) || b

abbrev pub passes {ℓ κ} : {E : Type ℓ} {A : Type κ} → Result E A → Bool
passes (ok a) = true
passes (err e) = false

module _ {ℓ} {E : Type ℓ} where
  -- A step passes with a store of the same counters, or fails, as a test says.
  abbrev Decides : ℕ → Store → Bool → Result (Refusal E) Store → Type ℓ
  Decides now db b r =
      (b ≡ true
        → (db' : Store) × (r ≡ ok db') × ((a : Address) → counts now db' a ≡ counts now db a))
      × (b ≡ false → passes r ≡ false)

  Decides-bind :
      (now : ℕ) (db : Store) (b b' : Bool) (r : Result (Refusal E) Store)
      (f : Store → Result (Refusal E) Store)
      → Decides now db b r
      → ((db' : Store)
          → ((a : Address) → counts now db' a ≡ counts now db a)
          → Decides now db b' (f db'))
      → Decides now db (b && b') (r >>= f)
  Decides-bind now db true b' r f d k = let (db', e, same) = d.0 refl in rw e (k db' same)
  Decides-bind now db false b' (ok db') f d k = absurd (let f = d.1 refl in ground arith)
  Decides-bind now db false b' (err e) f d k = (λ h. absurd (ground arith), λ h. refl)

  check_entity-Decides :
      (c : ReputationConstants) (a : Address) (pending : List AiOperation) (st : Status) (now : ℕ)
      (db db' : Store)
      → ((a : Address) → counts now db' a ≡ counts now db a)
      → Decides now db (admits c pending st) (check_entity c a pending st >>= λ u. ok db')
  unfolding check_entity
  check_entity-Decides c a pending fine now db db' same =
      (λ h. (db', refl, same), λ h. absurd (ground arith))
  check_entity-Decides c a pending throttled now db db' same =
      elim (Bool-cases (length pending == c.throttled_entity_mempool_count)) [
        | inl e ↦ rw e (λ h. absurd (ground arith), λ h. refl)
        | inr e ↦ rw e (λ h. (db', refl, same), λ h. absurd (ground arith))
      ]
  check_entity-Decides c a pending banned now db db' same = (λ h. absurd (ground arith), λ h. refl)

  check_block-Decides :
      (txn : Txn E) (now : ℕ) (c : ReputationConstants) (a : Address) (pending : List AiOperation)
      (db start : Store)
      → NoErrors txn
      → ((a : Address) → counts now db a ≡ counts now start a)
      → Decides now start
          (may_enter c (counts now start a) pending)
          (check_block txn now c a pending db)
  unfolding check_block get_status
  check_block-Decides txn now c a pending db start h same =
      rw (get_ops_count_by_entity_lem txn now a db h, sym (same a))
        (check_entity-Decides c a pending (status_of c (counts now db a).0 (counts now db a).1) now
          start (touched now db a) (λ b. counts-touched now db a b ∙ same b))

  check_set_block-Decides :
      (txn : Txn E) (now : ℕ) (c : ReputationConstants) (a : Address) (pending : List AiOperation)
      (db start : Store)
      → NoErrors txn
      → ((a : Address) → counts now db a ≡ counts now start a)
      → Decides now start
          (unless_zero a (may_enter c (counts now start a) pending))
          (check_set_block txn now c a pending db)
  unfolding check_set_block
  check_set_block-Decides txn now c a pending db start h same =
      elim (Bool-cases (a == zero_address)) [
        | inl e ↦ rw e (λ h. (db, refl, same), λ h. absurd (ground arith))
        | inr e ↦ rw e (check_block-Decides txn now c a pending db start h same)
      ]

  passes-update :
      (txn : Txn E) (now : ℕ) (db : Store) (b : Bool) (r : Result (Refusal E) Store)
      → txn.commit_error ≡ none
      → Decides now db b r
      → passes (update upstream txn r) ≡ b
  passes-update txn now db true r h d = let (db', e, same) = d.0 refl in rw (e, h) refl
  passes-update txn now db false (ok db') h d = absurd (let f = d.1 refl in ground arith)
  passes-update txn now db false (err e) h d = refl

  -- When no call of the database fails, CheckStatus lets an operation in exactly if its sender, its
  -- factory and its paymaster, where it has them, are not banned and are, when throttled, at another
  -- number of pending operations than the limit. A throttled entity above the limit passes.
  pub check_status_lem :
      (txn : Txn E) (now : ℕ) (c : ReputationConstants) (ctx : AiOpHandlerCtx) (db : Store)
      → NoErrors txn
      → passes (check_status txn now c ctx db) ≡ (
          may_enter c (counts now db ctx.ai_op.sender) ctx.pending_sender_ops
          && (unless_zero
                (get_factory ctx.ai_op)
                (may_enter c (counts now db (get_factory ctx.ai_op)) ctx.pending_factory_ops)
              && unless_zero (get_paymaster ctx.ai_op) (
                  may_enter c (counts now db (get_paymaster ctx.ai_op)) ctx.pending_paymaster_ops)))
  unfolding check_status
  check_status_lem txn now c ctx db h = passes-update txn now db _ _ h.2 (
      Decides-bind now db _ _ _ _
        (check_block-Decides txn now c ctx.ai_op.sender ctx.pending_sender_ops db db h (λ a. refl))
        (λ db1 same1.
          Decides-bind now db _ _ _ _
            (check_set_block-Decides txn now c (get_factory ctx.ai_op) ctx.pending_factory_ops db1
              db h same1)
            (λ db2 same2.
              check_set_block-Decides txn now c (get_paymaster ctx.ai_op) ctx.pending_paymaster_ops
                db2 db h same2)))

-- An entity may have one more operation: it is staked, or has another number pending than the limit.
abbrev pub within_limit : DepositInfo → List AiOperation → ℕ → Bool
within_limit d pending limit = d.staked || not (length pending == limit)

abbrev pub allowed : Option DepositInfo → List AiOperation → ℕ → Bool
allowed none pending limit = false
allowed (some d) pending limit = within_limit d pending limit

-- The sender, and the factory and the paymaster where there are any, are within their limits.
abbrev pub below_limits : ReputationConstants → AiOpHandlerCtx → Bool
below_limits c ctx =
    allowed ctx.sender_deposit ctx.pending_sender_ops c.same_sender_mempool_count
    && (unless_zero (get_factory ctx.ai_op)
          (allowed ctx.factory_deposit ctx.pending_factory_ops c.same_unstaked_entity_mempool_count)
        && unless_zero (get_paymaster ctx.ai_op) (
            allowed ctx.paymaster_deposit ctx.pending_paymaster_ops
              c.same_unstaked_entity_mempool_count))

passes-then {ℓ κ} :
    {E : Type ℓ} {A : Type κ} {B : Type κ} (r : Result E A) (k : Result E B) {b b' : Bool}
    → passes r ≡ b
    → passes k ≡ b'
    → passes (r >>= λ u. k) ≡ (b && b')
passes-then (ok a) k e e' = rw (sym e) e'
passes-then (err x) k e e' = rw (sym e) refl

module _ {ℓ} (E : Type ℓ) where
  limit_entity_lem :
      (a : Address) (pending : List AiOperation) (dep : Option DepositInfo) (n : ℕ)
      → passes (limit_entity {E = E} a pending dep n) ≡ allowed dep pending n
  unfolding limit_entity
  limit_entity_lem a pending none n = refl
  limit_entity_lem a pending (some d) n = elim (Bool-cases d.staked) [
    | inl s ↦ rw (limit_entity, s) refl
    | inr s ↦
        rw (limit_entity, s)
          (elim (Bool-cases (length pending == n)) [ inl e ↦ rw e refl | inr e ↦ rw e refl ])
  ]

  limit_set_entity_lem :
      (a : Address) (pending : List AiOperation) (dep : Option DepositInfo) (n : ℕ)
      → passes (limit_set_entity {E = E} a pending dep n) ≡ unless_zero a (allowed dep pending n)
  unfolding limit_set_entity
  limit_set_entity_lem a pending dep n = elim (Bool-cases (a == zero_address)) [
    | inl e ↦ rw e refl
    | inr e ↦ rw e (limit_entity_lem a pending dep n)
  ]

  -- ValidateOpLimit lets an operation in exactly if its sender, its factory and its paymaster, where
  -- it has them, have a deposit known that is staked, or that is not while another number of
  -- operations is pending than the limit.
  pub validate_op_limit_lem :
      (c : ReputationConstants) (ctx : AiOpHandlerCtx)
      → passes (validate_op_limit {E = E} c ctx) ≡ below_limits c ctx
  unfolding validate_op_limit
  validate_op_limit_lem c ctx =
      let s =
        limit_entity_lem ctx.ai_op.sender ctx.pending_sender_ops ctx.sender_deposit
          c.same_sender_mempool_count in
      let f =
        limit_set_entity_lem (get_factory ctx.ai_op) ctx.pending_factory_ops ctx.factory_deposit
          c.same_unstaked_entity_mempool_count in
      let p =
        limit_set_entity_lem (get_paymaster ctx.ai_op) ctx.pending_paymaster_ops
          ctx.paymaster_deposit c.same_unstaked_entity_mempool_count in
      passes-then _ _ s (passes-then _ _ f p)
