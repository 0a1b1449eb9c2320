-- ===== src/Entities.antt =====
-- The reputation of entities (pkg/modules/entities): their counters, decayed by the hour, and the
-- status that follows. The database is a parameter: which calls of a transaction fail, and whether it
-- commits. Counters are kept as numbers, not as the joined text of the database's values, and are
-- never negative.
pub mod Examples
pub mod Handlers
pub mod Standing
pub mod Decay
pub mod Reads
pub mod Freeze
pub mod Counting
use aiops_bundler.Base.{
  ℕ, zero, suc, ◌+◌, ◌-◌, ◌/◌, Bool, true, false, not, ◌&&◌, List, [], ◌∷◌, Option, none, some,
}
use aiops_bundler.Base.Tests.{ltb, leb, ◌==◌, if◌then◌else◌}
use aiops_bundler.Base.Lists.{length}
use aiops_bundler.Base.Dict.{Dict, lookup, insert}
use aiops_bundler.Base.Result.{Result, ok, err, ◌>>=◌}
use aiops_bundler.Errors.{RpcError, banned_or_throttled_entity, invalid_entity_stake}
use aiops_bundler.Aiop.{Address, AiOperation, zero_address, get_factory, get_paymaster}
use aiops_bundler.Modules.{AiOpHandlerCtx, BatchHandlerCtx, DepositInfo}

-- The fields that the handlers read.
pub record ReputationConstants : Type 0 where
  pub same_sender_mempool_count : ℕ
  pub same_unstaked_entity_mempool_count : ℕ
  pub throttled_entity_mempool_count : ℕ
  pub min_inclusion_rate_denominator : ℕ
  pub throttling_slack : ℕ
  pub ban_slack : ℕ

pub record ReputationOverride : Type 0 where
  pub address : Address
  pub ops_seen : ℕ
  pub ops_included : ℕ

pub data Status : Type 0 where
  fine throttled banned : Status

-- A value of the database: the counters, and the second at which they were written.
pub record OpsCount : Type 0 where
  pub ops_seen : ℕ
  pub ops_included : ℕ
  pub last_updated : ℕ

abbrev pub Store : Type 0
Store = Dict OpsCount

-- Which calls of a transaction fail, and with what; the key is the entity's.
pub record Txn {ℓ} (E : Type ℓ) : Type ℓ where
  pub get_error : Address → Option E
  pub set_error : Address → Option E
  pub commit_error : Option E

-- What the text of an RPC error says.
pub data Notice : Type 0 where
  banned_entity throttled_entity : Address → Notice
  exceeds_pending_ops_limit : Address → ℕ → Notice

pub data Refusal {ℓ} (E : Type ℓ) : Type ℓ where
  upstream : E → Refusal E
  rpc : RpcError Notice → Refusal E
  -- A nil pointer is read: Go panics.
  nil_deposit : Refusal E

abbrev pub ema_hours : ℕ
ema_hours = 24

-- The loop of applyExpWeights over `i` hours.
unfoldable pub decay_loop : ℕ → ℕ → ℕ → ℕ × ℕ
decay_loop zero ops_seen ops_included = (ops_seen, ops_included)
decay_loop (suc i) ops_seen ops_included =
    let rest =
      decay_loop i (ops_seen - ops_seen / ema_hours) (ops_included - ops_included / ema_hours) in
    if ltb ops_seen 24 && ltb ops_included 24 then (ops_seen, ops_included) else rest

-- getOpsCountValue at the time `now`.
abbrev pub ops_count_at : ℕ → ℕ → ℕ → OpsCount
ops_count_at now seen included = record {
  ops_seen = seen;
  ops_included = included;
  last_updated = now;
}

-- The status of counters.
unfoldable pub status_of : ReputationConstants → ℕ → ℕ → Status
status_of c ops_seen ops_included =
    if ops_seen == 0
    then fine
    else (let min_expected_included = ops_seen / c.min_inclusion_rate_denominator in
        if leb min_expected_included (ops_included + c.throttling_slack)
        then fine
        else if leb min_expected_included (ops_included + c.ban_slack)
        then throttled
        else banned)

-- The addressCounter of a batch.
abbrev pub bump : Address → Dict ℕ → Dict ℕ
bump a c = elim (lookup a c) [ none ↦ insert a 1 c | some n ↦ insert a (suc n) c ]

abbrev pub bump_set : Address → Dict ℕ → Dict ℕ
bump_set a c = if a == zero_address then c else bump a c

unfoldable pub count_ops : List AiOperation → Dict ℕ → Dict ℕ
count_ops [] c = c
count_ops (op ∷ ops) c =
    count_ops ops (bump_set (get_paymaster op) (bump_set (get_factory op) (bump op.sender c)))

module _ {ℓ} {E : Type ℓ} where
  unfoldable pub set_entry : Txn E → Address → OpsCount → Store → Result E Store
  set_entry txn a v db = elim (txn.set_error a) [ none ↦ ok (insert a v db) | some e ↦ err e ]

  unfoldable pub apply_exp_weights :
      Txn E → ℕ → Address → OpsCount → Store → Result E ((ℕ × ℕ) × Store)
  unfolding decay_loop set_entry
  apply_exp_weights txn now entity v db =
      let counts = decay_loop ((now - v.last_updated) / 3600) v.ops_seen v.ops_included in
      set_entry txn entity (ops_count_at now counts.0 counts.1) db >>= λ db'. ok (counts, db')

  unfoldable pub get_ops_count_by_entity : Txn E → ℕ → Address → Store → Result E ((ℕ × ℕ) × Store)
  unfolding apply_exp_weights
  get_ops_count_by_entity txn now entity db = elim (txn.get_error entity) [
    | some e ↦ err e
    | none ↦ elim (lookup entity db) [
      | none ↦ ok ((0, 0), db)
      | some v ↦ apply_exp_weights txn now entity v db
    ]
  ]

  unfoldable pub increment_ops_seen_by_entity : Txn E → ℕ → Address → Store → Result E Store
  unfolding get_ops_count_by_entity
  increment_ops_seen_by_entity txn now entity db =
      get_ops_count_by_entity txn now entity db >>= λ ((seen, included), db').
      set_entry txn entity (ops_count_at now (suc seen) included) db'

  unfoldable pub increment_ops_included_by_entity : Txn E → ℕ → Dict ℕ → Store → Result E Store
  increment_ops_included_by_entity txn now [] db = ok db
  increment_ops_included_by_entity txn now ((entity, n) ∷ count) db =
      get_ops_count_by_entity txn now entity db >>= λ ((seen, included), db').
      set_entry txn entity (ops_count_at now seen (included + n)) db' >>= λ db''.
      increment_ops_included_by_entity txn now count db''

  unfoldable pub get_status :
      Txn E → ℕ → ReputationConstants → Address → Store → Result E (Status × Store)
  unfolding get_ops_count_by_entity status_of
  get_status txn now c entity db =
      get_ops_count_by_entity txn now entity db >>= λ ((seen, included), db').
      ok (status_of c seen included, db')

  -- db.Update: an error drops what the transaction wrote.
  abbrev pub update {κ} : {F : Type κ} → (E → F) → Txn E → Result F Store → Result F Store
  update wrap txn r = r >>= λ db. elim txn.commit_error [ none ↦ ok db | some e ↦ err (wrap e) ]
