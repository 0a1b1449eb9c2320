-- ===== src/Mempool/Pool.antt =====
-- The mempool over its database (pkg/mempool/instance.go and db.go). The embedded database is a map
-- from keys to values, in no particular order; a transaction commits or fails as a whole. The JSON of
-- an operation and its reading back (MarshalJSON and getAiOpFromDBValue) are parameters.
pub mod Agree
pub mod Synced
use aiops_bundler.Base.{ℕ, Bool, true, false, List, [], ◌∷◌, Option, none, some}
use aiops_bundler.Base.Tests.{if◌then◌else◌}
use aiops_bundler.Base.Result.{Result, ok, err, ◌>>=◌}
use aiops_bundler.Aiop.{Address, AiOperation}
use aiops_bundler.Mempool.{
  Key, get_unique_key, same_key, SortedSet, Queues, new_ai_op_queue, add_op, remove_ops, get_ops,
  all_ops,
}

abbrev pub Db {ℓ} : Type ℓ → Type ℓ
Db V = List (Key × V)

module _ {ℓ} {V : Type ℓ} where
  unfoldable pub get_value : Key → Db V → Option V
  get_value k [] = none
  get_value k ((j, v) ∷ db) = if same_key j k then some v else get_value k db

  unfoldable pub delete_value : Key → Db V → Db V
  delete_value k [] = []
  delete_value k ((j, v) ∷ db) =
      if same_key j k then delete_value k db else (j, v) ∷ delete_value k db

  abbrev pub set_value : Key → V → Db V → Db V
  set_value k v db = (k, v) ∷ delete_value k db

  -- The loop of RemoveOps' transaction.
  unfoldable pub delete_ops : Address → List AiOperation → Db V → Db V
  delete_ops ep [] db = db
  delete_ops ep (op ∷ ops) db =
      delete_ops ep ops (delete_value (get_unique_key ep op.sender op.nonce) db)

-- A database call returns its error or nil.
abbrev pub after {ℓ κ} : {E : Type ℓ} {A : Type κ} → Option E → A → Result E A
after none a = ok a
after (some e) a = err e

module _ {ℓ κ} (S : SortedSet) {E : Type ℓ} {V : Type κ} where
  -- The loop of loadFromDisk over the entries with the prefix of the mempool.
  unfoldable pub load_from_disk : (V → Result E AiOperation) → Db V → Queues S → Result E (Queues S)
  load_from_disk read [] q = ok q
  load_from_disk read ((k, v) ∷ db) q =
      read v >>= λ op. load_from_disk read db (add_op S k.ai_middleware op q)

module _ {κ} (S : SortedSet) (V : Type κ) where
  pub record Mempool : Type κ where
    pub db : Db V
    pub queue : Queues S

  unfoldable pub new {ℓ} : {E : Type ℓ} → (V → Result E AiOperation) → Db V → Result E Mempool
  unfolding load_from_disk
  new read db =
      load_from_disk S read db (new_ai_op_queue S) >>= λ q. ok (record { db = db; queue = q })

  unfoldable pub pool_add {ℓ} :
      {E : Type ℓ}
      → (AiOperation → Result E V)
      → Option E
      → Address
      → AiOperation
      → Mempool
      → Result E Mempool
  pool_add marshal commit ep op m = marshal op >>= λ value. after commit (record {
    db = set_value (get_unique_key ep op.sender op.nonce) value m.db;
    queue = add_op S ep op m.queue;
  })

  unfoldable pub pool_remove {ℓ} :
      {E : Type ℓ} → Option E → Address → List AiOperation → Mempool → Result E Mempool
  unfolding delete_ops
  pool_remove commit ep ops m =
      after commit (record { db = delete_ops ep ops m.db; queue = remove_ops S ep ops m.queue })

  unfoldable pub clear {ℓ} : {E : Type ℓ} → Option E → Mempool → Result E Mempool
  clear commit m = after commit (record { db = []; queue = new_ai_op_queue S })
