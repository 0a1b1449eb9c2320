-- ===== src/Entities/Freeze.antt =====
-- Repeated reads of one entity's counters (getOpsCountByEntity, which writes them back with a new
-- time).
use aiops_bundler.Base.{ℕ, ◌+◌, ◌-◌, ◌/◌, ◌≤◌, ◌<◌, List, [], ◌∷◌, some, ◌≡◌, refl, ◌∙◌, arith}
use aiops_bundler.Base.Dict.{lookup, lookup-insert}
use aiops_bundler.Base.Result.{Result, ok, ◌>>=◌}
use aiops_bundler.Aiop.{Address}
use aiops_bundler.Entities.{OpsCount, Store, Txn, ops_count_at, decay_loop, get_ops_count_by_entity}
use aiops_bundler.Entities.Reads.{touched, NoErrors, get_ops_count_by_entity_lem}

-- Each time is less than an hour after the one before.
abbrev pub IsFrequent : ℕ → List ℕ → Type 0
IsFrequent last [] = Unit
IsFrequent last (now ∷ times) = (last ≤ now) × (now < last + 3600) × IsFrequent now times

-- The time of the last read.
abbrev pub last_of : ℕ → List ℕ → ℕ
last_of last [] = last
last_of last (now ∷ times) = last_of now times

touched-frequent :
    (now : ℕ) (db : Store) (a : Address) (v : OpsCount)
    → lookup a db ≡ some v
    → now < v.last_updated + 3600
    → lookup a (touched now db a) ≡ some (ops_count_at now v.ops_seen v.ops_included)
unfolding decay_loop
touched-frequent now db a v e h =
    let hours : (now - v.last_updated) / 3600 ≡ 0 = omega arith in
    rw (touched, e, hours)
      (lookup-insert a a (ops_count_at now v.ops_seen v.ops_included) db ∙ ground arith)

module _ {ℓ} {E : Type ℓ} where
  abbrev pub read_all : Txn E → List ℕ → Address → Store → Result E Store
  read_all txn [] a db = ok db
  read_all txn (now ∷ times) a db =
      get_ops_count_by_entity txn now a db >>= λ r. read_all txn times a r.1

  -- Reads that each follow the last within an hour leave an entity's counters as they were, however
  -- long they go on for: the hours are counted from the last read, in whole hours.
  pub read_all-frequent :
      (txn : Txn E) (times : List ℕ) (a : Address) (db : Store) (v : OpsCount)
      → NoErrors txn
      → lookup a db ≡ some v
      → IsFrequent v.last_updated times
      → (db' : Store) × (read_all txn times a db ≡ ok db')
        × (lookup a db'
            ≡ some (ops_count_at (last_of v.last_updated times) v.ops_seen v.ops_included))
  read_all-frequent txn [] a db v h e f = (db, refl, e)
  read_all-frequent txn (now ∷ times) a db v h e f =
      let (db', r, s) =
        read_all-frequent txn times a (touched now db a)
          (ops_count_at now v.ops_seen v.ops_included) h (touched-frequent now db a v e f.1) f.2 in
      (db', rw (get_ops_count_by_entity_lem txn now a db h) r, s)
