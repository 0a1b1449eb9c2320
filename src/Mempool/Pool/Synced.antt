-- ===== src/Mempool/Pool/Synced.antt =====
-- The mempool's queue agrees with its database, also after a restart.
use aiops_bundler.Base.{
  Bool, true, false, ◌&&◌, ◌||◌, List, [], ◌∷◌, Option, none, some, ◌≡◌, refl, ◌∙◌, sym, ap, inl,
  inr, arith,
}
use aiops_bundler.Base.Tests.{◌==◌, if◌then◌else◌, Bool-cases, if-true, if-false}
use aiops_bundler.Base.Dict.{lookup-nil}
use aiops_bundler.Base.Result.{Result, ok}
use aiops_bundler.Aiop.{Address, AiOperation}
use aiops_bundler.Mempool.{
  Key, same_key, SortedSet, IsSortedSet, Queues, new_ai_op_queue, add_op, remove_ops,
}
use aiops_bundler.Mempool.Views.{key_of, view_all, same_key-eq}
use aiops_bundler.Mempool.Filing.{add_op-view}
use aiops_bundler.Mempool.Pool.Agree.{
  stored, Readable, IsSynced, set-Agrees, delete-Agrees, Readable-set, Readable-delete_ops,
}
use aiops_bundler.Mempool.Pool.{
  Db, get_value, set_value, delete_ops, load_from_disk, Mempool, new, pool_add, pool_remove,
}

module _ {ℓ κ} (S : SortedSet) {E : Type ℓ} {V : Type κ} (read : V → Result E AiOperation) where
  module _ (L : IsSortedSet S) where
    -- The keys of a list of entries.
    abbrev has : Key → Db V → Bool
    has k [] = false
    has k ((j, v) ∷ db) = same_key j k || has k db

    load_one :
        (db : Db V) (j k : Key) (v : V) (op : AiOperation) (b : Bool) (o : Option AiOperation)
        → get_value j db ≡ some v
        → read v ≡ ok op
        → j ≡ key_of j.ai_middleware op
        → b ≡ false
        → (if (j.ai_middleware == k.ai_middleware) && same_key (key_of j.ai_middleware op) k
            then some op
            else o)
          ≡ (if same_key j k || b then stored S read (get_value k db) else o)
    load_one db j k v op b o found r own f = elim (Bool-cases (same_key j k)) [
      | inl e ↦
          let here : same_key (key_of j.ai_middleware op) k ≡ true =
            ap (λ i. same_key i k) (sym own) ∙ e in
          let value : stored S read (get_value k db) ≡ some op =
            ap (λ i. stored S read (get_value i db)) (sym (same_key-eq j k e))
            ∙ rw (found, stored, r) refl in
          if-true ((j.ai_middleware == k.ai_middleware) && same_key (key_of j.ai_middleware op) k) _
            _ (ground arith)
          ∙ (sym value ∙ sym (if-true (same_key j k || b) _ _ (ground arith)))
      | inr e ↦
          let here : same_key (key_of j.ai_middleware op) k ≡ false =
            ap (λ i. same_key i k) (sym own) ∙ e in
          if-false ((j.ai_middleware == k.ai_middleware) && same_key (key_of j.ai_middleware op) k)
            _ _ (ground arith)
          ∙ sym (if-false (same_key j k || b) _ _ (ground arith))
    ]

    load_from_disk_lem :
        (db entries : Db V) (q : Queues S)
        → Readable S read db entries
        → (q' : Queues S) × (load_from_disk S read entries q ≡ ok q')
          × ((k : Key)
              → view_all S k.ai_middleware k q' ≡ (
                  if has k entries
                  then stored S read (get_value k db)
                  else view_all S k.ai_middleware k q))
    unfolding load_from_disk
    load_from_disk_lem db [] q h = (q, refl, λ k. refl)
    load_from_disk_lem db ((j, v) ∷ entries) q ((found, (op, r, own)), rest) =
        let (q', e, views) = load_from_disk_lem db entries (add_op S j.ai_middleware op q) rest in
        (
          q',
          rw r e,
          λ k.
              let added = (add_op-view S L j.ai_middleware op q k.ai_middleware 0 k).1 in
              views k ∙ elim (Bool-cases (has k entries)) [
                | inl t ↦
                    if-true _ _ _ t
                    ∙ sym (if-true (same_key j k || has k entries) _ _ (ground arith))
                | inr f ↦
                    if-false _ _ _ f
                    ∙ (added ∙ load_one db j k v op (has k entries) _ found r own f)
              ],
        )

    get_value-missing : (k : Key) (db : Db V) → has k db ≡ false → get_value k db ≡ none
    unfolding get_value
    get_value-missing k [] h = refl
    get_value-missing k ((j, v) ∷ db) h = ground (arith, get_value-missing k db)

    view_all-new : (k : Key) → view_all S k.ai_middleware k (new_ai_op_queue S) ≡ none
    view_all-new k = rw (view_all, new_ai_op_queue, lookup-nil k.ai_middleware) refl

    -- New reads a database whose entries can be read back without an error, and the queue it builds
    -- has exactly the operations of the database.
    new-IsSynced :
        (db : Db V)
        → Readable S read db db
        → (m : Mempool S V) × (new S V read db ≡ ok m) × (m.db ≡ db) × IsSynced S read m
    unfolding new
    new-IsSynced db h =
        let (q, e, views) = load_from_disk_lem db db (new_ai_op_queue S) h in
        (
          record { db = db; queue = q },
          rw e refl,
          refl,
          (
            λ k. views k ∙ elim (Bool-cases (has k db)) [
              | inl t ↦ if-true _ _ _ t
              | inr f ↦
                  if-false _ _ _ f
                  ∙ (view_all-new k ∙ ap (stored S read) (sym (get_value-missing k db f)))
            ],
            h,
          ),
        )

    -- AddOp of an operation whose stored form reads back as itself keeps the queue and the database in
    -- agreement, whenever it succeeds, and it succeeds if the transaction does.
    pub pool_add-IsSynced :
        (marshal : AiOperation → Result E V) (ep : Address) (op : AiOperation) (value : V)
        (m : Mempool S V)
        → marshal op ≡ ok value
        → read value ≡ ok op
        → IsSynced S read m
        → (m' : Mempool S V) × (pool_add S V marshal none ep op m ≡ ok m') × IsSynced S read m'
    unfolding pool_add
    pool_add-IsSynced marshal ep op value m e r (agrees, readable) = (
      record { db = set_value (key_of ep op) value m.db; queue = add_op S ep op m.queue },
      rw e refl,
      (
        set-Agrees S read L ep op value m.queue m.db r agrees,
        Readable-set S read L ep op value m.db r readable,
      ),
    )

    -- RemoveOps keeps the queue and the database in agreement.
    pub pool_remove-IsSynced :
        (ep : Address) (ops : List AiOperation) (m : Mempool S V)
        → IsSynced S read m
        → (m' : Mempool S V) × (pool_remove S V {E = E} none ep ops m ≡ ok m') × IsSynced S read m'
    unfolding pool_remove
    pool_remove-IsSynced ep ops m (agrees, readable) = (
      record { db = delete_ops ep ops m.db; queue = remove_ops S ep ops m.queue },
      refl,
      (
        delete-Agrees S read L ep ops m.queue m.db agrees,
        Readable-delete_ops S read L ep ops m.db readable,
      ),
    )

    -- A restart of a mempool whose queue and database agree loses nothing: New succeeds on its
    -- database, and the new queue has the same operation under every key.
    pub new-restart :
        (m : Mempool S V)
        → IsSynced S read m
        → (m' : Mempool S V) × (new S V read m.db ≡ ok m')
          × ((k : Key)
              → view_all S k.ai_middleware k m'.queue ≡ view_all S k.ai_middleware k m.queue)
    new-restart m (agrees, readable) =
        let (m', e, same, (again, _)) = new-IsSynced m.db readable in
        (m', e, λ k. again k ∙ (ap (λ db. stored S read (get_value k db)) same ∙ sym (agrees k)))
