-- ===== src/Mempool/Pool/Agree.antt =====
-- Agreement of the mempool's queue and its database, and how their changes keep it.
use aiops_bundler.Base.{
  Bool, true, false, ◌&&◌, List, [], ◌∷◌, Option, none, some, ◌≡◌, refl, ◌∙◌, sym, ap, inl, inr,
  arith,
}
use aiops_bundler.Base.Tests.{◌==◌, if◌then◌else◌, Bool-cases, if-true, if-false}
use aiops_bundler.Base.Lists.{All}
use aiops_bundler.Base.Result.{Result, ok, err}
use aiops_bundler.Aiop.{Address, AiOperation}
use aiops_bundler.Mempool.{Key, same_key, SortedSet, IsSortedSet, Queues, add_op, remove_ops}
use aiops_bundler.Mempool.Views.{key_of, view_all, same_key_refl}
use aiops_bundler.Mempool.Filing.{add_op-view}
use aiops_bundler.Mempool.Removing.{drops_all, remove_ops-view}
use aiops_bundler.Mempool.Pool.{Db, get_value, delete_value, set_value, delete_ops, Mempool}

module _ {κ} {V : Type κ} where
  pub get-delete :
      (k j : Key) (db : Db V)
      → get_value j (delete_value k db) ≡ (if same_key k j then none else get_value j db)
  unfolding get_value delete_value
  get-delete k j [] = ground arith
  get-delete k j ((i, v) ∷ db) = ground (arith, get-delete k j db)

  pub get-set :
      (k j : Key) (v : V) (db : Db V)
      → get_value j (set_value k v db) ≡ (if same_key k j then some v else get_value j db)
  unfolding get_value
  get-set k j v db = ground (arith, get-delete k j db)

  get-delete_ops :
      (ep : Address) (ops : List AiOperation) (k : Key) (db : Db V)
      → get_value k (delete_ops ep ops db) ≡ (if drops_all ep k ops then none else get_value k db)
  unfolding delete_ops
  get-delete_ops ep [] k db = refl
  get-delete_ops ep (op ∷ ops) k db = ground (
    arith,
    get-delete_ops ep ops k (delete_value (key_of ep op) db),
    get-delete (key_of ep op) k db,
  )

module _ {ℓ κ} (S : SortedSet) {E : Type ℓ} {V : Type κ} (read : V → Result E AiOperation) where
  -- The operation that a stored value stands for.
  abbrev pub stored : Option V → Option AiOperation
  stored none = none
  stored (some v) = elim (read v) [ ok op ↦ some op | err e ↦ none ]

  -- The queue has the operation of every key that the database has, and no other.
  abbrev pub Agrees : Queues S → Db V → Type 0
  Agrees q db = (k : Key) → view_all S k.ai_middleware k q ≡ stored (get_value k db)

  -- Every entry is the one that its key finds, and can be read as an operation of that key.
  abbrev pub Readable : Db V → Db V → Type (ℓ ⊔ κ)
  Readable db entries =
      All
        (λ kv.
          (get_value kv.0 db ≡ some kv.1)
          × ((op : AiOperation) × (read kv.1 ≡ ok op) × (kv.0 ≡ key_of kv.0.ai_middleware op)))
        entries

  abbrev pub IsSynced : Mempool S V → Type (ℓ ⊔ κ)
  IsSynced m = Agrees m.queue m.db × Readable m.db m.db

  module _ (L : IsSortedSet S) where
    stored-if :
        (b : Bool) (v : V) (op : AiOperation) (o : Option V)
        → read v ≡ ok op
        → stored (if b then some v else o) ≡ (if b then some op else stored o)
    stored-if true v op o h = rw h refl
    stored-if false v op o h = refl

    pub set-Agrees :
        (ep : Address) (op : AiOperation) (value : V) (q : Queues S) (db : Db V)
        → read value ≡ ok op
        → Agrees q db
        → Agrees (add_op S ep op q) (set_value (key_of ep op) value db)
    set-Agrees ep op value q db r h k =
        let same = same_key (key_of ep op) k in
        let added = (add_op-view S L ep op q k.ai_middleware 0 k).1 in
        let kept =
          ap stored (get-set (key_of ep op) k value db)
          ∙ stored-if same value op (get_value k db) r in
        added
        ∙ (elim (Bool-cases same) [
          | inl e ↦
              if-true ((ep == k.ai_middleware) && same) _ _ (ground arith)
              ∙ sym (if-true same _ _ e)
          | inr e ↦
              if-false ((ep == k.ai_middleware) && same) _ _ (ground arith)
              ∙ (h k ∙ sym (if-false same _ _ e))
        ]
            ∙ sym kept)

    drops_all-here :
        (ep : Address) (k : Key) (ops : List AiOperation)
        → drops_all ep k ops ≡ true
        → (ep == k.ai_middleware) ≡ true
    drops_all-here ep k [] h = ground arith
    drops_all-here ep k (op ∷ ops) h = ground (arith, drops_all-here ep k ops)

    pub delete-Agrees :
        (ep : Address) (ops : List AiOperation) (q : Queues S) (db : Db V)
        → Agrees q db
        → Agrees (remove_ops S ep ops q) (delete_ops ep ops db)
    delete-Agrees ep ops q db h k =
        let gone = drops_all ep k ops in
        let removed = (remove_ops-view S L ep ops q k.ai_middleware 0 k).1 in
        let kept = ap stored (get-delete_ops ep ops k db) in
        removed
        ∙ (elim (Bool-cases gone) [
          | inl e ↦
              if-true ((ep == k.ai_middleware) && gone) _ _
                (let here = drops_all-here ep k ops e in ground arith)
              ∙ ap stored (sym (if-true gone none (get_value k db) e))
          | inr e ↦
              if-false ((ep == k.ai_middleware) && gone) _ _ (ground arith)
              ∙ (h k ∙ ap stored (sym (if-false gone none (get_value k db) e)))
        ]
            ∙ sym kept)

    Readable-delete :
        (k : Key) (db entries : Db V)
        → Readable db entries
        → Readable (delete_value k db) (delete_value k entries)
    unfolding delete_value
    Readable-delete k db [] h = tt
    Readable-delete k db ((j, v) ∷ entries) h = elim (Bool-cases (same_key j k)) [
      | inl e ↦ rw e (Readable-delete k db entries h.1)
      | inr e ↦ rw e (
        (get-delete k j db ∙ (if-false (same_key k j) _ _ (ground arith) ∙ h.0.0), h.0.1),
        Readable-delete k db entries h.1,
      )
    ]

    pub Readable-delete_ops :
        (ep : Address) (ops : List AiOperation) (db : Db V)
        → Readable db db
        → Readable (delete_ops ep ops db) (delete_ops ep ops db)
    unfolding delete_ops
    Readable-delete_ops ep [] db h = h
    Readable-delete_ops ep (op ∷ ops) db h =
        Readable-delete_ops ep ops (delete_value (key_of ep op) db)
          (Readable-delete (key_of ep op) db db h)

    -- The entries of a store that a new entry does not touch stay readable in it.
    pub Readable-set :
        (ep : Address) (op : AiOperation) (value : V) (db : Db V)
        → read value ≡ ok op
        → Readable db db
        → Readable (set_value (key_of ep op) value db) (set_value (key_of ep op) value db)
    unfolding delete_value
    Readable-set ep op value db r h = (
      (
        get-set (key_of ep op) (key_of ep op) value db
            ∙ if-true _ _ _ (same_key_refl (key_of ep op)),
        (op, r, refl),
      ),
      others db h,
    )
      where
        others :
            (entries : Db V)
            → Readable db entries
            → Readable (set_value (key_of ep op) value db) (delete_value (key_of ep op) entries)
        others [] h = tt
        others ((j, v) ∷ entries) h = elim (Bool-cases (same_key j (key_of ep op))) [
          | inl e ↦ rw e (others entries h.1)
          | inr e ↦ rw e (
            (
              get-set (key_of ep op) j value db
                  ∙ (if-false (same_key (key_of ep op) j) _ _ (ground arith) ∙ h.0.0),
              h.0.1,
            ),
            others entries h.1,
          )
        ]
