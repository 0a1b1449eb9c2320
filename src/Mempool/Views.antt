-- ===== src/Mempool/Views.antt =====
-- What the queues hold: the operation of a key under an AiMiddleware, in the set of all operations and
-- in those of the entities.
use aiops_bundler.Base.{
  ℕ, Bool, true, not, ◌&&◌, ◌||◌, Option, none, some, ◌≡◌, refl, ◌∙◌, sym, inl, inr, arith,
}
use aiops_bundler.Base.Tests.{◌==◌, if◌then◌else◌, Bool-cases, Option-cases, ==_iff}
use aiops_bundler.Base.Int.{ℤ}
use aiops_bundler.Base.Dict.{lookup, lookup-insert}
use aiops_bundler.Aiop.{Address, AiOperation, zero_address, get_factory, get_paymaster}
use aiops_bundler.Mempool.{
  Key, get_unique_key, same_key, SortedSet, IsSortedSet, OpSet, Queues, get_entities_sorted_set,
  set_entity, add_to_entity, remove_from_entity,
}

-- The entities under whose address an operation is filed: the sender always, the factory and the
-- paymaster unless they are the zero address.
abbrev pub is_filed : Address → AiOperation → Bool
is_filed e op =
    (op.sender == e)
    || ((not (get_factory op == zero_address) && (get_factory op == e))
        || (not (get_paymaster op == zero_address) && (get_paymaster op == e)))

-- The addresses that RemoveOps looks under; the zero address is not left out.
abbrev pub is_named : Address → AiOperation → Bool
is_named e op = (op.sender == e) || ((get_factory op == e) || (get_paymaster op == e))

abbrev pub key_of : Address → AiOperation → Key
key_of ep op = get_unique_key ep op.sender op.nonce

pub same_key_refl : (k : Key) → same_key k k ≡ true
same_key_refl k = ground arith

pub same_key-eq : (j k : Key) → same_key j k ≡ true → j ≡ k
same_key-eq j k h = ground arith

module _ (S : SortedSet) where
  abbrev pub seen : Key → Option S.Set → Option AiOperation
  seen k none = none
  seen k (some s) = S.get_by_key k s

  abbrev pub entity_view : Address → Key → OpSet S → Option AiOperation
  entity_view e k s = seen k (lookup e s.entities)

  -- The operation of a key in an entity's set.
  abbrev pub view : Address → Address → Key → Queues S → Option AiOperation
  view ep e k q = elim (lookup ep q) [ none ↦ none | some s ↦ entity_view e k s ]

  -- The operation of a key in the set of all operations.
  abbrev pub view_all : Address → Key → Queues S → Option AiOperation
  view_all ep k q = elim (lookup ep q) [ none ↦ none | some s ↦ S.get_by_key k s.all ]

  module _ (L : IsSortedSet S) where
    pub get_entities_sorted_set_lem :
        (a : Address) (s : OpSet S) (e : Address) (k : Key)
        → (S.get_by_key k (get_entities_sorted_set S a s).0 ≡ entity_view a k s)
          × (entity_view e k (get_entities_sorted_set S a s).1 ≡ entity_view e k s)
          × ((get_entities_sorted_set S a s).1.all ≡ s.all)
    unfolding get_entities_sorted_set
    get_entities_sorted_set_lem a s e k = elim (Option-cases (lookup a s.entities)) [
      | inr (t, h) ↦ rw (get_entities_sorted_set, entity_view, h) (refl, refl, refl)
      | inl h ↦
          rw (get_entities_sorted_set, h)
            (
              L.get-new k,
              rw (lookup-insert a e S.new s.entities) (elim (Bool-cases (a == e)) [
                | inl t ↦ rw (t, sym ((==_iff a e).0 t), h) (L.get-new k)
                | inr f ↦ rw f refl
              ]),
              refl,
            )
    ]

    set_entity-view :
        (a : Address) (t : S.Set) (s : OpSet S) (e : Address) (k : Key)
        → entity_view e k (set_entity S a t s)
          ≡ (if a == e then S.get_by_key k t else entity_view e k s)
    set_entity-view a t s e k =
        rw (lookup-insert a e t s.entities)
          (elim (Bool-cases (a == e)) [ inl h ↦ rw h refl | inr h ↦ rw h refl ])

    pub add_to_entity-view :
        (a : Address) (key : Key) (score : ℕ → ℤ) (op : AiOperation) (s : OpSet S) (e : Address)
        (k : Key)
        → (entity_view e k (add_to_entity S a key score op s)
            ≡ (if (a == e) && same_key key k then some op else entity_view e k s))
          × ((add_to_entity S a key score op s).all ≡ s.all)
    unfolding add_to_entity
    add_to_entity-view a key score op s e k =
        let got = get_entities_sorted_set_lem a s e k in
        (
          set_entity-view a _ (get_entities_sorted_set S a s).1 e k ∙ elim (Bool-cases (a == e)) [
            | inl h ↦
                rw
                  (
                    h,
                    L.get-add key k (score (S.get_count (get_entities_sorted_set S a s).0)) op
                        (get_entities_sorted_set S a s).0,
                    got.0,
                    (==_iff a e).0 h,
                  )
                  refl
            | inr h ↦ rw (h, got.1) refl
          ],
          got.2,
        )

    pub remove_from_entity-view :
        (a : Address) (key : Key) (s : OpSet S) (e : Address) (k : Key)
        → (entity_view e k (remove_from_entity S a key s)
            ≡ (if (a == e) && same_key key k then none else entity_view e k s))
          × ((remove_from_entity S a key s).all ≡ s.all)
    unfolding remove_from_entity
    remove_from_entity-view a key s e k =
        let got = get_entities_sorted_set_lem a s e k in
        (
          set_entity-view a _ (get_entities_sorted_set S a s).1 e k ∙ elim (Bool-cases (a == e)) [
            | inl h ↦
                rw
                  (h, L.get-remove key k (get_entities_sorted_set S a s).0, got.0, (==_iff a e).0 h)
                  refl
            | inr h ↦ rw (h, got.1) refl
          ],
          got.2,
        )
