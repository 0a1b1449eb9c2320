-- ===== src/Mempool/Removing.antt =====
-- What RemoveOps of the queues changes, and what GetOps and All return.
use mathlib.Core.List.{Mem}
use aiops_bundler.Base.{
  Bool, true, false, ◌&&◌, ◌||◌, List, [], ◌∷◌, Option, none, some, ◌≡◌, ◌≢◌, refl, ◌∙◌, ap, inl,
  inr, arith,
}
use aiops_bundler.Base.Tests.{if-true, if-false, ◌==◌, if◌then◌else◌, Bool-cases, ==_iff}
use aiops_bundler.Aiop.{Address, AiOperation, zero_address, get_factory, get_paymaster}
use aiops_bundler.Mempool.{
  Key, same_key, SortedSet, IsSortedSet, OpSet, Queues, get_ai_middleware_set, remove_from_entity,
  get_entities_sorted_set, add_op, remove_op, remove_loop, remove_ops, get_ops, all_ops,
}
use aiops_bundler.Mempool.Views.{
  is_filed, is_named, key_of, same_key_refl, entity_view, view, view_all, remove_from_entity-view,
  get_entities_sorted_set_lem,
}
use aiops_bundler.Mempool.Filing.{insert-view, get_ai_middleware_set_lem, add_op-view}

-- Whether RemoveOps takes a key out of an entity's set, or out of the set of all operations.
abbrev pub drops : Address → Address → Key → List AiOperation → Bool
drops ep e k [] = false
drops ep e k (op ∷ ops) = (is_named e op && same_key (key_of ep op) k) || drops ep e k ops

abbrev pub drops_all : Address → Key → List AiOperation → Bool
drops_all ep k [] = false
drops_all ep k (op ∷ ops) = same_key (key_of ep op) k || drops_all ep k ops

module _ (S : SortedSet) (L : IsSortedSet S) where
  merge :
      (a b c k : Bool) (y0 y1 y2 y3 : Option AiOperation)
      → y3 ≡ (if c && k then none else y2)
      → y2 ≡ (if b && k then none else y1)
      → y1 ≡ (if a && k then none else y0)
      → y3 ≡ (if (a || (b || c)) && k then none else y0)
  merge a b c k y0 y1 y2 y3 h3 h2 h1 = ground arith

  remove_op-view :
      (ep : Address) (op : AiOperation) (s : OpSet S) (e : Address) (k : Key)
      → (entity_view S e k (remove_op S ep op s)
          ≡ (if is_named e op && same_key (key_of ep op) k then none else entity_view S e k s))
        × (S.get_by_key k (remove_op S ep op s).all
            ≡ (if same_key (key_of ep op) k then none else S.get_by_key k s.all))
  unfolding remove_op
  remove_op-view ep op s e k =
      let key = key_of ep op in
      let s1 : OpSet S = record s { all = S.remove key s.all } in
      let s2 = remove_from_entity S op.sender key s1 in
      let s3 = remove_from_entity S (get_factory op) key s2 in
      let sender = remove_from_entity-view S L op.sender key s1 e k in
      let factory = remove_from_entity-view S L (get_factory op) key s2 e k in
      let paymaster = remove_from_entity-view S L (get_paymaster op) key s3 e k in
      (
        merge (op.sender == e) _ _ (same_key key k) _ _ _ _ paymaster.0 factory.0 sender.0,
        ap (S.get_by_key k) (paymaster.1 ∙ (factory.1 ∙ sender.1)) ∙ L.get-remove key k s.all,
      )

  remove_loop-view :
      (ep : Address) (ops : List AiOperation) (s : OpSet S) (e : Address) (k : Key)
      → (entity_view S e k (remove_loop S ep ops s)
          ≡ (if drops ep e k ops then none else entity_view S e k s))
        × (S.get_by_key k (remove_loop S ep ops s).all
            ≡ (if drops_all ep k ops then none else S.get_by_key k s.all))
  unfolding remove_loop
  remove_loop-view ep [] s e k = (refl, refl)
  remove_loop-view ep (op ∷ ops) s e k =
      let first = remove_op-view ep op s e k in
      let rest = remove_loop-view ep ops (remove_op S ep op s) e k in
      (
        two (is_named e op && same_key (key_of ep op) k) (drops ep e k ops) _ _ _ rest.0 first.0,
        two (same_key (key_of ep op) k) (drops_all ep k ops) _ _ _ rest.1 first.1,
      )
    where
      two :
          (a b : Bool) (y0 y1 y2 : Option AiOperation)
          → y2 ≡ (if b then none else y1)
          → y1 ≡ (if a then none else y0)
          → y2 ≡ (if a || b then none else y0)
      two a b y0 y1 y2 h2 h1 = ground arith

  -- RemoveOps takes the key of every operation it is given out of the set of its AiMiddleware and of
  -- the sets of that operation's sender, factory and paymaster, and changes nothing else.
  pub remove_ops-view :
      (ep : Address) (ops : List AiOperation) (q : Queues S) (ep' e : Address) (k : Key)
      → (view S ep' e k (remove_ops S ep ops q)
          ≡ (if (ep == ep') && drops ep e k ops then none else view S ep' e k q))
        × (view_all S ep' k (remove_ops S ep ops q)
            ≡ (if (ep == ep') && drops_all ep k ops then none else view_all S ep' k q))
  unfolding remove_ops
  remove_ops-view ep ops q ep' e k =
      let got = get_ai_middleware_set_lem S L ep ep' e k q in
      let s = (get_ai_middleware_set S ep q).0 in
      let removed = remove_loop-view ep ops s e k in
      let put =
        insert-view S ep ep' e k (remove_loop S ep ops s) (get_ai_middleware_set S ep q).1 in
      elim (Bool-cases (ep == ep')) [
        | inl h ↦ (
          put.0 ∙ rw (h, removed.0, got.0, (==_iff ep ep').0 h) refl,
          put.1 ∙ rw (h, removed.1, got.1, (==_iff ep ep').0 h) refl,
        )
        | inr h ↦ (put.0 ∙ rw (h, got.2) refl, put.1 ∙ rw (h, got.3) refl)
      ]

  -- An operation that was added is among those that Dump returns for its AiMiddleware and that GetOps
  -- returns for each of its entities.
  pub add_op-Mem :
      (ep : Address) (op : AiOperation) (q : Queues S) (e : Address)
      → is_filed e op ≡ true
      → Mem op (get_ops S ep e (add_op S ep op q)).0 × Mem op (all_ops S ep (add_op S ep op q)).0
  unfolding get_ops all_ops
  add_op-Mem ep op q e h =
      let q' = add_op S ep op q in
      let k = key_of ep op in
      let eps = (get_ai_middleware_set S ep q').0 in
      let added = add_op-view S L ep op q ep e k in
      let got = get_ai_middleware_set_lem S L ep ep e k q' in
      let ess = get_entities_sorted_set_lem S L e eps e k in
      let same = same_key_refl k in
      let this : (ep == ep) ≡ true = ground arith in
      (
        L.get-descending k op (get_entities_sorted_set S e eps).0 (
            ess.0
            ∙ (got.0
                ∙ (added.0
                    ∙ if-true ((ep == ep) && (is_filed e op && same_key k k)) _ _ (ground arith)))),
        L.get-ascending k op eps.all
            (got.1 ∙ (added.1 ∙ if-true ((ep == ep) && same_key k k) _ _ (ground arith))),
      )

  -- When an operation is replaced by one of the same sender and nonce that has another paymaster, the
  -- old one stays in the old paymaster's set, and is still there when the new one has been removed.
  pub add_op-stale :
      (ep : Address) (op1 op2 : AiOperation) (q : Queues S)
      → op1.sender ≡ op2.sender
      → op1.nonce ≡ op2.nonce
      → get_paymaster op1 ≢ zero_address
      → is_named (get_paymaster op1) op2 ≡ false
      → (view S ep
            (get_paymaster op1)
            (key_of ep op1)
            (remove_ops S ep (op2 ∷ []) (add_op S ep op2 (add_op S ep op1 q)))
          ≡ some op1)
        × (view_all S ep
              (key_of ep op1)
              (remove_ops S ep (op2 ∷ []) (add_op S ep op2 (add_op S ep op1 q)))
            ≡ none)
  add_op-stale ep op1 op2 q hs hn hp hm =
      let removed =
        remove_ops-view ep (op2 ∷ []) (add_op S ep op2 (add_op S ep op1 q)) ep (get_paymaster op1)
          (key_of ep op1) in
      let second =
        add_op-view S L ep op2 (add_op S ep op1 q) ep (get_paymaster op1) (key_of ep op1) in
      let first = add_op-view S L ep op1 q ep (get_paymaster op1) (key_of ep op1) in
      let pm = get_paymaster op1 in
      let k = key_of ep op1 in
      let same : same_key (key_of ep op2) k ≡ true = ground arith in
      (
        removed.0
            ∙ (if-false ((ep == ep) && drops ep pm k (op2 ∷ [])) _ _ (ground arith)
                ∙ (second.0
                    ∙ (if-false ((ep == ep) && (is_filed pm op2 && same_key (key_of ep op2) k)) _ _
                          (ground arith)
                        ∙ (first.0
                            ∙ if-true ((ep == ep) && (is_filed pm op1 && same_key k k)) _ _
                                (ground arith))))),
        removed.1 ∙ if-true ((ep == ep) && drops_all ep k (op2 ∷ [])) _ _ (ground arith),
      )
