-- ===== src/Mempool/Filing.antt =====
-- What AddOp of the queues changes.
use aiops_bundler.Base.{
  ℕ, Bool, not, ◌&&◌, ◌||◌, [], Option, some, ◌≡◌, refl, ◌∙◌, sym, ap, inl, inr, arith,
}
use aiops_bundler.Base.Tests.{◌==◌, if◌then◌else◌, Bool-cases, Option-cases, ==_iff}
use aiops_bundler.Base.Int.{ℤ, pos}
use aiops_bundler.Base.Dict.{lookup, insert, lookup-insert, lookup-nil}
use aiops_bundler.Aiop.{Address, AiOperation, zero_address, get_factory, get_paymaster}
use aiops_bundler.Mempool.{
  Key, int64_of, same_key, SortedSet, IsSortedSet, OpSet, Queues, get_ai_middleware_set,
  add_to_entity, file_op, add_op,
}
use aiops_bundler.Mempool.Views.{
  is_filed, key_of, seen, entity_view, view, view_all, add_to_entity-view,
}

module _ (S : SortedSet) where
  pub insert-view :
      (ep ep' e : Address) (k : Key) (s : OpSet S) (q : Queues S)
      → (view S ep' e k (insert ep s q)
          ≡ (if ep == ep' then entity_view S e k s else view S ep' e k q))
        × (view_all S ep' k (insert ep s q)
            ≡ (if ep == ep' then S.get_by_key k s.all else view_all S ep' k q))
  insert-view ep ep' e k s q =
      rw (view, view_all, lookup-insert ep ep' s q)
        (elim (Bool-cases (ep == ep')) [ inl h ↦ rw h (refl, refl) | inr h ↦ rw h (refl, refl) ])

  module _ (L : IsSortedSet S) where
    pub get_ai_middleware_set_lem :
        (ep ep' e : Address) (k : Key) (q : Queues S)
        → (entity_view S e k (get_ai_middleware_set S ep q).0 ≡ view S ep e k q)
          × (S.get_by_key k (get_ai_middleware_set S ep q).0.all ≡ view_all S ep k q)
          × (view S ep' e k (get_ai_middleware_set S ep q).1 ≡ view S ep' e k q)
          × (view_all S ep' k (get_ai_middleware_set S ep q).1 ≡ view_all S ep' k q)
    unfolding get_ai_middleware_set
    get_ai_middleware_set_lem ep ep' e k q = elim (Option-cases (lookup ep q)) [
      | inr (s, h) ↦ rw (get_ai_middleware_set, view, view_all, h) (refl, refl, refl, refl)
      | inl h ↦
          let s : OpSet S = record { all = S.new; entities = [] } in
          let new = insert-view ep ep' e k s q in
          let at = (==_iff ep ep').0 in
          rw (get_ai_middleware_set, view, view_all, h)
            (
              ap (seen S k) (lookup-nil e),
              L.get-new k,
              new.0 ∙ elim (Bool-cases (ep == ep')) [
                | inl t ↦ rw (t, view, sym (at t), h) (ap (seen S k) (lookup-nil e))
                | inr f ↦ rw f refl
              ],
              new.1 ∙ elim (Bool-cases (ep == ep')) [
                | inl t ↦ rw (t, view_all, sym (at t), h) (L.get-new k)
                | inr f ↦ rw f refl
              ],
            )
    ]

    add_set-view :
        (a : Address) (key : Key) (score : ℕ → ℤ) (op : AiOperation) (s : OpSet S) (e : Address)
        (k : Key)
        → (entity_view S e k (if a == zero_address then s else add_to_entity S a key score op s) ≡ (
            if (not (a == zero_address) && (a == e)) && same_key key k
            then some op
            else entity_view S e k s))
          × ((if a == zero_address then s else add_to_entity S a key score op s).all ≡ s.all)
    add_set-view a key score op s e k = elim (Bool-cases (a == zero_address)) [
      | inl h ↦ rw h (refl, refl)
      | inr h ↦ rw h (add_to_entity-view S L a key score op s e k)
    ]

    merge :
        (a b c k : Bool) (x y0 y1 y2 y3 : Option AiOperation)
        → y3 ≡ (if c && k then x else y2)
        → y2 ≡ (if b && k then x else y1)
        → y1 ≡ (if a && k then x else y0)
        → y3 ≡ (if (a || (b || c)) && k then x else y0)
    merge a b c k x y0 y1 y2 y3 h3 h2 h1 = ground arith

    file_op-view :
        (ep : Address) (op : AiOperation) (s : OpSet S) (e : Address) (k : Key)
        → (entity_view S e k (file_op S ep op s)
            ≡ (if is_filed e op && same_key (key_of ep op) k then some op else entity_view S e k s))
          × (S.get_by_key k (file_op S ep op s).all
              ≡ (if same_key (key_of ep op) k then some op else S.get_by_key k s.all))
    unfolding file_op
    file_op-view ep op s e k =
        let key = key_of ep op in
        let s1 : OpSet S = record s {
          all = S.add_or_update key (pos (S.get_count s.all)) op s.all;
        } in
        let s2 = add_to_entity S op.sender key (λ n. int64_of op.nonce) op s1 in
        let s3 =
          if get_factory op == zero_address
          then s2
          else add_to_entity S (get_factory op) key (λ n. pos n) op s2 in
        let sender = add_to_entity-view S L op.sender key (λ n. int64_of op.nonce) op s1 e k in
        let factory = add_set-view (get_factory op) key (λ n. pos n) op s2 e k in
        let paymaster = add_set-view (get_paymaster op) key (λ n. pos n) op s3 e k in
        (
          merge (op.sender == e) _ _ (same_key key k) (some op) _ _ _ _ paymaster.0 factory.0
              sender.0,
          ap (S.get_by_key k) (paymaster.1 ∙ (factory.1 ∙ sender.1))
              ∙ L.get-add key k (pos (S.get_count s.all)) op s.all,
        )

    -- After AddOp, the operation is found under its key in the set of its AiMiddleware and in those
    -- of its sender, its factory and its paymaster, and every other key, entity and AiMiddleware
    -- reads as before.
    pub add_op-view :
        (ep : Address) (op : AiOperation) (q : Queues S) (ep' e : Address) (k : Key)
        → (view S ep' e k (add_op S ep op q) ≡ (
            if (ep == ep') && (is_filed e op && same_key (key_of ep op) k)
            then some op
            else view S ep' e k q))
          × (view_all S ep' k (add_op S ep op q)
              ≡ (if (ep == ep') && same_key (key_of ep op) k then some op else view_all S ep' k q))
    unfolding add_op
    add_op-view ep op q ep' e k =
        let got = get_ai_middleware_set_lem ep ep' e k q in
        let filed = file_op-view ep op (get_ai_middleware_set S ep q).0 e k in
        let put =
          insert-view ep ep' e k (file_op S ep op (get_ai_middleware_set S ep q).0)
            (get_ai_middleware_set S ep q).1 in
        elim (Bool-cases (ep == ep')) [
          | inl h ↦ (
            put.0 ∙ rw (h, filed.0, got.0, (==_iff ep ep').0 h) refl,
            put.1 ∙ rw (h, filed.1, got.1, (==_iff ep ep').0 h) refl,
          )
          | inr h ↦ (put.0 ∙ rw (h, got.2) refl, put.1 ∙ rw (h, got.3) refl)
        ]
