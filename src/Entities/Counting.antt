-- ===== src/Entities/Counting.antt =====
-- The counters after IncOpsSeen and IncOpsIncluded.
use aiops_bundler.Base.{
  ℕ, suc, ◌+◌, List, [], ◌∷◌, none, some, ◌≡◌, refl, ◌∙◌, sym, ap, inl, inr, arith,
}
use aiops_bundler.Base.Tests.{==_iff, ◌==◌, if◌then◌else◌, Option-cases, Bool-cases}
use aiops_bundler.Base.Dict.{Dict, lookup, insert}
use aiops_bundler.Base.Result.{ok}
use aiops_bundler.Aiop.{Address, AiOperation, zero_address, get_factory, get_paymaster}
use aiops_bundler.Modules.{BatchHandlerCtx}
use aiops_bundler.Entities.{
  Store, Txn, bump, bump_set, count_ops, ops_count_at, set_entry, increment_ops_included_by_entity,
}
use aiops_bundler.Entities.Handlers.{inc_ops_included}
use aiops_bundler.Entities.Reads.{
  counts, counts-insert, counts-touched, touched, NoErrors, get_ops_count_by_entity_lem,
}

-- The sum of a map's values under a key.
abbrev pub total : Address → Dict ℕ → ℕ
total a [] = 0
total a ((b, n) ∷ c) = if b == a then n + total a c else total a c

abbrev pub one_if : Address → Address → ℕ
one_if b a = if b == a then 1 else 0

abbrev pub one_set : Address → Address → ℕ
one_set b a = if b == zero_address then 0 else one_if b a

-- How many times an entity takes part in a batch, as a sender, a factory or a paymaster.
abbrev pub occurrences : Address → List AiOperation → ℕ
occurrences a [] = 0
occurrences a (op ∷ ops) =
    one_if op.sender a
    + one_set (get_factory op) a
    + one_set (get_paymaster op) a
    + occurrences a ops

total-insert_new :
    (b a n : ℕ) (c : Dict ℕ)
    → lookup b c ≡ none
    → total a (insert b n c) ≡ total a c + (if b == a then n else 0)
unfolding lookup insert
total-insert_new b a n [] h = ground arith
total-insert_new b a n ((j, m) ∷ c) h = ground (arith, total-insert_new b a n c)

total-insert_old :
    (b a n : ℕ) (c : Dict ℕ)
    → lookup b c ≡ some n
    → total a (insert b (suc n) c) ≡ total a c + one_if b a
unfolding lookup insert
total-insert_old b a n [] h = ground arith
total-insert_old b a n ((j, m) ∷ c) h = ground (arith, total-insert_old b a n c)

total-bump : (b a : ℕ) (c : Dict ℕ) → total a (bump b c) ≡ total a c + one_if b a
total-bump b a c = elim (Option-cases (lookup b c)) [
  | inl e ↦ rw (bump, e) (total-insert_new b a 1 c e)
  | inr (n, e) ↦ rw (bump, e) (total-insert_old b a n c e)
]

total-bump_set : (b a : ℕ) (c : Dict ℕ) → total a (bump_set b c) ≡ total a c + one_set b a
total-bump_set b a c = elim (Bool-cases (b == zero_address)) [
  | inl e ↦ rw (bump_set, e) (omega arith)
  | inr e ↦ rw (bump_set, e) (total-bump b a c)
]

total-count_ops :
    (a : ℕ) (ops : List AiOperation) (c : Dict ℕ)
    → total a (count_ops ops c) ≡ total a c + occurrences a ops
unfolding count_ops
total-count_ops a [] c = omega arith
total-count_ops a (op ∷ ops) c =
    let sender = total-bump op.sender a c in
    let factory = total-bump_set (get_factory op) a (bump op.sender c) in
    let paymaster =
      total-bump_set (get_paymaster op) a (bump_set (get_factory op) (bump op.sender c)) in
    total-count_ops a ops
      (bump_set (get_paymaster op) (bump_set (get_factory op) (bump op.sender c)))
    ∙ omega arith

-- The store has every entity's counters as a start store had them, with more included.
abbrev pub Adds : ℕ → Store → (Address → ℕ) → Store → Type 0
Adds now db more db' =
    (a : Address) → counts now db' a ≡ ((counts now db a).0, (counts now db a).1 + more a)

plus : (p : ℕ × ℕ) (n m : ℕ) → p.1 + n ≡ m → ◌≡◌ {A = ℕ × ℕ} (p.0, p.1 + n) (p.0, m)
plus p n m e = ap (λ x. (p.0, x)) e

Adds-none : (now : ℕ) (db : Store) → Adds now db (λ a. 0) db
Adds-none now db a = sym (plus (counts now db a) 0 _ (omega arith))

-- One entity's write, after its read.
Adds-one :
    (now : ℕ) (db : Store) (b n : ℕ)
    → Adds now db
        (λ a. if b == a then n else 0)
        (insert b
          (ops_count_at now (counts now db b).0 ((counts now db b).1 + n))
          (touched now db b))
Adds-one now db b n a =
    counts-insert now (touched now db b) b a (counts now db b).0 ((counts now db b).1 + n)
    ∙ elim (Bool-cases (b == a)) [
      | inl t ↦ rw (t, (==_iff b a).0 t) refl
      | inr f ↦ rw f (counts-touched now db b a ∙ Adds-none now db a)
    ]

Adds-then :
    (now : ℕ) (db db' db'' : Store) (f g h : Address → ℕ)
    → Adds now db f db'
    → Adds now db' g db''
    → ((a : Address) → f a + g a ≡ h a)
    → Adds now db h db''
Adds-then now db db' db'' f g h x y e a =
    y a ∙ rw (x a, sym (e a)) (ap (λ z. ((counts now db a).0, z)) (omega arith))

module _ {ℓ} {E : Type ℓ} where
  increment_ops_included_by_entity_lem :
      (txn : Txn E) (now : ℕ) (c : Dict ℕ) (db : Store)
      → NoErrors txn
      → (db' : Store) × (increment_ops_included_by_entity txn now c db ≡ ok db')
        × Adds now db (λ a. total a c) db'
  unfolding increment_ops_included_by_entity set_entry
  increment_ops_included_by_entity_lem txn now [] db h = (db, refl, Adds-none now db)
  increment_ops_included_by_entity_lem txn now ((b, n) ∷ c) db h =
      let (db', e, adds) =
        increment_ops_included_by_entity_lem txn now c
          (insert b (ops_count_at now (counts now db b).0 ((counts now db b).1 + n))
            (touched now db b))
          h in
      (
        db',
        rw (get_ops_count_by_entity_lem txn now b db h, set_entry, h.1 b) e,
        Adds-then now db _ db' _ _ _ (Adds-one now db b n) adds (λ a. ground arith),
      )

  -- When no call of the database fails and Go runs over each entry of the counter map once, in any
  -- order, IncOpsIncluded succeeds and adds to the included counter of every address exactly the
  -- number of times it takes part in the batch, and leaves the seen counters.
  pub inc_ops_included_lem :
      (range : Dict ℕ → Dict ℕ) (txn : Txn E) (now : ℕ) (ctx : BatchHandlerCtx) (db : Store)
      → ((a : Address) (c : Dict ℕ) → total a (range c) ≡ total a c)
      → NoErrors txn
      → (db' : Store) × (inc_ops_included range txn now ctx db ≡ ok db')
        × Adds now db (λ a. occurrences a ctx.batch) db'
  unfolding inc_ops_included
  inc_ops_included_lem range txn now ctx db once h =
      let (db', e, adds) =
        increment_ops_included_by_entity_lem txn now (range (count_ops ctx.batch [])) db h in
      (
        db',
        rw (e, h.2) refl,
        λ a.
            adds a
            ∙ ap (λ n. ((counts now db a).0, (counts now db a).1 + n))
                (once a (count_ops ctx.batch []) ∙ total-count_ops a ctx.batch [] ∙ omega arith),
      )
