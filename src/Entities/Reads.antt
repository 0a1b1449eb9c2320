-- ===== src/Entities/Reads.antt =====
-- What a read of an entity's counters returns and leaves behind (getOpsCountByEntity), when no call
-- of the database fails.
use aiops_bundler.Base.{ℕ, ◌-◌, ◌/◌, Option, none, some, ◌≡◌, refl, ◌∙◌, sym, inl, inr, arith}
use aiops_bundler.Base.Tests.{==_iff, Bool-cases, ◌==◌, if◌then◌else◌, Option-cases}
use aiops_bundler.Base.Dict.{lookup, insert, lookup-insert}
use aiops_bundler.Base.Result.{ok}
use aiops_bundler.Aiop.{Address}
use aiops_bundler.Entities.{
  OpsCount, Store, Txn, ops_count_at, set_entry, decay_loop, apply_exp_weights,
  get_ops_count_by_entity,
}

-- The counters of a value at the time `now`.
abbrev pub counts_of : ℕ → Option OpsCount → ℕ × ℕ
counts_of now none = (0, 0)
counts_of now (some v) = decay_loop ((now - v.last_updated) / 3600) v.ops_seen v.ops_included

abbrev pub counts : ℕ → Store → Address → ℕ × ℕ
counts now db a = counts_of now (lookup a db)

-- The store after a read: the decayed counters, under a new time.
abbrev pub touched_by : ℕ → Store → Address → Option OpsCount → Store
touched_by now db a none = db
touched_by now db a (some v) =
    let (seen, included) = counts_of now (some v) in insert a (ops_count_at now seen included) db

abbrev pub touched : ℕ → Store → Address → Store
touched now db a = touched_by now db a (lookup a db)

counts_of-now : (now s n : ℕ) → counts_of now (some (ops_count_at now s n)) ≡ (s, n)
unfolding decay_loop
counts_of-now now s n = let hours : (now - now) / 3600 ≡ 0 = omega arith in rw hours refl

pub counts-insert :
    (now : ℕ) (db : Store) (a b s n : ℕ)
    → counts now (insert a (ops_count_at now s n) db) b
      ≡ (if a == b then (s, n) else counts now db b)
counts-insert now db a b s n =
    rw (lookup-insert a b (ops_count_at now s n) db)
      (elim (Bool-cases (a == b)) [ inl e ↦ rw e (counts_of-now now s n) | inr e ↦ rw e refl ])

-- Reading twice at the same time is reading once.
pub counts-touched :
    (now : ℕ) (db : Store) (a b : ℕ) → counts now (touched now db a) b ≡ counts now db b
counts-touched now db a b = by_case (lookup a db) refl
  where
    by_case :
        (o : Option OpsCount)
        → lookup a db ≡ o
        → counts now (touched_by now db a o) b ≡ counts now db b
    by_case none e = refl
    by_case (some v) e =
        counts-insert now db a b (counts_of now (some v)).0 (counts_of now (some v)).1
        ∙ elim (Bool-cases (a == b)) [
          | inl t ↦ rw (t, sym ((==_iff a b).0 t), e) refl
          | inr f ↦ rw f refl
        ]

module _ {ℓ} {E : Type ℓ} where
  -- No call of the transaction fails, and it commits.
  abbrev pub NoErrors : Txn E → Type ℓ
  NoErrors txn =
      ((a : Address) → txn.get_error a ≡ none)
      × ((a : Address) → txn.set_error a ≡ none)
      × (txn.commit_error ≡ none)

  pub get_ops_count_by_entity_lem :
      (txn : Txn E) (now : ℕ) (a : Address) (db : Store)
      → NoErrors txn
      → get_ops_count_by_entity txn now a db ≡ ok (counts now db a, touched now db a)
  unfolding get_ops_count_by_entity apply_exp_weights set_entry
  get_ops_count_by_entity_lem txn now a db h = elim (Option-cases (lookup a db)) [
    | inl e ↦ rw (get_ops_count_by_entity, h.0 a, e, touched, counts) refl
    | inr (v, e) ↦
        rw (get_ops_count_by_entity, h.0 a, e, apply_exp_weights, set_entry, h.1 a, touched, counts)
          refl
  ]
