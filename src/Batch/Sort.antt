-- ===== src/Batch/Sort.antt =====
-- SortByNonce of pkg/modules/batch/sort.go and SortByGasPrice of pkg/modules/gasprice/sort.go.
-- The order by gas price is a strict weak order, so the insertion sort models every batch; that by
-- nonce is none, and the model stands for batches of at most 20 operations.
use mathlib.Core.List.Perm
use aiops_bundler.Base.{
  ℕ, ◌≤◌, ◌≡◌, ◌≢◌, ◌⊎◌, refl, inl, inr, Bool, ◌&&◌, List, [], ◌∷◌, Perm, Option, none, some, arith,
}
use aiops_bundler.Base.Tests.{ltb, ◌==◌, Option-cases}
use aiops_bundler.Base.Lists.{keep}
use aiops_bundler.Aiop.{AiOperation, get_dynamic_gas_price}
use aiops_bundler.Modules.{BatchHandlerCtx}
use aiops_bundler.Batch.StableSort.{
  slice_stable, slice_stable-perm, NoDescent, slice_stable-NoDescent, slice_stable-keep,
}

abbrev pub nonce_less : AiOperation → AiOperation → Bool
nonce_less x y = (x.sender == y.sender) && ltb x.nonce y.nonce

unfoldable pub sort_by_nonce : BatchHandlerCtx → BatchHandlerCtx
sort_by_nonce ctx = record ctx { batch = slice_stable nonce_less ctx.batch }

abbrev pub dynamic_less : Option ℕ → AiOperation → AiOperation → Bool
dynamic_less base_fee x y =
    ltb (get_dynamic_gas_price y base_fee) (get_dynamic_gas_price x base_fee)

abbrev pub legacy_less : AiOperation → AiOperation → Bool
legacy_less x y = ltb y.max_fee_per_gas x.max_fee_per_gas

unfoldable pub sort_by_gas_price : BatchHandlerCtx → BatchHandlerCtx
sort_by_gas_price ctx = elim ctx.base_fee [
  | some bf ↦ record ctx { batch = slice_stable (dynamic_less (some bf)) ctx.batch }
  | none ↦ elim ctx.gas_price [
    | some _ ↦ record ctx { batch = slice_stable legacy_less ctx.batch }
    | none ↦ ctx
  ]
]

-- The price by which SortByGasPrice orders a batch: with neither fee in the context, none.
unfoldable pub sort_price : BatchHandlerCtx → AiOperation → ℕ
sort_price ctx op = elim ctx.base_fee [
  | some bf ↦ get_dynamic_gas_price op (some bf)
  | none ↦ elim ctx.gas_price [ some _ ↦ op.max_fee_per_gas | none ↦ 0 ]
]

-- Each price is at least the next.
abbrev pub IsDescending : (AiOperation → ℕ) → List AiOperation → Type 0
IsDescending price [] = Unit
IsDescending price (x ∷ []) = Unit
IsDescending price (x ∷ y ∷ ys) = (price y ≤ price x) × IsDescending price (y ∷ ys)

NoDescent-IsDescending :
    (price : AiOperation → ℕ) (xs : List AiOperation)
    → NoDescent (λ x y. ltb (price y) (price x)) xs
    → IsDescending price xs
NoDescent-IsDescending price [] h = tt
NoDescent-IsDescending price (x ∷ []) h = tt
NoDescent-IsDescending price (x ∷ y ∷ ys) h =
    (ground (arith, h.0), NoDescent-IsDescending price (y ∷ ys) h.1)

constant-IsDescending : (xs : List AiOperation) → IsDescending (λ _. 0) xs
constant-IsDescending [] = tt
constant-IsDescending (x ∷ []) = tt
constant-IsDescending (x ∷ y ∷ ys) = (omega arith, constant-IsDescending (y ∷ ys))

-- A batch that has been sorted by a price, highest first and otherwise in the old order.
pub record IsSortedBy (price : AiOperation → ℕ) (before after : List AiOperation) : Type 0 where
  pub same : Perm after before
  pub descending : IsDescending price after
  pub stable : (p : ℕ) → keep (λ op. price op == p) after ≡ keep (λ op. price op == p) before

slice_stable-IsSortedBy :
    (price : AiOperation → ℕ) (xs : List AiOperation)
    → IsSortedBy price xs (slice_stable (λ x y. ltb (price y) (price x)) xs)
slice_stable-IsSortedBy price xs =
    let less : AiOperation → AiOperation → Bool = λ x y. ltb (price y) (price x) in
    record {
      same = slice_stable-perm less xs;
      descending =
          NoDescent-IsDescending price _ (slice_stable-NoDescent less (λ x y h. ground arith) xs);
      stable = λ p. slice_stable-keep less (λ op. price op == p) (λ x y h k. ground arith) xs;
    }

-- SortByGasPrice puts the highest price first, keeps operations of one price in their order and
-- leaves the rest of the context alone.
pub sort_by_gas_price-IsSortedBy :
    (c : BatchHandlerCtx)
    → IsSortedBy (sort_price c) c.batch (sort_by_gas_price c).batch
      × (sort_by_gas_price c ≡ record c { batch = (sort_by_gas_price c).batch })
unfolding sort_by_gas_price sort_price
sort_by_gas_price-IsSortedBy c = elim (Option-cases c.base_fee) [
  | inr (bf, e) ↦
      rw (e, sort_by_gas_price, sort_price)
        (slice_stable-IsSortedBy (λ op. get_dynamic_gas_price op (some bf)) c.batch, ground arith)
  | inl e ↦ elim (Option-cases c.gas_price) [
    | inr (gp, f) ↦
        rw (e, f, sort_by_gas_price, sort_price)
          (slice_stable-IsSortedBy (λ op. op.max_fee_per_gas) c.batch, ground arith)
    | inl f ↦
        rw (e, f, sort_by_gas_price, sort_price)
          (
            record {
              same = Perm.rfl;
              descending = constant-IsDescending c.batch;
              stable = λ p. refl;
            },
            ground arith,
          )
  ]
]

-- Of two neighbours, either the senders differ or the second has no lower nonce.
abbrev pub NeighboursAscend : List AiOperation → Type 0
NeighboursAscend [] = Unit
NeighboursAscend (x ∷ []) = Unit
NeighboursAscend (x ∷ y ∷ ys) =
    ((x.sender ≢ y.sender) ⊎ (x.nonce ≤ y.nonce)) × NeighboursAscend (y ∷ ys)
