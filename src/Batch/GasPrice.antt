-- ===== src/Batch/GasPrice.antt =====
-- FilterUnderpriced of pkg/modules/gasprice/filter.go.
use mathlib.Core.List.{append_assoc, append-nil}
use aiops_bundler.Base.{
  ℕ, ◌+◌, ◌<◌, ◌≡◌, refl, inl, inr, Bool, false, ◌&&◌, List, [], ◌∷◌, ◌++◌, none, some, arith, ◌∙◌,
  ap, sym, ◌⊎◌,
}
use aiops_bundler.Base.Tests.{leb, ◌==◌, if◌then◌else◌, Bool-cases}
use aiops_bundler.Base.Lists.{keep}
use aiops_bundler.Aiop.{AiOperation, get_dynamic_gas_price}
use aiops_bundler.Modules.{BatchHandlerCtx}

-- Whether the loop body appends the operation to the new batch. A basefee of 0 counts as none.
unfoldable pub is_priced : BatchHandlerCtx → AiOperation → Bool
is_priced ctx op =
    let legacy : Bool = elim ctx.gas_price [ none ↦ false | some gp ↦ leb gp op.max_fee_per_gas ] in
    elim ctx.base_fee [
      | none ↦ legacy
      | some bf ↦ elim ctx.tip [
        | none ↦ legacy
        | some tip ↦ if bf == 0 then legacy else leb (bf + tip) (get_dynamic_gas_price op (some bf))
      ]
    ]

unfoldable pub filter_loop :
    BatchHandlerCtx → List AiOperation → List AiOperation → List AiOperation
filter_loop ctx [] b = b
filter_loop ctx (op ∷ rest) b = filter_loop ctx rest (if is_priced ctx op then b ++ op ∷ [] else b)

unfoldable pub filter_underpriced : BatchHandlerCtx → BatchHandlerCtx
unfolding filter_loop
filter_underpriced ctx = record ctx { batch = filter_loop ctx ctx.batch [] }

filter_loop-keep :
    (c : BatchHandlerCtx) (ops b : List AiOperation)
    → filter_loop c ops b ≡ b ++ keep (is_priced c) ops
unfolding filter_loop
filter_loop-keep c [] b = sym (append-nil b)
filter_loop-keep c (op ∷ ops) b = elim (Bool-cases (is_priced c op)) [
  | inl e ↦
      rw e
        (filter_loop-keep c ops (b ++ op ∷ []) ∙ append_assoc b (op ∷ []) (keep (is_priced c) ops))
  | inr e ↦ rw e (filter_loop-keep c ops b)
]

-- FilterUnderpriced keeps, in their order, the operations that can pay the price in the context.
pub filter_underpriced-keep :
    (c : BatchHandlerCtx) → filter_underpriced c ≡ record c { batch = keep (is_priced c) c.batch }
unfolding filter_underpriced
filter_underpriced-keep c = ap (λ b. record c { batch = b }) (filter_loop-keep c c.batch [])

-- With a basefee above 0 and a tip, an operation can pay exactly if its fee cap covers basefee and
-- tip, and its priority fee covers the tip.
is_priced-dynamic :
    (c : BatchHandlerCtx) (op : AiOperation) (bf tip : ℕ)
    → c.base_fee ≡ some bf
    → 0 < bf
    → c.tip ≡ some tip
    → is_priced c op ≡ (leb (bf + tip) op.max_fee_per_gas && leb tip op.max_priority_fee_per_gas)
unfolding is_priced get_dynamic_gas_price
is_priced-dynamic c op bf tip e h f = ground arith

keep-ext :
    (p q : AiOperation → Bool) (ops : List AiOperation)
    → ((op : AiOperation) → p op ≡ q op)
    → keep p ops ≡ keep q ops
keep-ext p q [] h = refl
keep-ext p q (op ∷ ops) h = ground (arith, h op, keep-ext p q ops h)

-- With a basefee above 0 and a tip, exactly those operations stay whose fee cap covers basefee and tip
-- and whose priority fee covers the tip.
pub filter_underpriced-dynamic :
    (c : BatchHandlerCtx) (bf tip : ℕ)
    → c.base_fee ≡ some bf
    → 0 < bf
    → c.tip ≡ some tip
    → (filter_underpriced c).batch
      ≡ keep
          (λ op. leb (bf + tip) op.max_fee_per_gas && leb tip op.max_priority_fee_per_gas)
          c.batch
filter_underpriced-dynamic c bf tip e h f =
    ap (λ (d : BatchHandlerCtx). d.batch) (filter_underpriced-keep c)
    ∙ keep-ext _ _ c.batch (λ op. is_priced-dynamic c op bf tip e h f)

-- Without any of the prices every operation is dropped from the batch.
filter_underpriced-none :
    (c : BatchHandlerCtx)
    → (c.base_fee ≡ none) ⊎ (c.tip ≡ none)
    → c.gas_price ≡ none
    → (filter_underpriced c).batch ≡ []
unfolding is_priced
filter_underpriced-none c h e =
    ap (λ (d : BatchHandlerCtx). d.batch) (filter_underpriced-keep c)
    ∙ keep-ext _ (λ _. false) c.batch (λ op. ground arith)
    ∙ keep_false c.batch
  where
    keep_false : (ops : List AiOperation) → keep (λ _. false) ops ≡ []
    keep_false [] = refl
    keep_false (op ∷ ops) = keep_false ops
