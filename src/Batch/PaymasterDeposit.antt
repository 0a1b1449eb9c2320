-- ===== src/Batch/PaymasterDeposit.antt =====
-- PaymasterDeposit of pkg/modules/checks/standalone.go.
use mathlib.Core.List.{append_assoc}
use mathlib.Core.List.Perm
use aiops_bundler.Base.{
  ℕ, suc, ◌+◌, ◌-◌, ◌≤◌, ◌<◌, ◌≡◌, ◌≢◌, ◌⊎◌, refl, ap, ◌∙◌, inl, inr, true, false, List, [], ◌∷◌,
  ◌++◌, none, some, Perm, arith, String,
}
use aiops_bundler.Base.Tests.{◌==◌, if◌then◌else◌, Bool-cases}
use aiops_bundler.Base.Int.{ℤ, pos, ◌-ℤ◌, is_negative, is_negative-sub, sub-sub}
use aiops_bundler.Base.Dict.{Dict, lookup, insert, lookup-insert}
use aiops_bundler.Base.Result.{Result, ok, ◌>>=◌, >>=-eq-ok}
use aiops_bundler.Aiop.{Address, AiOperation, zero_address, get_paymaster, get_max_prefund}
use aiops_bundler.Modules.{BatchHandlerCtx, mark_loop, mark_op_index_for_removal}
use aiops_bundler.Modules.Removal.{held, mark-conserves}
use aiops_bundler.Batch.Sweep.{items}

-- What the operations of a list can spend of one paymaster's deposit.
abbrev pub spend : Address → List AiOperation → ℕ
spend pm [] = 0
spend pm (op ∷ ops) = (if get_paymaster op == pm then get_max_prefund op else 0) + spend pm ops

pos-sub :
    (n k : ℕ) → k ≤ n → (pos n -ℤ pos k ≡ pos (n - k)) × (is_negative (pos n -ℤ pos k) ≡ false)
unfolding ◌-ℤ◌ is_negative
pos-sub n k h = (ground arith, ground arith)

-- Two removals at the indices 0 and 1 of a batch of three.
mark_twice :
    (c : BatchHandlerCtx) (x y z : AiOperation) (reason : String)
    → c.batch ≡ x ∷ y ∷ z ∷ []
    → mark_op_index_for_removal (mark_op_index_for_removal c 0 reason) 1 reason ≡ record c {
      batch = y ∷ [];
      pending_removal = c.pending_removal ++ items reason (x ∷ z ∷ []);
    }
unfolding mark_op_index_for_removal mark_loop
mark_twice c x y z reason e =
    ground (arith, append_assoc c.pending_removal (items reason (x ∷ [])) (items reason (z ∷ [])))

module _ {ℓ} {E : Type ℓ} where
  -- The deposit that is left of a paymaster: fetched from the contract the first time.
  unfoldable pub known_deposit : (Address → Result E ℕ) → Address → Dict ℤ → Result E ℤ
  known_deposit get_deposit pm deps = elim (lookup pm deps) [
    | some dep ↦ ok dep
    | none ↦ get_deposit pm >>= λ d. ok (pos d)
  ]

  -- The loop ranges over the batch as it was at the start, while the removals change the context.
  unfoldable pub deposit_loop :
      (Address → Result E ℕ)
      → ℕ
      → List AiOperation
      → Dict ℤ
      → BatchHandlerCtx
      → Result E BatchHandlerCtx
  unfolding known_deposit
  deposit_loop get_deposit i [] deps ctx = ok ctx
  deposit_loop get_deposit i (op ∷ rest) deps ctx =
      let pm = get_paymaster op in
      let skip = deposit_loop get_deposit (suc i) rest deps ctx in
      let charge : Result E BatchHandlerCtx = do
        dep ← known_deposit get_deposit pm deps
        let left = dep -ℤ pos (get_max_prefund op)
        deposit_loop get_deposit (suc i) rest (insert pm left deps) (
            if is_negative left
            then mark_op_index_for_removal ctx i "insufficient paymaster deposit"
            else ctx)
      in if pm == zero_address then skip else charge

  -- `connect` binds the AiMiddleware contract and gives GetDepositInfo.
  unfoldable pub paymaster_deposit :
      Result E (Address → Result E ℕ) → BatchHandlerCtx → Result E BatchHandlerCtx
  unfolding deposit_loop
  paymaster_deposit connect ctx =
      connect >>= λ get_deposit. deposit_loop get_deposit 0 ctx.batch [] ctx

  deposit_loop-conserves :
      (get : Address → Result E ℕ) (i : ℕ) (ops : List AiOperation) (deps : Dict ℤ)
      (c d : BatchHandlerCtx)
      → deposit_loop get i ops deps c ≡ ok d
      → Perm (held d) (held c)
  unfolding deposit_loop
  deposit_loop-conserves get i [] deps c d e = let same : c ≡ d = cc in rw same (Perm.refl _)
  deposit_loop-conserves get i (op ∷ ops) deps c d e =
      elim (Bool-cases (get_paymaster op == zero_address)) [
        | inl none_named ↦
            deposit_loop-conserves get (suc i) ops deps c d (rw (none_named, deposit_loop) at e)
        | inr named ↦
            let (dep, _, rest) =
              >>=-eq-ok (known_deposit get (get_paymaster op) deps) _
                (rw (named, deposit_loop) at e) in
            let left = dep -ℤ pos (get_max_prefund op) in
            let deps' = insert (get_paymaster op) left deps in
            let marked = mark_op_index_for_removal c i "insufficient paymaster deposit" in
            elim (Bool-cases (is_negative left)) [
              | inl short ↦
                  Perm.trans
                    (deposit_loop-conserves get (suc i) ops deps' marked d (rw short at rest))
                    (mark-conserves c i _)
              | inr enough ↦ deposit_loop-conserves get (suc i) ops deps' c d (rw enough at rest)
            ]
      ]

  -- Whatever PaymasterDeposit removes from the batch it marks for removal, and nothing is lost.
  pub paymaster_deposit-conserves :
      (connect : Result E (Address → Result E ℕ)) (c d : BatchHandlerCtx)
      → paymaster_deposit connect c ≡ ok d
      → Perm (held d) (held c)
  unfolding paymaster_deposit
  paymaster_deposit-conserves connect c d e =
      let (get, _, rest) = >>=-eq-ok connect (λ get. deposit_loop get 0 c.batch [] c) e in
      deposit_loop-conserves get 0 c.batch [] c d rest

  module _ (get : Address → Result E ℕ) (deposit : Address → ℕ)
      (known : (pm : Address) → get pm ≡ ok (deposit pm)) where
    -- Each paymaster's deposit, fetched or not, covers what the remaining operations can spend.
    abbrev Covers : List AiOperation → Dict ℤ → Type 0
    Covers ops deps =
        (pm : Address)
        → pm ≢ zero_address
        → ((lookup pm deps ≡ none) × (spend pm ops ≤ deposit pm))
          ⊎ ((n : ℕ) × (lookup pm deps ≡ some (pos n)) × (spend pm ops ≤ n))

    covered_deposit :
        (op : AiOperation) (ops : List AiOperation) (deps : Dict ℤ)
        → Covers (op ∷ ops) deps
        → get_paymaster op ≢ zero_address
        → (n : ℕ) × (known_deposit get (get_paymaster op) deps ≡ ok (pos n))
          × (get_max_prefund op + spend (get_paymaster op) ops ≤ n)
    unfolding known_deposit
    covered_deposit op ops deps cov h = elim (cov (get_paymaster op) h) [
      | inl (e, fits) ↦ (
        deposit (get_paymaster op),
        rw (e, known (get_paymaster op), known_deposit) refl,
        ground (arith, fits),
      )
      | inr (n, e, fits) ↦ (n, rw (e, known_deposit) refl, ground (arith, fits))
    ]

    deposit_loop-covered :
        (i : ℕ) (ops : List AiOperation) (deps : Dict ℤ) (c : BatchHandlerCtx)
        → Covers ops deps
        → deposit_loop get i ops deps c ≡ ok c
    unfolding deposit_loop
    deposit_loop-covered i [] deps c cov = refl
    deposit_loop-covered i (op ∷ ops) deps c cov =
        elim (Bool-cases (get_paymaster op == zero_address)) [
          | inl none_named ↦
              rw (none_named, deposit_loop)
                (deposit_loop-covered (suc i) ops deps c (λ pm h. ground (arith, cov pm h)))
          | inr named ↦
              let pm = get_paymaster op in
              let cost = get_max_prefund op in
              let (n, found, fits) = covered_deposit op ops deps cov (ground arith) in
              let enough : cost ≤ n = ground (arith, fits) in
              let (kept, positive) = pos-sub n cost enough in
              rw (named, found, positive, deposit_loop)
                (rw kept (
                  deposit_loop-covered (suc i) ops (insert pm (pos (n - cost)) deps) c (λ p h.
                    ground (arith, cov p h, fits, lookup-insert pm p (pos (n - cost)) deps))))
        ]

    -- PaymasterDeposit leaves a batch alone in which every paymaster's deposit covers all of its
    -- operations.
    paymaster_deposit-covered :
        (c : BatchHandlerCtx)
        → ((pm : Address) → pm ≢ zero_address → spend pm c.batch ≤ deposit pm)
        → paymaster_deposit (ok get) c ≡ ok c
    unfolding paymaster_deposit lookup
    paymaster_deposit-covered c h = deposit_loop-covered 0 c.batch [] c (λ pm p. inl (refl, h pm p))

  deposit_loop-done :
      (get : Address → Result E ℕ) (i : ℕ) (deps : Dict ℤ) (c : BatchHandlerCtx)
      → deposit_loop get i [] deps c ≡ ok c
  unfolding deposit_loop
  deposit_loop-done get i deps c = refl

  known_deposit-new :
      (get : Address → Result E ℕ) (pm deposit : ℕ)
      → get pm ≡ ok deposit
      → known_deposit get pm [] ≡ ok (pos deposit)
  unfolding known_deposit lookup
  known_deposit-new get pm deposit e = rw e

  known_deposit-insert :
      (get : Address → Result E ℕ) (pm : ℕ) (left : ℤ) (deps : Dict ℤ)
      → known_deposit get pm (insert pm left deps) ≡ ok left
  unfolding known_deposit
  known_deposit-insert get pm left deps = ground (arith, lookup-insert pm pm left deps)

  deposit_loop-skip :
      (get : Address → Result E ℕ) (i : ℕ) (op : AiOperation) (ops : List AiOperation)
      (deps : Dict ℤ) (c : BatchHandlerCtx)
      → get_paymaster op ≡ zero_address
      → deposit_loop get i (op ∷ ops) deps c ≡ deposit_loop get (suc i) ops deps c
  unfolding deposit_loop
  deposit_loop-skip get i op ops deps c e =
      let is_zero : (get_paymaster op == zero_address) ≡ true = ground arith in
      rw (is_zero, deposit_loop)

  deposit_loop-charge :
      (get : Address → Result E ℕ) (i : ℕ) (op : AiOperation) (ops : List AiOperation)
      (deps : Dict ℤ) (c : BatchHandlerCtx) {pm : ℕ} {dep : ℤ}
      → get_paymaster op ≡ pm
      → pm ≢ zero_address
      → known_deposit get pm deps ≡ ok dep
      → is_negative (dep -ℤ pos (get_max_prefund op)) ≡ true
      → deposit_loop get i (op ∷ ops) deps c
        ≡ deposit_loop get
            (suc i)
            ops
            (insert pm (dep -ℤ pos (get_max_prefund op)) deps)
            (mark_op_index_for_removal c i "insufficient paymaster deposit")
  unfolding deposit_loop
  deposit_loop-charge get i op ops deps c {pm = pm} p named known short =
      let not_zero : (pm == zero_address) ≡ false = ground arith in
      rw (p, not_zero, known, deposit_loop) (rw short)

  -- In a batch of exactly three operations, of which the first two name one paymaster whose deposit
  -- covers not even the first and the third names none, PaymasterDeposit removes the first and the
  -- third and keeps the second.
  pub paymaster_deposit_shifts :
      (get : Address → Result E ℕ) (c : BatchHandlerCtx) (x y z : AiOperation) (pm deposit : ℕ)
      → c.batch ≡ x ∷ y ∷ z ∷ []
      → get_paymaster x ≡ pm
      → get_paymaster y ≡ pm
      → pm ≢ zero_address
      → get_paymaster z ≡ zero_address
      → get pm ≡ ok deposit
      → deposit < get_max_prefund x
      → paymaster_deposit (ok get) c
        ≡ ok (record c {
          batch = y ∷ [];
          pending_removal =
              c.pending_removal ++ items "insufficient paymaster deposit" (x ∷ z ∷ []);
        })
  unfolding paymaster_deposit
  paymaster_deposit_shifts get c x y z pm deposit e px py named pz d short =
      let why : String = "insufficient paymaster deposit" in
      let left_x = pos deposit -ℤ pos (get_max_prefund x) in
      let short_x : is_negative left_x ≡ true =
        (is_negative-sub deposit (get_max_prefund x)).1 short in
      let short_y : is_negative (left_x -ℤ pos (get_max_prefund y)) ≡ true =
        rw (sub-sub (pos deposit) (get_max_prefund x) (get_max_prefund y))
          ((is_negative-sub deposit (get_max_prefund x + get_max_prefund y)).1 (omega arith)) in
      let c1 = mark_op_index_for_removal c 0 why in
      let deps1 = insert pm left_x [] in
      let by_x =
        deposit_loop-charge get 0 x (y ∷ z ∷ []) [] c px named (known_deposit-new get pm deposit d)
          short_x in
      let by_y =
        deposit_loop-charge get 1 y (z ∷ []) deps1 c1 py named
          (known_deposit-insert get pm left_x []) short_y in
      let deps2 = insert pm (left_x -ℤ pos (get_max_prefund y)) deps1 in
      let by_z = deposit_loop-skip get 2 z [] deps2 (mark_op_index_for_removal c1 1 why) pz in
      ap (λ ops. deposit_loop get 0 ops [] c) e
      ∙ by_x
      ∙ by_y
      ∙ by_z
      ∙ deposit_loop-done get 3 deps2 (mark_op_index_for_removal c1 1 why)
      ∙ ap ok (mark_twice c x y z why e)
