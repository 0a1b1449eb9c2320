-- ===== src/Relay/Conserving.antt =====
-- The loop over estimates and the relayer keep the operations that a context holds.
use mathlib.Core.List.Perm
use aiops_bundler.Base.{ℕ, zero, suc, ◌≡◌, subst, inl, inr, List, [], ◌∷◌, ◌++◌, some, Perm}
use aiops_bundler.Base.Tests.{◌==◌, Bool-cases, Option-cases}
use aiops_bundler.Base.Lists.{length}
use aiops_bundler.Base.Result.{Result, ok, err, Result-cases}
use aiops_bundler.Aiop.{AiOperation}
use aiops_bundler.Modules.{BatchHandlerCtx, mark_op_index_for_removal}
use aiops_bundler.Modules.Removal.{held, mark-conserves}
use aiops_bundler.Relay.{Estimate, gas, revert, estimate_loop, send_ai_operation}

module _ {ℓ} {E : Type ℓ} (estimate : List AiOperation → Result E Estimate) where
  pub estimate_loop-conserves :
      (n : ℕ) (batch : List AiOperation) (c d : BatchHandlerCtx) (gas_limit : ℕ)
      → estimate_loop estimate n batch c ≡ some (ok (gas_limit, d))
      → Perm (held d) (held c)
  unfolding estimate_loop
  estimate_loop-conserves zero batch c d g h = cc
  estimate_loop-conserves (suc n) batch c d g h = elim (Bool-cases (length c.batch == 0)) [
    | inl z ↦
        let ended = rw (z, estimate_loop) at h in let same : c ≡ d = cc in rw same (Perm.refl _)
    | inr z ↦ elim (Result-cases (estimate batch)) [
      | inr (x, f) ↦ let bad = rw (z, f, estimate_loop) at h in cc
      | inl (gas est, f) ↦
          let ended = rw (z, f, estimate_loop) at h in
          let same : c ≡ d = cc in rw same (Perm.refl _)
      | inl (revert index reason, f) ↦
          Perm.trans
            (estimate_loop-conserves n batch (mark_op_index_for_removal c index reason) d g
              (rw (z, f, estimate_loop) at h))
            (mark-conserves c index reason)
    ]
  ]

  pub send_ai_operation-conserves :
      (handle_ops : List AiOperation → ℕ → Result E ℕ) (fuel : ℕ) (c d : BatchHandlerCtx)
      → send_ai_operation estimate handle_ops fuel c ≡ some (ok d)
      → Perm (held d) (held c)
  unfolding send_ai_operation
  send_ai_operation-conserves handle_ops fuel c d h =
      elim (Option-cases (estimate_loop estimate fuel c.batch c)) [
        | inl e ↦ let bad = rw (e, send_ai_operation) at h in cc
        | inr (err x, e) ↦ let bad = rw (e, send_ai_operation) at h in cc
        | inr (ok (g, c'), e) ↦
            let whole = estimate_loop-conserves fuel c.batch c c' g e in
            elim (Bool-cases (length c'.batch == 0)) [
              | inl z ↦
                  let ended = rw (e, z, send_ai_operation) at h in
                  let same : c' ≡ d = cc in subst (λ x. Perm (held x) (held c)) same whole
              | inr z ↦ elim (Result-cases (handle_ops c.batch g)) [
                | inr (x, f) ↦ let bad = rw (e, z, f, send_ai_operation) at h in cc
                | inl (hash, f) ↦
                    let ended = rw (e, z, f, send_ai_operation) at h in
                    let sent : BatchHandlerCtx = record c' {
                      entries = c'.entries ++ ("txn_hash", hash) ∷ [];
                    } in
                    let same : sent ≡ d = cc in subst (λ x. Perm (held x) (held c)) same whole
              ]
            ]
      ]
