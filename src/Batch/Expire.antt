-- ===== src/Batch/Expire.antt =====
-- pkg/modules/expire/expire.go: operations that have been in the mempool for longer than the TTL.
-- Times and the TTL are numbers of one unit; a negative TTL is left out.
use mathlib.Core.List.{reverse}
use aiops_bundler.Base.{
  ℕ, ◌+◌, ◌≡◌, refl, ◌⊎◌, inl, inr, Bool, false, not, [], ◌++◌, Option, none, some, arith,
}
use aiops_bundler.Base.Tests.{ltb, Option-cases}
use aiops_bundler.Base.Lists.{keep, All-trivial}
use aiops_bundler.Base.Dict.{Dict, lookup, insert, lookup-insert}
use aiops_bundler.Base.Result.{Result, ok}
use aiops_bundler.Aiop.{AiOperation}
use aiops_bundler.Aiop.Hash.{Crypto, get_ai_op_hash}
use aiops_bundler.Modules.{BatchHandlerCtx}
use aiops_bundler.Batch.Sweep.{sweep, sweep-by, items}

pub record ExpireHandler : Type 0 where
  pub seen_at : Dict ℕ
  pub ttl : ℕ

unfoldable pub new : ℕ → ExpireHandler
new ttl = record { seen_at = []; ttl = ttl }

-- The loop body for one operation: `now i` is the reading of the clock in round `i`.
module _ {ℓ} (E : Type ℓ) (hash : AiOperation → ℕ) (ttl : ℕ) (now : ℕ → ℕ) where
  unfoldable pub expire_step : ℕ → Dict ℕ → AiOperation → Result E (Dict ℕ × Bool)
  expire_step i seen op = elim (lookup (hash op) seen) [
    | none ↦ ok (insert (hash op) (now i) seen, false)
    | some seen_at ↦ ok (seen, ltb (seen_at + ttl) (now i))
  ]

-- DropExpired: the new handler state and context.
unfoldable pub drop_expired {ℓ} :
    (E : Type ℓ)
    → Crypto
    → (ℕ → ℕ)
    → ExpireHandler
    → BatchHandlerCtx
    → Option (Result E (Dict ℕ × BatchHandlerCtx))
unfolding expire_step
drop_expired E crypto now e ctx =
    sweep (expire_step E (λ op. get_ai_op_hash crypto op ctx.ai_middleware ctx.chain_id) e.ttl now)
      "op expired" e.seen_at ctx

-- Whether an operation was first seen more than the TTL before a time.
unfoldable pub is_expired : (AiOperation → ℕ) → ℕ → Dict ℕ → ℕ → AiOperation → Bool
is_expired hash ttl seen time op = elim (lookup (hash op) seen) [
  | none ↦ false
  | some seen_at ↦ ltb (seen_at + ttl) time
]

-- What the run knows of first sightings, against what it knew at its start: nothing is forgotten or
-- moved, and what is new was seen now.
abbrev pub Grew : ℕ → Dict ℕ → Dict ℕ → Type 0
Grew time before after =
    (h : ℕ)
    → (lookup h after ≡ lookup h before) ⊎ ((lookup h before ≡ none) × (lookup h after ≡ some time))

module _ {ℓ} (E : Type ℓ) (hash : AiOperation → ℕ) (ttl time : ℕ) (before : Dict ℕ) where
  expire_step-judge :
      (i : ℕ) (seen : Dict ℕ) (op : AiOperation)
      → Unit {0}
      → Grew time before seen
      → (seen' : Dict ℕ) × Grew time before seen'
        × (expire_step E hash ttl (λ _. time) i seen op
            ≡ ok (seen', is_expired hash ttl before time op))
  unfolding expire_step is_expired
  expire_step-judge i seen op _ g = elim (Option-cases (lookup (hash op) seen)) [
    | inl e ↦ (
      insert (hash op) time seen,
      (λ h. ground (arith, g h, g (hash op), lookup-insert (hash op) h time seen)),
      ground (arith, g (hash op)),
    )
    | inr (t, e) ↦ (seen, g, ground (arith, g (hash op)))
  ]

-- If the clock stands still during a run, DropExpired never panics, keeps exactly the operations that
-- were not first seen more than the TTL ago, marks the others for removal, and the first sightings
-- that it knew stay as they were.
pub drop_expired_lem {ℓ} :
    (E : Type ℓ) (crypto : Crypto) (time : ℕ) (e : ExpireHandler) (c : BatchHandlerCtx)
    → let hash : AiOperation → ℕ = λ op. get_ai_op_hash crypto op c.ai_middleware c.chain_id in
      let expired = is_expired hash e.ttl e.seen_at time in
      (seen : Dict ℕ) × Grew time e.seen_at seen
      × (drop_expired E crypto (λ _. time) e c
          ≡ some (
              ok (
                seen,
                record c {
                  batch = keep (λ op. not (expired op)) c.batch;
                  pending_removal =
                      c.pending_removal ++ items "op expired" (reverse (keep expired c.batch));
                },
              )))
unfolding drop_expired
drop_expired_lem E crypto time e c =
    let hash : AiOperation → ℕ = λ op. get_ai_op_hash crypto op c.ai_middleware c.chain_id in
    sweep-by (expire_step E hash e.ttl (λ _. time)) "op expired" (Grew time e.seen_at)
      (λ _. Unit {0}) (is_expired hash e.ttl e.seen_at time)
      (expire_step-judge E hash e.ttl time e.seen_at) e.seen_at c (All-trivial c.batch)
      (λ h. inl refl)
