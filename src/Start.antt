-- ===== src/Start.antt =====
-- internal/start/private.go and searcher.go: the composition of the bundler's handlers, which share a
-- context and the stores that they write. The two modes differ in how they send. Each handler is that of its module; what they call outside is a parameter.
pub mod Shrinking
pub mod Bundling
pub mod Receiving
pub mod Examples
use aiops_bundler.Base.{ℕ, List, [], ◌∷◌, Option, none, some}
use aiops_bundler.Base.Dict.{Dict}
use aiops_bundler.Base.Result.{Result, ok, err, ◌>>=◌}
use aiops_bundler.Aiop.{Address, Bytes, AiOperation}
use aiops_bundler.Aiop.Hash.{Crypto, get_ai_op_hash}
use aiops_bundler.Modules.{BatchHandlerCtx, Handler, compose_handlers}
use aiops_bundler.Batch.Expire.{drop_expired}
use aiops_bundler.Batch.Sort.{sort_by_gas_price, sort_by_nonce}
use aiops_bundler.Batch.GasPrice.{filter_underpriced}
use aiops_bundler.Batch.GasLimit.{maintain_gas_limit}
use aiops_bundler.Batch.PaymasterDeposit.{paymaster_deposit}
use aiops_bundler.Checks.Saved.{Store as CodeStore, code_hashes, clean}
use aiops_bundler.Entities.{Store as CounterStore, Txn}
use aiops_bundler.Entities.Handlers.{inc_ops_included}
use aiops_bundler.Builder.{BuilderClient, build_and_send}
use aiops_bundler.Relay.{Estimate, send_ai_operation}

-- The context with what the handlers store: the times of first sight, the counters of the
-- entities and the code hashes.
pub record BatchState : Type 0 where
  pub ctx : BatchHandlerCtx
  pub seen_at : Dict ℕ
  pub counters : CounterStore
  pub saved : CodeStore

-- PrivateMode and SearcherMode.
pub data Mode : Type 0 where
  private_mode searcher_mode : Mode

-- What the handlers call, and the configured limits. `crashed` stands for a panic of the source or
-- a loop that does not end within the fuel.
pub record Services {ℓ} (E : Type ℓ) : Type ℓ where
  pub crypto : Crypto
  pub clock : ℕ → ℕ
  pub max_op_ttl : ℕ
  pub static : AiOperation → Result E ℕ
  pub max_batch_gas_limit : ℕ
  pub keccak256 : Bytes → ℕ
  pub get_code : Address → Result E Bytes
  pub not_found : E
  pub connect : Result E (Address → Result E ℕ)
  pub estimate : List AiOperation → Result E Estimate
  pub handle_ops : List AiOperation → ℕ → Result E ℕ
  pub builder : BuilderClient E
  pub fuel : ℕ
  pub range : Dict ℕ → Dict ℕ
  pub txn : Txn E
  pub now : ℕ
  pub commit : Option E
  pub crashed : E

module _ {ℓ} {E : Type ℓ} where
  abbrev pub finished {κ} : {A : Type κ} → E → Option (Result E A) → Result E A
  finished crashed none = err crashed
  finished crashed (some r) = r

  -- A handler that writes nothing but the context.
  abbrev pub on_ctx : Handler E BatchHandlerCtx → Handler E BatchState
  on_ctx f s = f s.ctx >>= λ ctx. ok (record s { ctx = ctx })

  module _ (v : Services E) where
    unfoldable pub expiring : Handler E BatchState
    unfolding drop_expired
    expiring s =
        finished v.crashed (
          drop_expired E v.crypto v.clock (record { seen_at = s.seen_at; ttl = v.max_op_ttl })
            s.ctx)
        >>= λ (seen, ctx). ok (record s { seen_at = seen; ctx = ctx })

    abbrev pub hash_of : BatchHandlerCtx → AiOperation → ℕ
    hash_of ctx op = get_ai_op_hash v.crypto op ctx.ai_middleware ctx.chain_id

    unfoldable pub comparing : Handler E BatchState
    comparing s =
        finished v.crashed
          (code_hashes (hash_of s.ctx) v.keccak256 v.get_code v.not_found s.saved s.ctx)
        >>= λ (u, ctx). ok (record s { ctx = ctx })

    -- The relayer.
    unfoldable pub relaying : Handler E BatchState
    relaying s =
        finished v.crashed (send_ai_operation v.estimate v.handle_ops v.fuel s.ctx) >>= λ ctx.
        ok (record s { ctx = ctx })

    -- The builder client.
    unfoldable pub building : Handler E BatchState
    building s = finished v.crashed (build_and_send v.builder v.fuel s.ctx) >>= λ ctx.
        ok (record s { ctx = ctx })

    abbrev pub sending : Mode → Handler E BatchState
    sending private_mode = relaying
    sending searcher_mode = building

    unfoldable pub counting : Handler E BatchState
    counting s = inc_ops_included v.range v.txn v.now s.ctx s.counters >>= λ db.
        ok (record s { counters = db })

    unfoldable pub cleaning : Handler E BatchState
    cleaning s = clean (hash_of s.ctx) v.commit s.saved s.ctx >>= λ db. ok (record s { saved = db })

    -- SimulateBatch does nothing.
    abbrev pub simulate_batch : Handler E BatchHandlerCtx
    simulate_batch ctx = ok ctx

    -- The handlers that each mode gives to UseModules of the bundler.
    unfoldable pub batch_modules : Mode → List (Handler E BatchState)
    unfolding relaying building
    batch_modules mode =
        expiring
        ∷ on_ctx (λ ctx. ok (sort_by_gas_price ctx))
        ∷ on_ctx (λ ctx. ok (filter_underpriced ctx))
        ∷ on_ctx (λ ctx. ok (sort_by_nonce ctx))
        ∷ on_ctx (maintain_gas_limit v.static v.max_batch_gas_limit)
        ∷ comparing
        ∷ on_ctx (paymaster_deposit v.connect)
        ∷ on_ctx simulate_batch
        ∷ sending mode
        ∷ counting
        ∷ cleaning
        ∷ []

    -- The batch handler of the bundler.
    unfoldable pub batch_handler : Mode → Handler E BatchState
    unfolding batch_modules compose_handlers
    batch_handler mode = compose_handlers (batch_modules mode)
