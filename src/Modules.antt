-- ===== src/Modules.antt =====
-- pkg/modules/context.go and pkg/modules/compose.go: the contexts that handlers work on, and the
-- composition of handlers. A handler returns its error or the new context; the caller of a handler
-- never reads the context after an error.
pub mod Removal
pub mod Compose
pub mod Shrinks
pub mod Examples
use aiops_bundler.Base.{ℕ, zero, suc, String, ◌≡◌, Bool, List, [], ◌∷◌, ◌++◌, Option, none, some}
use aiops_bundler.Base.Tests.{◌==◌, if◌then◌else◌}
use aiops_bundler.Base.Result.{Result, ok, err, ◌>>=◌}
use aiops_bundler.Aiop.{Address, AiOperation, get_factory, get_paymaster}

pub record PendingRemovalItem : Type 0 where
  pub op : AiOperation
  pub reason : String

pub record BatchHandlerCtx : Type 0 where
  pub batch : List AiOperation
  pub pending_removal : List PendingRemovalItem
  pub ai_middleware : Address
  pub chain_id : ℕ
  pub base_fee : Option ℕ
  pub tip : Option ℕ
  pub gas_price : Option ℕ
  -- The entries that handlers log: here the hash of a sent transaction.
  pub entries : List (String × ℕ)

unfoldable pub new_batch_handler_context :
    List AiOperation → Address → ℕ → Option ℕ → Option ℕ → Option ℕ → BatchHandlerCtx
new_batch_handler_context batch ai_middleware chain_id base_fee tip gas_price = record {
  batch = batch;
  pending_removal = [];
  ai_middleware = ai_middleware;
  chain_id = chain_id;
  base_fee = base_fee;
  tip = tip;
  gas_price = gas_price;
  entries = [];
}

-- The loop of MarkOpIndexForRemoval, at position `i`, with the `batch` and `op` built so far.
unfoldable pub mark_loop :
    ℕ
    → ℕ
    → List AiOperation
    → List AiOperation
    → Option AiOperation
    → List AiOperation × Option AiOperation
mark_loop index i [] batch op = (batch, op)
mark_loop index i (curr ∷ rest) batch op =
    mark_loop index (suc i) rest (if i == index then batch else batch ++ curr ∷ [])
      (if i == index then some curr else op)

unfoldable pub mark_op_index_for_removal : BatchHandlerCtx → ℕ → String → BatchHandlerCtx
mark_op_index_for_removal c index reason =
    let (batch, op) = mark_loop index 0 c.batch [] none in
    elim op [
      | none ↦ c
      | some o ↦ record c {
        batch = batch;
        pending_removal = c.pending_removal ++ record { op = o; reason = reason } ∷ [];
      }
    ]

-- What the deposit manager of the AiMiddleware contract knows of an entity.
pub record DepositInfo : Type 0 where
  pub deposit : ℕ
  pub staked : Bool

pub record AiOpHandlerCtx : Type 0 where
  pub ai_op : AiOperation
  pub ai_middleware : Address
  pub chain_id : ℕ
  pub pending_sender_ops : List AiOperation
  pub pending_factory_ops : List AiOperation
  pub pending_paymaster_ops : List AiOperation
  -- `none` is the nil that GetStakeFunc returns for the zero address.
  pub sender_deposit : Option DepositInfo
  pub factory_deposit : Option DepositInfo
  pub paymaster_deposit : Option DepositInfo

-- GetOps of the mempool and GetStakeFunc are arguments. GetOps may also create an empty set, which
-- no later call can tell from none.
unfoldable pub new_ai_op_handler_context {ℓ} :
    {E : Type ℓ}
    → AiOperation
    → Address
    → ℕ
    → (Address → Address → Result E (List AiOperation))
    → (Address → Address → Result E (Option DepositInfo))
    → Result E AiOpHandlerCtx
new_ai_op_handler_context op ep chain_id get_ops gs = do
  pso ← get_ops ep op.sender
  pfo ← get_ops ep (get_factory op)
  ppo ← get_ops ep (get_paymaster op)
  sd ← gs ep op.sender
  fd ← gs ep (get_factory op)
  pd ← gs ep (get_paymaster op)
  ok (record {
    ai_op = op;
    ai_middleware = ep;
    chain_id = chain_id;
    pending_sender_ops = pso;
    pending_factory_ops = pfo;
    pending_paymaster_ops = ppo;
    sender_deposit = sd;
    factory_deposit = fd;
    paymaster_deposit = pd;
  })

-- A handler over a state `S`: the context, with whatever stored data the handler writes.
abbrev pub Handler {ℓ κ} : Type ℓ → Type κ → Type (ℓ ⊔ κ)
Handler E S = S → Result E S

-- ComposeBatchHandlerFunc and ComposeAiOpHandlerFunc.
unfoldable pub compose_handlers {ℓ κ} : {E : Type ℓ} {S : Type κ} → List (Handler E S) → Handler E S
compose_handlers [] ctx = ok ctx
compose_handlers (fn ∷ fns) ctx = fn ctx >>= λ ctx'. compose_handlers fns ctx'
