-- ===== src/Client/Debug/Dumped.antt =====
-- An operation from the client's SendAiOperation through the mempool to the debug method that dumps it.
use mathlib.Core.List.{Mem, mem-map_of_mem}
use aiops_bundler.Base.{ℕ, Option, ◌≡◌, sym, ◌∙◌, subst}
use aiops_bundler.Base.Result.{Result, ok}
use aiops_bundler.Aiop.{Bytes, AiOperation}
use aiops_bundler.Aiop.Hash.{Crypto}
use aiops_bundler.Aiop.Parse.{Codec, RawOp, Text, new, to_map}
use aiops_bundler.Aiop.Parse.Roundtrip.{Restorable, Restorable-new}
use aiops_bundler.Modules.{AiOpHandlerCtx}
use aiops_bundler.Mempool.{SortedSet, IsSortedSet}
use aiops_bundler.Mempool.Pool.{Mempool}
use aiops_bundler.Client.{Client, send_ai_operation}
use aiops_bundler.Client.Sending.{Sent, send_ai_operation_lem}
use aiops_bundler.Client.Debug.{dump_mempool}

module _ {ℓ κ μ} {E : Type ℓ} {Os : Type κ} {Sos : Type μ} (S : SortedSet) (L : IsSortedSet S)
    (V : Type 0) (codec : Codec) (crypto : Crypto) (abi : AiOperation → Bytes)
    (i : Client E Os Sos) where
  -- If the handlers keep the operation of the context and operations read back from their maps, an
  -- operation that SendAiOperation accepts is in the dump of its AiMiddleware after, as a map that
  -- aiop.New reads as the same operation as the one that was sent.
  pub dump_mempool-accepted :
      (marshal : AiOperation → Result E V) (commit : Option E) (raw : RawOp) (ep : Text)
      (m m' : Mempool S V) (hash : ℕ)
      → ((c d : AiOpHandlerCtx) → i.ai_op_handler c ≡ ok d → d.ai_op ≡ c.ai_op)
      → ((op : AiOperation) → new codec raw ≡ ok op → Restorable codec op)
      → send_ai_operation S V codec crypto abi i marshal commit raw ep m ≡ (m', ok hash)
      → (item : RawOp) × Mem item (dump_mempool S V codec ep m') × (new codec item ≡ new codec raw)
  unfolding dump_mempool
  dump_mempool-accepted marshal commit raw ep m m' hash keeps restorable sent =
      let known : Sent S L V codec crypto abi i raw ep m (m', ok hash) =
        subst (Sent S L V codec crypto abi i raw ep m) sent
          (send_ai_operation_lem S L V codec crypto abi i marshal commit raw ep m keeps) in
      let (op, parsed, listed, hashed, filed, entities) = known in
      (
        to_map codec op,
        mem-map_of_mem (to_map codec) filed,
        Restorable-new codec op (restorable op parsed) ∙ sym parsed,
      )
