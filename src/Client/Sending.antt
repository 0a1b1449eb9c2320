-- ===== src/Client/Sending.antt =====
-- What a sent operation does to the mempool.
use mathlib.Core.List.{Mem}
use aiops_bundler.Base.{
  ℕ, Bool, true, false, ◌||◌, List, [], ◌∷◌, Option, none, some, ◌≡◌, refl, sym, ap, ◌∙◌, subst,
  inl, inr, arith,
}
use aiops_bundler.Base.Tests.{◌==◌, Bool-cases, if-true, if-false, ==_iff}
use aiops_bundler.Base.Result.{Result, ok, err, >>=-elim, Result-cases}
use aiops_bundler.Aiop.{Address, Bytes, AiOperation, get_factory, get_paymaster}
use aiops_bundler.Aiop.Hash.{Crypto, get_ai_op_hash}
use aiops_bundler.Aiop.Parse.{Codec, ParseError, RawOp, Text, new}
use aiops_bundler.Modules.{AiOpHandlerCtx, DepositInfo, new_ai_op_handler_context}
use aiops_bundler.Mempool.{SortedSet, IsSortedSet, add_op, get_ops, all_ops}
use aiops_bundler.Mempool.Views.{is_filed}
use aiops_bundler.Mempool.Removing.{add_op-Mem}
use aiops_bundler.Mempool.Pool.{Mempool, pool_add}
use aiops_bundler.Client.{
  ClientError, upstream, Client, outside, operation, parse_ai_middleware_address, checked_operation,
  send_ai_operation,
}

abbrev pub lists : Address → List Address → Bool
lists ep [] = false
lists ep (addr ∷ rest) = (ep == addr) || lists ep rest

module _ {ℓ} {E : Type ℓ} where
  parse_ai_middleware_address_lem :
      (supported : List Address) (ep addr : Address)
      → parse_ai_middleware_address {E = E} supported ep ≡ ok addr
      → (addr ≡ ep) × (lists ep supported ≡ true)
  unfolding parse_ai_middleware_address
  parse_ai_middleware_address_lem [] ep addr h = cc
  parse_ai_middleware_address_lem (a ∷ rest) ep addr h = elim (Bool-cases (ep == a)) [
    | inl e ↦
        let found = sym (if-true (ep == a) _ _ e) ∙ h in
        let same : a ≡ addr = cc in
        let here : ep ≡ a = (==_iff ep a).0 e in (sym (here ∙ same), rw e refl)
    | inr e ↦
        let rest_found = sym (if-false (ep == a) _ _ e) ∙ h in
        rw e (parse_ai_middleware_address_lem rest ep addr rest_found)
  ]

  outside-eq-ok {κ} : {A : Type κ} (r : Result E A) (a : A) → outside r ≡ ok a → r ≡ ok a
  outside-eq-ok (ok b) a h = cc
  outside-eq-ok (err e) a h = cc

  operation-eq-ok {κ} :
      {A : Type κ} (r : Result ParseError A) (a : A) → operation {E = E} r ≡ ok a → r ≡ ok a
  operation-eq-ok (ok b) a h = cc
  operation-eq-ok (err e) a h = cc

  new_ai_op_handler_context-op :
      (op : AiOperation) (ep : Address) (chain_id : ℕ)
      (ops : Address → Address → Result E (List AiOperation))
      (gs : Address → Address → Result E (Option DepositInfo)) (c : AiOpHandlerCtx)
      → new_ai_op_handler_context op ep chain_id ops gs ≡ ok c
      → c.ai_op ≡ op
  unfolding new_ai_op_handler_context
  new_ai_op_handler_context-op op ep chain_id ops gs c h =
      >>=-elim (ops ep op.sender) _ c h λ pso e1 r1.
        >>=-elim (ops ep (get_factory op)) _ c r1 λ pfo e2 r2.
          >>=-elim (ops ep (get_paymaster op)) _ c r2 λ ppo e3 r3.
            >>=-elim (gs ep op.sender) _ c r3 λ sd e4 r4.
              >>=-elim (gs ep (get_factory op)) _ c r4
                λ fd e5 r5. >>=-elim (gs ep (get_paymaster op)) _ c r5 λ pd e6 r6. ground arith

module _ {ℓ κ μ} {E : Type ℓ} {Os : Type κ} {Sos : Type μ} (S : SortedSet) (L : IsSortedSet S)
    (V : Type 0) (codec : Codec) (crypto : Crypto) (abi : AiOperation → Bytes)
    (i : Client E Os Sos) where
  -- What is known of an operation that SendAiOperation accepts.
  abbrev pub Accepted : RawOp → Text → ℕ → Mempool S V → Type 0
  Accepted raw ep hash m =
      (op : AiOperation) × (new codec raw ≡ ok op)
      × (lists (codec.hex_to_address ep) i.supported_ai_middlewares ≡ true)
      × (hash ≡ get_ai_op_hash crypto op (codec.hex_to_address ep) i.chain_id)
      × Mem op (all_ops S (codec.hex_to_address ep) m.queue).0
      × ((e : Address)
          → is_filed e op ≡ true
          → Mem op (get_ops S (codec.hex_to_address ep) e m.queue).0)

  abbrev pub Sent : RawOp → Text → Mempool S V → Mempool S V × Result (ClientError E) ℕ → Type 0
  Sent raw ep before (m, r) = elim r [ err e ↦ m ≡ before | ok hash ↦ Accepted raw ep hash m ]

  checked_operation_lem :
      (raw : RawOp) (ep : Text) (m : Mempool S V) (ep_addr : Address) (hash : ℕ)
      (ctx : AiOpHandlerCtx)
      → ((c d : AiOpHandlerCtx) → i.ai_op_handler c ≡ ok d → d.ai_op ≡ c.ai_op)
      → checked_operation S V codec crypto abi i raw ep m ≡ ok (ep_addr, hash, ctx)
      → (new codec raw ≡ ok ctx.ai_op)
        × (lists (codec.hex_to_address ep) i.supported_ai_middlewares ≡ true)
        × (ep_addr ≡ codec.hex_to_address ep)
        × (hash ≡ get_ai_op_hash crypto ctx.ai_op ep_addr i.chain_id)
  unfolding checked_operation
  checked_operation_lem raw ep m ep_addr hash ctx keeps h =
      let last : Address × ℕ × AiOpHandlerCtx = (ep_addr, hash, ctx) in
      >>=-elim (parse_ai_middleware_address i.supported_ai_middlewares (codec.hex_to_address ep)) _
        last h
        λ addr e1 r1. >>=-elim (operation (new codec raw)) _ last r1 λ op e2 r2.
          >>=-elim
            (outside (
              new_ai_op_handler_context op addr i.chain_id (λ a e. ok (get_ops S a e m.queue).0)
                i.get_stake_func))
            _ last r2
            λ c e3 r3. >>=-elim (outside (i.ai_op_handler c)) _ last r3 λ d e4 r4.
              let own =
                new_ai_op_handler_context-op op addr i.chain_id _ i.get_stake_func c
                  (outside-eq-ok _ c e3) in
              let kept = keeps c d (outside-eq-ok (i.ai_op_handler c) d e4) in
              let parsed = operation-eq-ok (new codec raw) op e2 in
              let (same, listed) =
                parse_ai_middleware_address_lem i.supported_ai_middlewares (codec.hex_to_address ep)
                  addr e1 in
              let at : addr ≡ ep_addr = cc in
              let after : d ≡ ctx = cc in
              let op' : op ≡ ctx.ai_op = sym (kept ∙ own) ∙ ap (λ x. x.ai_op) after in
              let hashed : get_ai_op_hash crypto op addr i.chain_id ≡ hash = cc in
              (parsed ∙ ap ok op', listed, sym at ∙ same, sym (rw (← op', ← at) hashed))

  pool_add-queue :
      (marshal : AiOperation → Result E V) (commit : Option E) (ep : Address) (op : AiOperation)
      (m m' : Mempool S V)
      → pool_add S V marshal commit ep op m ≡ ok m'
      → m'.queue ≡ add_op S ep op m.queue
  unfolding pool_add
  pool_add-queue marshal none ep op m m' h = >>=-elim (marshal op) _ m' h λ value e r. ground arith
  pool_add-queue marshal (some x) ep op m m' h = >>=-elim (marshal op) _ m' h λ value e r. cc

  accepted :
      (raw : RawOp) (ep : Text) (m m' : Mempool S V) (ep_addr : Address) (hash : ℕ)
      (ctx : AiOpHandlerCtx)
      → ((c d : AiOpHandlerCtx) → i.ai_op_handler c ≡ ok d → d.ai_op ≡ c.ai_op)
      → checked_operation S V codec crypto abi i raw ep m ≡ ok (ep_addr, hash, ctx)
      → m'.queue ≡ add_op S ep_addr ctx.ai_op m.queue
      → Accepted raw ep hash m'
  accepted raw ep m m' ep_addr hash ctx keeps e f =
      let op = ctx.ai_op in
      let (parsed, listed, at, hashed) = checked_operation_lem raw ep m ep_addr hash ctx keeps e in
      let found : (a : Address)
          → is_filed a op ≡ true
          → Mem op (get_ops S ep_addr a m'.queue).0 × Mem op (all_ops S ep_addr m'.queue).0 =
        λ a h.
          subst (λ q. Mem op (get_ops S ep_addr a q).0 × Mem op (all_ops S ep_addr q).0) (sym f)
            (add_op-Mem S L ep_addr op m.queue a h) in
      let own : is_filed op.sender op ≡ true = ground arith in
      (
        op,
        parsed,
        listed,
        hashed ∙ ap (λ a. get_ai_op_hash crypto op a i.chain_id) at,
        subst (λ a. Mem op (all_ops S a m'.queue).0) at (found op.sender own).1,
        λ a h. subst (λ x. Mem op (get_ops S x a m'.queue).0) at (found a h).0,
      )

  -- If the handlers keep the operation of the context, an operation that SendAiOperation accepts is
  -- a valid one for a supported AiMiddleware, the hash that it returns is that of the operation, and
  -- the operation is among those that Dump returns for its AiMiddleware and GetOps for each of its
  -- entities. After an error the mempool is as it was.
  pub send_ai_operation_lem :
      (marshal : AiOperation → Result E V) (commit : Option E) (raw : RawOp) (ep : Text)
      (m : Mempool S V)
      → ((c d : AiOpHandlerCtx) → i.ai_op_handler c ≡ ok d → d.ai_op ≡ c.ai_op)
      → Sent raw ep m (send_ai_operation S V codec crypto abi i marshal commit raw ep m)
  unfolding send_ai_operation
  send_ai_operation_lem marshal commit raw ep m keeps =
      elim (Result-cases (checked_operation S V codec crypto abi i raw ep m)) [
        | inl ((ep_addr, hash, ctx), e) ↦
            elim (Result-cases (pool_add S V marshal commit ep_addr ctx.ai_op m)) [
              | inl (m', f) ↦
                  let same : send_ai_operation S V codec crypto abi i marshal commit raw ep m
                      ≡ (m', ok hash) =
                    rw (send_ai_operation, e, f) refl in
                  subst (Sent raw ep m) (sym same) (
                    accepted raw ep m m' ep_addr hash ctx keeps e
                      (pool_add-queue marshal commit ep_addr ctx.ai_op m m' f))
              | inr (x, f) ↦
                  let same : send_ai_operation S V codec crypto abi i marshal commit raw ep m
                      ≡ (m, err (upstream x)) =
                    rw (send_ai_operation, e, f) refl in
                  subst (Sent raw ep m) (sym same) refl
            ]
        | inr (x, e) ↦
            let same : send_ai_operation S V codec crypto abi i marshal commit raw ep m
                ≡ (m, err x) =
              rw (send_ai_operation, e) refl in
            subst (Sent raw ep m) (sym same) refl
      ]
