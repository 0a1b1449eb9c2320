-- ===== src/Start/Bundling.antt =====
-- What the whole composition of the bundler's handlers does to a batch, and with it a run of the bundler.
use mathlib.Core.List.{append-nil}
use aiops_bundler.Base.{◌≡◌, sym, ap, ◌∙◌, subst, List, ◌++◌, Option, none, some, Perm}
use aiops_bundler.Base.Lists.{All}
use aiops_bundler.Base.Result.{Result, ok, ◌>>=◌, >>=-eq-ok}
use aiops_bundler.Aiop.{Address, AiOperation}
use aiops_bundler.Modules.{BatchHandlerCtx, Handler}
use aiops_bundler.Modules.Compose.{Keeps, compose_handlers-Keeps}
use aiops_bundler.Modules.Removal.{held}
use aiops_bundler.Modules.Shrinks.{Shrinks, Shrinks-refl, Shrinks-trans, held-Shrinks}
use aiops_bundler.Bundler.{Bundler, adjust_batch_size, rm_ops, process}
use aiops_bundler.Bundler.Handled.{process-Handled}
use aiops_bundler.Batch.Expire.{drop_expired}
use aiops_bundler.Batch.Sort.{sort_by_gas_price, sort_by_nonce}
use aiops_bundler.Batch.GasPrice.{filter_underpriced}
use aiops_bundler.Batch.PaymasterDeposit.{paymaster_deposit-conserves}
use aiops_bundler.Checks.Saved.{code_hashes, clean}
use aiops_bundler.Entities.Handlers.{inc_ops_included}
use aiops_bundler.Relay.{send_ai_operation}
use aiops_bundler.Builder.{build_and_send}
use aiops_bundler.Builder.Sending.{build_and_send-conserves}
use aiops_bundler.Relay.Conserving.{send_ai_operation-conserves}
use aiops_bundler.Start.Shrinking.{
  sweep-conserves, filter_underpriced-Shrinks, sort_by_gas_price-Shrinks, sort_by_nonce-Shrinks,
  maintain_gas_limit-Shrinks,
}
use aiops_bundler.Start.{
  BatchState, Mode, private_mode, searcher_mode, Services, building, sending, finished, on_ctx,
  expiring, hash_of, comparing, relaying, counting, cleaning, batch_modules, batch_handler,
}

abbrev pub StateShrinks : BatchState → BatchState → Type 0
StateShrinks s t = Shrinks s.ctx t.ctx

module _ {ℓ} {E : Type ℓ} where
  finished-eq-ok {κ} :
      {A : Type κ} (crashed : E) (r : Option (Result E A)) (a : A)
      → finished crashed r ≡ ok a
      → r ≡ some (ok a)
  finished-eq-ok crashed none a h = cc
  finished-eq-ok crashed (some r) a h = ap some h

  on_ctx-Keeps :
      (f : Handler E BatchHandlerCtx)
      → ((c d : BatchHandlerCtx) → f c ≡ ok d → Shrinks c d)
      → Keeps StateShrinks (on_ctx f)
  on_ctx-Keeps f shrinks s t h =
      let (ctx, e, last) = >>=-eq-ok (f s.ctx) _ h in
      let same : record s { ctx = ctx } ≡ t = cc in
      subst (StateShrinks s) same (shrinks s.ctx ctx e)

  pure-Keeps :
      (f : BatchHandlerCtx → BatchHandlerCtx)
      → ((c : BatchHandlerCtx) → Shrinks c (f c))
      → Keeps StateShrinks (on_ctx {E = E} (λ ctx. ok (f ctx)))
  pure-Keeps f shrinks =
      on_ctx-Keeps (λ ctx. ok (f ctx))
        (λ c d h. let same : f c ≡ d = cc in subst (Shrinks c) same (shrinks c))

  module _ (v : Services E) where
    expiring-Keeps : Keeps StateShrinks (expiring v)
    unfolding expiring drop_expired
    expiring-Keeps s t h =
        let swept =
          drop_expired E v.crypto v.clock (record { seen_at = s.seen_at; ttl = v.max_op_ttl })
            s.ctx in
        let ((seen, ctx), e, last) =
          >>=-eq-ok (finished v.crashed swept)
            (λ (seen, ctx). ok (record s { seen_at = seen; ctx = ctx })) h in
        let same : record s { seen_at = seen; ctx = ctx } ≡ t = cc in
        let ran = finished-eq-ok v.crashed swept (seen, ctx) e in
        subst (StateShrinks s) same
          (held-Shrinks s.ctx ctx (sweep-conserves _ "op expired" s.seen_at seen s.ctx ctx ran))

    comparing-Keeps : Keeps StateShrinks (comparing v)
    unfolding comparing code_hashes
    comparing-Keeps s t h =
        let swept =
          code_hashes (hash_of v s.ctx) v.keccak256 v.get_code v.not_found s.saved s.ctx in
        let ((u, ctx), e, last) =
          >>=-eq-ok (finished v.crashed swept) (λ (u, ctx). ok (record s { ctx = ctx })) h in
        let same : record s { ctx = ctx } ≡ t = cc in
        let ran = finished-eq-ok v.crashed swept (u, ctx) e in
        subst (StateShrinks s) same
          (held-Shrinks s.ctx ctx (sweep-conserves _ "code hash changed" tt u s.ctx ctx ran))

    relaying-Keeps : Keeps StateShrinks (relaying v)
    unfolding relaying
    relaying-Keeps s t h =
        let sent = send_ai_operation v.estimate v.handle_ops v.fuel s.ctx in
        let (ctx, e, last) =
          >>=-eq-ok (finished v.crashed sent) (λ ctx. ok (record s { ctx = ctx })) h in
        let same : record s { ctx = ctx } ≡ t = cc in
        let ran = finished-eq-ok v.crashed sent ctx e in
        subst (StateShrinks s) same (
          held-Shrinks s.ctx ctx
            (send_ai_operation-conserves v.estimate v.handle_ops v.fuel s.ctx ctx ran))

    building-Keeps : Keeps StateShrinks (building v)
    unfolding building
    building-Keeps s t h =
        let sent = build_and_send v.builder v.fuel s.ctx in
        let (ctx, e, last) =
          >>=-eq-ok (finished v.crashed sent) (λ ctx. ok (record s { ctx = ctx })) h in
        let same : record s { ctx = ctx } ≡ t = cc in
        let ran = finished-eq-ok v.crashed sent ctx e in
        subst (StateShrinks s) same
          (held-Shrinks s.ctx ctx (build_and_send-conserves v.builder v.fuel s.ctx ctx ran))

    sending-Keeps : (mode : Mode) → Keeps StateShrinks (sending v mode)
    sending-Keeps private_mode = relaying-Keeps
    sending-Keeps searcher_mode = building-Keeps

    counting-Keeps : Keeps StateShrinks (counting v)
    unfolding counting
    counting-Keeps s t h =
        let (db, e, last) = >>=-eq-ok (inc_ops_included v.range v.txn v.now s.ctx s.counters) _ h in
        let same : record s { counters = db } ≡ t = cc in
        subst (StateShrinks s) same (Shrinks-refl s.ctx)

    cleaning-Keeps : Keeps StateShrinks (cleaning v)
    unfolding cleaning
    cleaning-Keeps s t h =
        let (db, e, last) = >>=-eq-ok (clean (hash_of v s.ctx) v.commit s.saved s.ctx) _ h in
        let same : record s { saved = db } ≡ t = cc in
        subst (StateShrinks s) same (Shrinks-refl s.ctx)

    modules-Keep : (mode : Mode) → All (Keeps StateShrinks) (batch_modules v mode)
    unfolding batch_modules
    modules-Keep mode = (
      expiring-Keeps,
      (
        pure-Keeps sort_by_gas_price sort_by_gas_price-Shrinks,
        (
          pure-Keeps filter_underpriced filter_underpriced-Shrinks,
          (
            pure-Keeps sort_by_nonce sort_by_nonce-Shrinks,
            (
              on_ctx-Keeps _ (maintain_gas_limit-Shrinks v.static v.max_batch_gas_limit),
              (
                comparing-Keeps,
                (
                  on_ctx-Keeps _
                      (λ c d h. held-Shrinks c d (paymaster_deposit-conserves v.connect c d h)),
                  (
                    pure-Keeps (λ ctx. ctx) Shrinks-refl,
                    (sending-Keeps mode, (counting-Keeps, (cleaning-Keeps, tt))),
                  ),
                ),
              ),
            ),
          ),
        ),
      ),
    )

    -- The bundler's handlers together lose no operation but from the batch, and make none up: what the
    -- context holds in the end, in the batch or marked for removal, is with what was left out of the
    -- batch exactly what it held at the start.
    batch_handler-Shrinks :
        (mode : Mode) (s t : BatchState) → batch_handler v mode s ≡ ok t → Shrinks s.ctx t.ctx
    unfolding batch_handler
    batch_handler-Shrinks mode s t h =
        compose_handlers-Keeps StateShrinks (λ s. Shrinks-refl s.ctx)
          (λ s t u. Shrinks-trans s.ctx t.ctx u.ctx) (batch_modules v mode) (modules-Keep mode) s t
          h

    -- The bundler with these handlers, over the stores as a run finds them.
    abbrev pub with_modules : Mode → BatchState → Bundler E → Bundler E
    with_modules mode stores i = record i {
      batch_handler = λ c. batch_handler v mode (record stores { ctx = c }) >>= λ t. ok t.ctx;
    }

    -- In either mode a run of the bundler with its handlers removes from the mempool none but operations that it
    -- took from it, each at most as often.
    pub process-removes :
        (mode : Mode) (stores : BatchState) (i : Bundler E) (ep : Address)
        (all removed : List AiOperation) (ctx : BatchHandlerCtx)
        → i.dump ep ≡ ok all
        → process (with_modules mode stores i) ep ≡ ok (some (ctx, removed))
        → (left : List AiOperation) × Perm (removed ++ left) (adjust_batch_size i.max_batch all)
    process-removes mode stores i ep all removed ctx dumped h =
        let (start, batch, fresh, handled, gone, same) =
          process-Handled (with_modules mode stores i) ep all ctx removed dumped h in
        let (t, ran, last) =
          >>=-eq-ok (batch_handler v mode (record stores { ctx = start })) (λ t. ok t.ctx)
            handled in
        let (left, p) = batch_handler-Shrinks mode (record stores { ctx = start }) t ran in
        let end : t.ctx ≡ ctx = cc in
        let taken : held start ≡ adjust_batch_size i.max_batch all =
          rw (batch, fresh) (append-nil (adjust_batch_size i.max_batch all)) in
        (
          left,
          subst (λ ops. Perm (removed ++ left) ops) taken
              (subst (λ ops. Perm (ops ++ left) (held start)) (sym (same ∙ ap rm_ops (sym end))) p),
        )
