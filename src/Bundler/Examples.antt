-- ===== src/Bundler/Examples.antt =====
-- A test of a run over the sample batch, of which at most one operation is taken.
use aiops_bundler.Base.{ℕ, true, ◌≡◌, refl, subst, [], ◌∷◌, some, Perm, arith}
use aiops_bundler.Base.Result.{Result, ok}
use aiops_bundler.Aiop.Examples.{sample_op}
use aiops_bundler.Modules.{
  BatchHandlerCtx, new_batch_handler_context, mark_loop, mark_op_index_for_removal,
}
use aiops_bundler.Modules.Removal.{held, mark-conserves}
use aiops_bundler.Modules.Examples.{sample_ctx}
use aiops_bundler.Bundler.Lifecycle.{
  RunState, new_state, run_found, run_started, stop_found, Step, run_test, run_go, run_write,
  stop_test, stop_write, tick, process_one, done, Reach, start, next, Balanced, Reach-Balanced,
}
use aiops_bundler.Bundler.{Bundler, adjust_batch_size, run_batch, handle_batch, process}

-- Its handler marks the first operation for removal.
abbrev sample_bundler : Bundler ℕ
sample_bundler = record {
  dump = λ ep. ok sample_ctx.batch;
  remove_ops = λ ep ops. ok tt;
  batch_handler = λ ctx. ok (mark_op_index_for_removal ctx 0 "op expired");
  chain_id = 1;
  max_batch = 1;
  gbf = ok (some 5);
  ggt = ok (some 1);
  ggp = ok (some 6);
}

sample_handler-conserves :
    (c d : BatchHandlerCtx)
    → ◌≡◌ {A = Result ℕ BatchHandlerCtx} (ok (mark_op_index_for_removal c 0 "op expired")) (ok d)
    → Perm (held d) (held c)
sample_handler-conserves c d e =
    let same : mark_op_index_for_removal c 0 "op expired" ≡ d = cc in
    subst (λ x. Perm (held x) (held c)) same (mark-conserves c 0 "op expired")

abbrev after_run : BatchHandlerCtx
after_run = record sample_ctx {
  batch = [];
  pending_removal = record { op = sample_op; reason = "op expired" } ∷ [];
}

sample_process : process sample_bundler 3 ≡ ok (some (after_run, sample_op ∷ []))
unfolding process run_batch handle_batch adjust_batch_size new_batch_handler_context
    mark_op_index_for_removal mark_loop
sample_process = refl

-- Run, one tick with one AiMiddleware processed, and Stop.
abbrev one_run : RunState
one_run = record new_state { is_running = true; loops = [] ∷ [] }

abbrev started : RunState
started = record new_state { calls = run_started ∷ []; loops = [] ∷ [] }

ran : Reach (3 ∷ []) one_run
ran =
    next
      (next (next start (run_test new_state refl) (omega arith))
        (run_go (record new_state { calls = run_found ∷ [] }) [] [] refl) (omega arith))
      (run_write started [] [] refl) (omega arith)

processed_one : Reach (3 ∷ []) (record one_run { processed = 3 ∷ [] })
processed_one =
    next (next ran (tick one_run [] [] refl) (omega arith))
      (process_one (record one_run { loops = (3 ∷ []) ∷ [] }) [] [] 3 [] refl) (omega arith)

abbrev stopped : RunState
stopped = record new_state { processed = 3 ∷ [] }

abbrev stop_waits : RunState
stop_waits = record stopped { loops = [] ∷ []; stopping = 1 }

stop_called : Reach (3 ∷ []) stop_waits
stop_called =
    next (next processed_one (stop_test (record one_run { processed = 3 ∷ [] }) refl) (omega arith))
      (stop_write (record one_run { calls = stop_found ∷ []; processed = 3 ∷ [] }) [] [] refl)
      (omega arith)

all_stopped : Reach (3 ∷ []) stopped
all_stopped = next stop_called (done stop_waits [] [] 0 refl refl) (omega arith)

-- A call of Run while a call of Stop waits starts a second goroutine.
run_while_stopping : Reach (3 ∷ []) (record stop_waits { is_running = true; loops = [] ∷ [] ∷ [] })
run_while_stopping =
    next
      (next (next stop_called (run_test stop_waits refl) (omega arith))
        (run_go (record stop_waits { calls = run_found ∷ [] }) [] [] refl) (omega arith))
      (run_write (record stop_waits { calls = run_started ∷ []; loops = [] ∷ [] ∷ [] }) [] [] refl)
      (omega arith)

-- Two calls of Run that both test isRunning before either writes it start two goroutines.
abbrev both_found : RunState
both_found = record new_state { calls = run_found ∷ run_found ∷ [] }

abbrev one_started : RunState
one_started = record started { calls = run_started ∷ run_found ∷ [] }

two_goroutines :
    Step (3 ∷ []) (record new_state { calls = run_found ∷ [] }) both_found
    × Step (3 ∷ []) both_found one_started
    × Step
        (3 ∷ [])
        one_started
        (record one_started { calls = run_started ∷ run_started ∷ []; loops = [] ∷ [] ∷ [] })
two_goroutines = (
  run_test (record new_state { calls = run_found ∷ [] }) refl,
  run_go both_found [] (run_found ∷ []) refl,
  run_go one_started (run_started ∷ []) [] refl,
)

Reach-Balanced_example : Balanced (record stop_waits { is_running = true; loops = [] ∷ [] ∷ [] })
Reach-Balanced_example = Reach-Balanced run_while_stopping
