-- ===== src/Bundler/Lifecycle.antt =====
-- Run and Stop of the bundler (pkg/bundler/bundler.go), called from any number of goroutines, as steps
-- of a relation. Neither takes a lock: the test of isRunning, the start of the goroutine and the write
-- of isRunning are steps of their own. The single reads and writes of a field are taken as atomic.
use aiops_bundler.Base.{
  ℕ, suc, ◌+◌, ◌≤◌, Bool, true, false, List, [], ◌∷◌, ◌++◌, ◌≡◌, refl, sym, ap, ◌∙◌, subst, arith,
}
use aiops_bundler.Base.Tests.{if◌then◌else◌}
use aiops_bundler.Base.Lists.{length, length-append}
use aiops_bundler.Aiop.{Address}

-- A call of Run that has found the bundler stopped, or that has also started its goroutine, and a call
-- of Stop that has found it running.
pub data Call : Type 0 where
  run_found run_started stop_found : Call

-- `calls` are the calls between their test of isRunning and their write to it. `loops` has, for each
-- goroutine that Run started and that goes on, the AiMiddlewares that it has still to process in this
-- tick; [] waits in the select. `stopping` counts the calls of Stop that wait to send on `done`, and
-- `processed` are the calls of Process so far.
pub record RunState : Type 0 where
  pub is_running : Bool
  pub calls : List Call
  pub loops : List (List Address)
  pub stopping : ℕ
  pub processed : List Address

abbrev pub new_state : RunState
new_state = record { is_running = false; calls = []; loops = []; stopping = 0; processed = [] }

-- A tick may still be taken after ticker.Stop, since one can be left in its channel.
pub data Step (supported : List Address) : RunState → RunState → Type 0 where
  run_again : (s : RunState) → s.is_running ≡ true → Step supported s s
  run_test :
      (s : RunState)
      → s.is_running ≡ false
      → Step supported s (record s { calls = run_found ∷ s.calls })
  run_go :
      (s : RunState) (before after : List Call)
      → s.calls ≡ before ++ run_found ∷ after
      → Step supported s
          (record s { calls = before ++ run_started ∷ after; loops = s.loops ++ [] ∷ [] })
  run_write :
      (s : RunState) (before after : List Call)
      → s.calls ≡ before ++ run_started ∷ after
      → Step supported s (record s { is_running = true; calls = before ++ after })
  stop_again : (s : RunState) → s.is_running ≡ false → Step supported s s
  stop_test :
      (s : RunState)
      → s.is_running ≡ true
      → Step supported s (record s { calls = stop_found ∷ s.calls })
  stop_write :
      (s : RunState) (before after : List Call)
      → s.calls ≡ before ++ stop_found ∷ after
      → Step supported s
          (record s { is_running = false; calls = before ++ after; stopping = suc s.stopping })
  tick :
      (s : RunState) (before after : List (List Address))
      → s.loops ≡ before ++ [] ∷ after
      → Step supported s (record s { loops = before ++ supported ∷ after })
  process_one :
      (s : RunState) (before after : List (List Address)) (ep : Address) (eps : List Address)
      → s.loops ≡ before ++ (ep ∷ eps) ∷ after
      → Step supported s
          (record s { loops = before ++ eps ∷ after; processed = s.processed ++ ep ∷ [] })
  -- A waiting goroutine receives what one of the calls of Stop sends: both go on, one ends.
  done :
      (s : RunState) (before after : List (List Address)) (n : ℕ)
      → s.stopping ≡ suc n
      → s.loops ≡ before ++ [] ∷ after
      → Step supported s (record s { loops = before ++ after; stopping = n })

-- The states that are reached while at no time more than one call of Run or Stop is between its test
-- and its write.
pub data Reach (supported : List Address) : RunState → Type 0 where
  start : Reach supported new_state
  next :
      {s t : RunState}
      → Reach supported s
      → Step supported s t
      → length t.calls ≤ 1
      → Reach supported t

-- The goroutines that are there for isRunning and the call under way.
abbrev pub running : Bool → List Call → ℕ
running b [] = if b then 1 else 0
running b (run_found ∷ calls) = 0
running b (run_started ∷ calls) = 1
running b (stop_found ∷ calls) = 1

-- One goroutine for the bundler that runs, and one for each call of Stop that waits.
abbrev pub Balanced : RunState → Type 0
Balanced s = length s.loops ≡ running s.is_running s.calls + s.stopping

-- What the call under way has found still holds.
abbrev Agrees : Bool → List Call → Type 0
Agrees b [] = Unit
Agrees b (run_found ∷ calls) = b ≡ false
Agrees b (run_started ∷ calls) = b ≡ false
Agrees b (stop_found ∷ calls) = b ≡ true

abbrev Steady : RunState → Type 0
Steady s = (length s.calls ≤ 1) × Agrees s.is_running s.calls × Balanced s

no_calls : (calls : List Call) → length calls ≤ 0 → calls ≡ []
no_calls [] h = refl
no_calls (c ∷ calls) h = absurd (omega arith)

alone :
    (calls before after : List Call) (c : Call)
    → calls ≡ before ++ c ∷ after
    → length calls ≤ 1
    → (before ≡ []) × (after ≡ []) × (calls ≡ c ∷ [])
alone calls [] after c e h =
    let last : after ≡ [] = no_calls after (let n = ap length e in omega arith) in
    (refl, last, e ∙ ap (λ l. c ∷ l) last)
alone calls (b ∷ before) after c e h =
    let n = ap length e in absurd (omega (arith, length-append before (c ∷ after)))

length-swap :
    (before after : List (List Address)) (a b : List Address)
    → length (before ++ a ∷ after) ≡ length (before ++ b ∷ after)
length-swap before after a b =
    omega (arith, length-append before (a ∷ after), length-append before (b ∷ after))

-- What the steady states say of the state in which the call under way is known.
balance-at :
    (s : RunState) (b : Bool) (calls : List Call)
    → s.is_running ≡ b
    → s.calls ≡ calls
    → Steady s
    → length s.loops ≡ running b calls + s.stopping
balance-at s b calls e f k =
    k.2 ∙ ap (λ n. n + s.stopping) (ap (λ r. running r s.calls) e ∙ ap (running b) f)

Agrees-at :
    (s : RunState) (calls : List Call) → s.calls ≡ calls → Steady s → Agrees s.is_running calls
Agrees-at s calls f k = subst (Agrees s.is_running) f k.1

Step-Steady :
    {supported : List Address} {s t : RunState}
    → Step supported s t
    → length t.calls ≤ 1
    → Steady s
    → Steady t
Step-Steady (run_again s h) one k = k
Step-Steady (run_test s h) one k =
    let e = no_calls s.calls (omega arith) in (one, h, balance-at s false [] h e k)
Step-Steady (run_go s before after h) one k =
    let (eb, ea, e) = alone s.calls before after run_found h k.0 in
    let stopped = Agrees-at s (run_found ∷ []) e k in
    let b = balance-at s false (run_found ∷ []) stopped e k in
    let more = length-append s.loops ([] ∷ []) in
    let now : length (s.loops ++ [] ∷ []) ≡ 1 + s.stopping = omega arith in
    rw (eb, ea) (omega arith, stopped, now)
Step-Steady (run_write s before after h) one k =
    let (eb, ea, e) = alone s.calls before after run_started h k.0 in
    let b = balance-at s s.is_running (run_started ∷ []) refl e k in
    rw (eb, ea) (omega arith, tt, b)
Step-Steady (stop_again s h) one k = k
Step-Steady (stop_test s h) one k =
    let e = no_calls s.calls (omega arith) in (one, h, balance-at s true [] h e k)
Step-Steady (stop_write s before after h) one k =
    let (eb, ea, e) = alone s.calls before after stop_found h k.0 in
    let b = balance-at s s.is_running (stop_found ∷ []) refl e k in
    let now : length s.loops ≡ 0 + suc s.stopping = omega arith in
    rw (eb, ea) (omega arith, tt, now)
Step-Steady {supported} (tick s before after h) one k =
    (one, k.1, length-swap before after supported [] ∙ (ap length (sym h) ∙ k.2))
Step-Steady (process_one s before after ep eps h) one k =
    (one, k.1, length-swap before after eps (ep ∷ eps) ∙ (ap length (sym h) ∙ k.2))
Step-Steady (done s before after n e h) one k =
    let here = ap length h in
    let b = k.2 in
    (one, k.1, omega (arith, length-append before after, length-append before ([] ∷ after)))

Reach-Steady : {supported : List Address} {s : RunState} → Reach supported s → Steady s
Reach-Steady start = (omega arith, tt, refl)
Reach-Steady (next r step one) = Step-Steady step one (Reach-Steady r)

-- While at no time more than one call of Run or Stop is between its test of isRunning and its write,
-- there is one goroutine for each call of Stop that waits for one to end, and one more exactly while
-- the bundler runs or a call of Run has started it: with no call between test and write, exactly while
-- isRunning is set.
pub Reach-Balanced : {supported : List Address} {s : RunState} → Reach supported s → Balanced s
Reach-Balanced r = (Reach-Steady r).2
