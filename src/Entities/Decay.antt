-- ===== src/Entities/Decay.antt =====
-- The decay of the counters (applyExpWeights).
use aiops_bundler.Base.{ℕ, zero, suc, ◌-◌, ◌/◌, ◌≤◌, ◌<◌, ◌≡◌, refl, arith}
use aiops_bundler.Entities.{ema_hours, decay_loop}

-- One hour of decay of one counter.
abbrev pub decayed : ℕ → ℕ
decayed x = x - x / ema_hours

abbrev pub after_hours : ℕ → ℕ → ℕ
after_hours zero x = x
after_hours (suc i) x = after_hours i (decayed x)

after_hours-small : (i x : ℕ) → x < 24 → after_hours i x ≡ x
after_hours-small zero x h = refl
after_hours-small (suc i) x h =
    let same : decayed x ≡ x = omega arith in rw same (after_hours-small i x h)

-- The loop's early exit changes nothing: both counters decay on their own by a 24th, rounded down,
-- for each of the hours.
decay_loop_lem :
    (i ops_seen ops_included : ℕ)
    → decay_loop i ops_seen ops_included ≡ (after_hours i ops_seen, after_hours i ops_included)
unfolding decay_loop
decay_loop_lem zero s n = refl
decay_loop_lem (suc i) s n = ground (
  arith,
  decay_loop_lem i (decayed s) (decayed n),
  after_hours-small (suc i) s,
  after_hours-small (suc i) n,
)

-- A counter never grows, and never falls below 23 once it was there.
after_hours-bounds : (i x : ℕ) → (after_hours i x ≤ x) × (23 ≤ x → 23 ≤ after_hours i x)
after_hours-bounds zero x = ground arith
after_hours-bounds (suc i) x =
    let rest = after_hours-bounds i (decayed x) in
    let step : (decayed x ≤ x) × (23 ≤ x → 23 ≤ decayed x) = ground arith in
    ground (arith, rest, step)
