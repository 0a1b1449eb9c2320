-- ===== src/Gas/Estimate/Sound.antt =====
-- EstimateGas returns within its retries, and its estimate has been simulated.
use aiops_bundler.Base.{
  ℕ, zero, suc, ◌+◌, ◌*◌, ◌≤◌, ◌<◌, false, ◌&&◌, ◌||◌, Option, none, some, ◌≡◌, refl, ◌∙◌, sym, ◌⊎◌,
  inl, inr, arith,
}
use aiops_bundler.Base.Tests.{ltb, ◌==◌, if◌then◌else◌, Bool-cases, Option-cases}
use aiops_bundler.Base.Result.{Result, ok, err, Result-cases}
use aiops_bundler.Aiop.{AiOperation, zero_address, get_paymaster}
use aiops_bundler.Gas.Estimate.{
  max_retries, base_vgl_buffer, Node, EstimateInput, is_validation_oog, is_execution_oog,
  is_execution_reverted, validation_way, execution_way, Probe, Outcome, reload, refused_limit,
  int64_div, no_estimate, searched, priced, vgl_probe, traced, cgl_probe, confirm, derive,
  first_search, attempt, retry_estimate_gas, estimate_gas,
}
use aiops_bundler.Aiop.Parse.{Codec}
use aiops_bundler.Aiop.Parse.Roundtrip.{Restorable, Restorable-new}
use aiops_bundler.Gas.Estimate.Search.{search_lem, some-eq}

module _ {ℓ κ} {E : Type ℓ} {S : Type κ} (codec : Codec) (node : Node E S) where
  -- The state overrides of the confirming simulation: those of the caller, and a full balance where
  -- there is no paymaster.
  abbrev pub overridden : AiOperation → S → S
  overridden op copied =
      if get_paymaster op == zero_address then node.with_max_balance op.sender copied else copied

  -- The operation with these limits and its actual fee passes a traced simulation.
  abbrev pub IsConfirmed : AiOperation → S → ℕ → ℕ → Type (ℓ ⊔ κ)
  IsConfirmed op sos vgl cgl =
      (copied : S) × (node.copy sos ≡ ok copied)
      × ((gas : ℕ) × (node.trace (priced op op.max_fee_per_gas op.max_fee_per_gas vgl cgl)
              (overridden op copied) none
            ≡ ok gas))

  -- A run that ends, with an error, with no estimate, or with one that is confirmed.
  abbrev pub IsSound : AiOperation → S → Outcome E → Type (ℓ ⊔ κ)
  IsSound op sos o =
      (res : Result E (ℕ × ℕ)) × (o ≡ some res)
      × ((vgl cgl : ℕ) → res ≡ ok (vgl, cgl) → ((vgl ≡ 0) × (cgl ≡ 0)) ⊎ IsConfirmed op sos vgl cgl)

  failed : (op : AiOperation) (sos : S) (e : E) → IsSound op sos (some (err e))
  failed op sos e = (err e, refl, λ v c q. absurd (ground arith))

  no_estimate-IsSound : (op : AiOperation) (sos : S) (o : Option E) → IsSound op sos (no_estimate o)
  no_estimate-IsSound op sos none = (ok (0, 0), refl, λ v c q. inl (cc, cc))
  no_estimate-IsSound op sos (some e) = failed op sos e

  confirmed :
      (op : AiOperation) (sos : S) (v c : ℕ)
      → IsConfirmed op sos v c
      → IsSound op sos (some (ok (v, c)))
  confirmed op sos v c h = (
    ok (v, c),
    refl,
    λ v' c' q. let ev : v ≡ v' = cc in let ec : c ≡ c' = cc in inr (rw (sym ev, sym ec) h),
  )

  traced-ok : (r : Result E ℕ) → traced codec node r ≡ ok tt → (gas : ℕ) × (r ≡ ok gas)
  traced-ok (ok gas) h = (gas, refl)
  traced-ok (err e) h = absurd (ground arith)

  searched-IsSound {μ} :
      {A : Type μ} (op : AiOperation) (sos : S) (m : Option (Result E A)) (r : Result E A)
      (k : A → Outcome E)
      → m ≡ some r
      → ((a : A) → r ≡ ok a → IsSound op sos (k a))
      → IsSound op sos (searched m k)
  searched-IsSound op sos m (ok a) k h s = rw h (s a refl)
  searched-IsSound op sos m (err e) k h s = rw h (failed op sos e)

  -- The operation reads back from its map, whatever its fees and its two limits are set to.
  abbrev pub Repriced : AiOperation → Type 0
  Repriced op = (fee tip vgl cgl : ℕ) → Restorable codec (priced op fee tip vgl cgl)

  reload-priced :
      (op : AiOperation)
      → Repriced op
      → (fee tip vgl cgl : ℕ)
      → reload codec node (priced op fee tip vgl cgl) ≡ ok (priced op fee tip vgl cgl)
  reload-priced op reads fee tip vgl cgl =
      rw (reload, Restorable-new codec (priced op fee tip vgl cgl) (reads fee tip vgl cgl)) refl

  probed :
      {B : Type 0} (i : EstimateInput S) (copied : S) (vgl g : ℕ)
      → Repriced i.op
      → (g ≡ 0) ⊎ ((cgl_probe codec node i.op (overridden i.op copied) vgl g ≡ ok (ok tt)) × B)
      → (g == 0) ≡ false
      → (gas : ℕ) × (node.trace
            (priced i.op i.op.max_fee_per_gas i.op.max_fee_per_gas vgl g)
            (overridden i.op copied)
            none
          ≡ ok gas)
  probed i copied vgl g reads (inl z) n = absurd (ground arith)
  probed i copied vgl g reads (inr (p, _)) n =
      let final = priced i.op i.op.max_fee_per_gas i.op.max_fee_per_gas vgl g in
      let run = node.trace final (overridden i.op copied) none in
      let opened : cgl_probe codec node i.op (overridden i.op copied) vgl g
          ≡ ok (traced codec node run) =
        rw (cgl_probe, reload-priced i.op reads i.op.max_fee_per_gas i.op.max_fee_per_gas vgl g)
          refl in
      traced-ok run (inner (traced codec node run) (sym opened ∙ p))
    where
      inner : (r : Result E (Unit {0})) → ◌≡◌ {A = Probe E} (ok r) (ok (ok tt)) → r ≡ ok tt
      inner r h = cc

  confirm-IsSound :
      (i : EstimateInput S) (copied : S) (retry : E → ℕ → Outcome E) (vgl cgl : ℕ)
      → i.max_gas_limit < 9223372036854775808
      → Repriced i.op
      → node.copy i.sos ≡ ok copied
      → ((e : E) (v : ℕ) → IsSound i.op i.sos (retry e v))
      → IsSound i.op i.sos (confirm codec node i (overridden i.op copied) retry vgl cgl)
  unfolding confirm
  confirm-IsSound i copied retry vgl cgl h reads hc again =
      let final = priced i.op i.op.max_fee_per_gas i.op.max_fee_per_gas vgl cgl in
      rw (confirm, reload-priced i.op reads i.op.max_fee_per_gas i.op.max_fee_per_gas vgl cgl)
        (elim (Result-cases (node.trace final (overridden i.op copied) none)) [
          | inl (gas, t) ↦ rw t (confirmed i.op i.sos vgl cgl (copied, hc, (gas, t)))
          | inr (e, t) ↦
              elim (Bool-cases (is_execution_oog node e || is_execution_reverted node e)) [
                | inr b ↦ rw (t, b) (again e vgl)
                | inl b ↦
                    let (res, found, sound) =
                      search_lem (refused_limit codec node)
                        (cgl_probe codec node i.op (overridden i.op copied) vgl)
                        (execution_way node) cgl i.max_gas_limit 0 (some e) h in
                    rw (t, b)
                      (searched-IsSound i.op i.sos _ res _ found (λ (g, x) q.
                        elim (Bool-cases (g == 0)) [
                          | inl z ↦ rw z (no_estimate-IsSound i.op i.sos x)
                          | inr z ↦ rw z (
                              confirmed i.op i.sos vgl g
                                (copied, hc, probed i copied vgl g reads (sound g x q) z))
                        ]))
              ]
        ])

  derive-IsSound :
      (i : EstimateInput S) (copied : S) (retry : E → ℕ → Outcome E) (f : ℕ)
      → i.max_gas_limit < 9223372036854775808
      → Repriced i.op
      → node.copy i.sos ≡ ok copied
      → ((e : E) (v : ℕ) → IsSound i.op i.sos (retry e v))
      → IsSound i.op i.sos (derive codec node i (overridden i.op copied) retry f)
  unfolding derive
  derive-IsSound i copied retry f h reads hc again =
      let free = priced i.op 0 0 f i.max_gas_limit in
      rw (derive, reload-priced i.op reads 0 0 f i.max_gas_limit)
        (elim (Result-cases (node.trace free i.sos (some i.op.max_fee_per_gas))) [
          | inr (e, t) ↦ rw t (again e f)
          | inl (gas, t) ↦ rw t (confirm-IsSound i copied retry f _ h reads hc again)
        ])

  first_search-total :
      (i : EstimateInput S) (sos_cpy : S)
      → i.max_gas_limit < 9223372036854775808
      → (res : Result E (ℕ × Option E)) × (first_search codec node i sos_cpy ≡ some res)
  unfolding first_search
  first_search-total i sos_cpy h = elim (Bool-cases (i.last_vgl == 0)) [
    | inr z ↦ rw (first_search, z) (ok (i.last_vgl, none), refl)
    | inl z ↦
        let (res, found, _) =
          search_lem (refused_limit codec node) (vgl_probe codec node i.op sos_cpy)
            (validation_way node) 0 i.max_gas_limit 0 none h in
        rw (first_search, z) (res, found)
  ]

  attempt-IsSound :
      (i : EstimateInput S) (retry : E → ℕ → Outcome E)
      → i.max_gas_limit < 9223372036854775808
      → Repriced i.op
      → ((e : E) (v : ℕ) → IsSound i.op i.sos (retry e v))
      → IsSound i.op i.sos (attempt codec node i retry)
  unfolding attempt
  attempt-IsSound i retry h reads again =
      searched-IsSound i.op i.sos _ (node.copy i.sos) _ refl (λ copied hc.
        let (res, found) = first_search-total i (overridden i.op copied) h in
        searched-IsSound i.op i.sos _ res _ found (λ (f, e) q. elim (Bool-cases (f == 0)) [
          | inl z ↦ rw z (no_estimate-IsSound i.op i.sos e)
          | inr z ↦ elim (Option-cases (int64_div (f * (100 + base_vgl_buffer)) 100)) [
            | inl d ↦ rw (z, d) (failed i.op i.sos (refused_limit codec node))
            | inr (vgl, d) ↦ rw (z, d) (derive-IsSound i copied retry vgl h reads hc again)
          ]
        ]))

  estimate_gas-IsSound :
      (n : ℕ) (i : EstimateInput S)
      → i.max_gas_limit < 9223372036854775808
      → Repriced i.op
      → 7 ≤ n + i.attempts
      → IsSound i.op i.sos (estimate_gas codec node (suc n) i)
  unfolding estimate_gas retry_estimate_gas
  estimate_gas-IsSound zero i h reads enough =
      attempt-IsSound i (retry_estimate_gas codec node (estimate_gas codec node zero) i) h reads
        (λ e v.
          let spent : (is_validation_oog node e && ltb i.attempts max_retries) ≡ false =
            ground arith in
          rw (retry_estimate_gas, spent) (failed i.op i.sos e))
  estimate_gas-IsSound (suc n) i h reads enough =
      attempt-IsSound i (retry_estimate_gas codec node (estimate_gas codec node (suc n)) i) h reads
        (λ e v. elim (Bool-cases (is_validation_oog node e && ltb i.attempts max_retries)) [
          | inr no_retry ↦ rw (retry_estimate_gas, no_retry) (failed i.op i.sos e)
          | inl retries ↦
              rw (retry_estimate_gas, retries)
                (estimate_gas-IsSound n (record i { attempts = suc i.attempts; last_vgl = v }) h
                  reads (omega arith))
        ])

  -- For an operation that reads back from its map whatever its fees and limits are set to, EstimateGas
  -- returns on every limit of int64 within eight rounds less the attempts made.
  pub estimate_gas-total :
      (n : ℕ) (i : EstimateInput S)
      → i.max_gas_limit < 9223372036854775808
      → Repriced i.op
      → 7 ≤ n + i.attempts
      → (res : Result E (ℕ × ℕ)) × (estimate_gas codec node (suc n) i ≡ some res)
  estimate_gas-total n i h reads enough =
      let (res, found, _) = estimate_gas-IsSound n i h reads enough in (res, found)

  -- For an operation that reads back from its map whatever its fees and limits are set to, and every
  -- limit of int64, an estimate that EstimateGas returns without an error is (0, 0), or the operation
  -- has passed a traced simulation with these limits, at its actual fee and with the balance
  -- overridden where there is no paymaster.
  pub estimate_gas-IsConfirmed :
      (n : ℕ) (i : EstimateInput S) (vgl cgl : ℕ)
      → i.max_gas_limit < 9223372036854775808
      → Repriced i.op
      → 7 ≤ n + i.attempts
      → estimate_gas codec node (suc n) i ≡ some (ok (vgl, cgl))
      → ((vgl ≡ 0) × (cgl ≡ 0)) ⊎ IsConfirmed i.op i.sos vgl cgl
  estimate_gas-IsConfirmed n i vgl cgl h reads enough q =
      let (res, found, sound) = estimate_gas-IsSound n i h reads enough in
      let same : res ≡ ok (vgl, cgl) = some-eq (sym found ∙ q) in sound vgl cgl same
