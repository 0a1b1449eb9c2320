-- ===== src/Gas/Estimate.antt =====
-- EstimateGas (pkg/gas/estimate.go). The simulations of the node, the copy of state overrides and the
-- text of errors are parameters. The gas limits are those of int64 that are not negative, and the
-- arithmetic on them wraps as in the source.
pub mod Search
pub mod Sound
use aiops_bundler.Base.{
  ℕ, zero, suc, ◌+◌, ◌-◌, ◌*◌, ◌/◌, ◌%◌, String, Bool, true, false, ◌&&◌, ◌||◌, List, [], ◌∷◌,
  Option, none, some,
}
use aiops_bundler.Base.Tests.{ltb, leb, ◌==◌, if◌then◌else◌}
use aiops_bundler.Base.Result.{Result, ok, err}
use aiops_bundler.Aiop.{Address, AiOperation, zero_address, get_paymaster}
use aiops_bundler.Aiop.Parse.{Codec, ParseError, invalid, new, to_map}

abbrev pub fall_back_binary_search_cutoff : ℕ
fall_back_binary_search_cutoff = 30000

abbrev pub max_retries : ℕ
max_retries = 7

abbrev pub base_vgl_buffer : ℕ
base_vgl_buffer = 25

-- Which way an error sends a binary search.
pub data Way : Type 0 where
  lower higher stop : Way

-- The calls that the function makes. `bad_operation` is an error of aiop.New. `trace` returns the execution gas limit of the trace.
pub record Node {ℓ κ} (E : Type ℓ) (S : Type κ) : Type (ℓ ⊔ κ) where
  pub contains : E → String → Bool
  pub bad_operation : ParseError → E
  pub copy : S → Result E S
  pub with_max_balance : Address → S → S
  pub simulate : AiOperation → S → Result E (Unit {0})
  pub trace : AiOperation → S → Option ℕ → Result E ℕ

pub record EstimateInput {κ} (S : Type κ) : Type κ where
  pub op : AiOperation
  pub sos : S
  pub non_zero_value_call : ℕ
  pub max_gas_limit : ℕ
  pub attempts : ℕ
  pub last_vgl : ℕ

module _ {ℓ κ} {E : Type ℓ} {S : Type κ} where
  abbrev pub contains_any : Node E S → E → List String → Bool
  contains_any node e [] = false
  contains_any node e (s ∷ ss) = node.contains e s || contains_any node e ss

  abbrev pub is_prefund_not_paid : Node E S → E → Bool
  is_prefund_not_paid node e =
      contains_any node e ("AA21 didn't pay prefund" ∷ "AA31 paymaster deposit too low" ∷ [])

  abbrev pub is_validation_oog : Node E S → E → Bool
  is_validation_oog node e = contains_any node e (
      "AA40 over verificationGasLimit" ∷ "AA41 too little verificationGas"
      ∷ "AA51 prefund below actualGasCost" ∷ "AA13 initCode failed or OOG" ∷ "AA23 reverted"
      ∷ "AA33 reverted" ∷ "return data out of bounds" ∷ "validation OOG" ∷ [])

  abbrev pub is_execution_oog : Node E S → E → Bool
  is_execution_oog node e = contains_any node e ("execution OOG" ∷ [])

  abbrev pub is_execution_reverted : Node E S → E → Bool
  is_execution_reverted node e = contains_any node e ("execution reverted" ∷ [])

  abbrev pub validation_way : Node E S → E → Way
  validation_way node e =
      if is_prefund_not_paid node e
      then lower
      else if is_validation_oog node e
      then higher
      else stop

  abbrev pub execution_way : Node E S → E → Way
  execution_way node e =
      if is_prefund_not_paid node e
      then lower
      else if is_execution_oog node e || is_execution_reverted node e
      then higher
      else stop

-- The quotient of the int64 that wraps from `a`, by a positive divisor and towards 0; `none` if it is
-- negative.
abbrev pub int64_div : ℕ → ℕ → Option ℕ
int64_div a d =
    let w = a % 18446744073709551616 in
    if ltb w 9223372036854775808
    then some (w / d)
    else if ltb (18446744073709551616 - w) d
    then some 0
    else none

-- A probe that could not be built, or the outcome of its simulation.
abbrev pub Probe {ℓ} : Type ℓ → Type ℓ
Probe E = Result E (Result E (Unit {0}))

module _ {ℓ} {E : Type ℓ} where
  -- The two loops, which differ in their probe and in how they read an error: from `l` and `r`, with
  -- the last success `f` (or 0) and the last probe's error. `refused` is the error of aiop.New for a
  -- negative limit. `none` is out of fuel.
  unfoldable pub search :
      E → (ℕ → Probe E) → (E → Way) → ℕ → ℕ → ℕ → ℕ → Option E → Option (Result E (ℕ × Option E))
  search refused probe way zero l r f sim_err = none
  search refused probe way (suc n) l r f sim_err =
      elim (leb fall_back_binary_search_cutoff (r - l)) [
        | false ↦ some (ok (f, sim_err))
        | true ↦ elim (int64_div (l + r) 2) [
          | none ↦ some (err refused)
          | some m ↦ elim (probe m) [
            | err e ↦ some (err e)
            | ok (ok u) ↦ search refused probe way n l (m - 1) m none
            | ok (err e) ↦ elim (way e) [
              | lower ↦ search refused probe way n l (m - 1) f (some e)
              | higher ↦ search refused probe way n (m + 1) r f (some e)
              | stop ↦ some (err e)
            ]
          ]
        ]
      ]

-- Enough for the halvings of a range of int64.
abbrev pub search_fuel : ℕ
search_fuel = 64

abbrev pub Outcome {ℓ} : Type ℓ → Type ℓ
Outcome E = Option (Result E (ℕ × ℕ))

-- `return 0, 0, simErr`.
abbrev pub no_estimate {ℓ} : {E : Type ℓ} → Option E → Outcome E
no_estimate none = some (ok (0, 0))
no_estimate (some e) = some (err e)

-- The steps of the function, each on what the ones before it returned.
abbrev pub searched {ℓ κ} :
    {E : Type ℓ} {A : Type κ} → Option (Result E A) → (A → Outcome E) → Outcome E
searched none k = none
searched (some (err e)) k = some (err e)
searched (some (ok a)) k = k a

-- The entries of the map that the function sets.
abbrev pub priced : AiOperation → ℕ → ℕ → ℕ → ℕ → AiOperation
priced op fee tip vgl cgl = record op {
  max_fee_per_gas = fee;
  max_priority_fee_per_gas = tip;
  verification_gas_limit = vgl;
  call_gas_limit = cgl;
}

module _ {ℓ κ} {E : Type ℓ} {S : Type κ} (codec : Codec) (node : Node E S) where
  -- What aiop.New makes of the operation's map after its fees and limits have been set.
  abbrev pub reload : AiOperation → Result E AiOperation
  reload op = elim (new codec (to_map codec op)) [
    | ok sim_op ↦ ok sim_op
    | err e ↦ err (node.bad_operation e)
  ]

  -- A limit below 0 fails the validation of aiop.New.
  abbrev pub refused_limit : E
  refused_limit = node.bad_operation invalid

  abbrev pub vgl_probe : AiOperation → S → ℕ → Probe E
  vgl_probe op sos m = elim (reload (priced op op.max_fee_per_gas op.max_fee_per_gas m 0)) [
    | err e ↦ err e
    | ok sim_op ↦ ok (node.simulate sim_op sos)
  ]

  abbrev pub traced : Result E ℕ → Result E (Unit {0})
  traced (ok gas) = ok tt
  traced (err e) = err e

  abbrev pub cgl_probe : AiOperation → S → ℕ → ℕ → Probe E
  cgl_probe op sos vgl m = elim (reload (priced op op.max_fee_per_gas op.max_fee_per_gas vgl m)) [
    | err e ↦ err e
    | ok sim_op ↦ ok (traced (node.trace sim_op sos none))
  ]

  -- The final simulation, with the fallback to a binary search of the callGasLimit. `retry` is
  -- retryEstimateGas.
  unfoldable pub confirm : EstimateInput S → S → (E → ℕ → Outcome E) → ℕ → ℕ → Outcome E
  unfolding search
  confirm i sos_cpy retry vgl cgl =
      searched (some (reload (priced i.op i.op.max_fee_per_gas i.op.max_fee_per_gas vgl cgl)))
        (λ sim_op. elim (node.trace sim_op sos_cpy none) [
          | ok gas ↦ some (ok (sim_op.verification_gas_limit, sim_op.call_gas_limit))
          | err e ↦
              if is_execution_oog node e || is_execution_reverted node e
              then searched
                  (search refused_limit (cgl_probe i.op sos_cpy vgl) (execution_way node)
                    search_fuel cgl i.max_gas_limit 0 (some e))
                  (λ (f, sim_err).
                    if f == 0
                    then no_estimate sim_err
                    else some (ok (sim_op.verification_gas_limit, f)))
              else retry e sim_op.verification_gas_limit
        ])

  -- The derivation of the callGasLimit from a trace at price 0.
  unfoldable pub derive : EstimateInput S → S → (E → ℕ → Outcome E) → ℕ → Outcome E
  unfolding confirm
  derive i sos_cpy retry f = searched (some (reload (priced i.op 0 0 f i.max_gas_limit))) (λ sim_op.
      elim (node.trace sim_op i.sos (some i.op.max_fee_per_gas)) [
        | err e ↦ retry e f
        | ok execution_gas_limit ↦
            let cgl =
              if ltb execution_gas_limit i.non_zero_value_call
              then i.non_zero_value_call
              else execution_gas_limit in
            confirm i sos_cpy retry sim_op.verification_gas_limit cgl
      ])

  -- The loop for the verificationGasLimit runs only on a first attempt.
  unfoldable pub first_search : EstimateInput S → S → Option (Result E (ℕ × Option E))
  unfolding search
  first_search i sos_cpy =
      if i.last_vgl == 0
      then search refused_limit (vgl_probe i.op sos_cpy) (validation_way node) search_fuel 0
          i.max_gas_limit 0 none
      else some (ok (i.last_vgl, none))

  unfoldable pub attempt : EstimateInput S → (E → ℕ → Outcome E) → Outcome E
  unfolding derive first_search
  attempt i retry = searched (some (node.copy i.sos)) (λ copied.
      let sos_cpy =
        if get_paymaster i.op == zero_address
        then node.with_max_balance i.op.sender copied
        else copied in
      searched (first_search i sos_cpy) (λ (f, sim_err).
        if f == 0 then no_estimate sim_err else elim (int64_div (f * (100 + base_vgl_buffer)) 100) [
          | some vgl ↦ derive i sos_cpy retry vgl
          | none ↦ some (err refused_limit)
        ]))

  unfoldable pub retry_estimate_gas :
      (EstimateInput S → Outcome E) → EstimateInput S → E → ℕ → Outcome E
  retry_estimate_gas again i e vgl =
      if is_validation_oog node e && ltb i.attempts max_retries
      then again (record i { attempts = suc i.attempts; last_vgl = vgl })
      else some (err e)

  -- EstimateGas, with fuel for the retries.
  unfoldable pub estimate_gas : ℕ → EstimateInput S → Outcome E
  unfolding attempt retry_estimate_gas
  estimate_gas zero i = none
  estimate_gas (suc n) i = attempt i (retry_estimate_gas (estimate_gas n) i)
