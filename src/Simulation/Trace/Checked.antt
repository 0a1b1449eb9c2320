-- ===== src/Simulation/Trace/Checked.antt =====
-- What TraceSimulateValidation lets through: the rules on opcodes, on storage and on calls.
use aiops_bundler.Base.{
  ℕ, String, Bool, true, false, List, [], ◌∷◌, ◌++◌, Option, ◌≡◌, ◌≢◌, refl, sym, ap, ◌↔◌, ◌⊎◌, inl,
  inr, arith,
}
use mathlib.Core.List.{append_assoc, append-nil}
use aiops_bundler.Base.Tests.{ltb, ◌==◌, Bool-cases}
use aiops_bundler.Base.Lists.{All}
use aiops_bundler.Base.Dict.{Dict}
use aiops_bundler.Base.Result.{Result, ok, err, Decides, Decides-iff, Decides-iff_map, Decides-then}
use aiops_bundler.Aiop.{Bytes}
use aiops_bundler.Simulation.{
  Slot, Title, KnownEntity, entity_of, new_known_entity, addr2_known_entity,
}
use aiops_bundler.Simulation.Slots.{
  Violation, StorageSlotsValidator, new_storage_slots_by_entity, process,
}
use aiops_bundler.Simulation.Slots.Allowed.{
  CodeAllowed, AccessAllowed, exception_ids, process-Decides,
}
use aiops_bundler.Simulation.Calls.{CallEntry, new_call_stack}
use aiops_bundler.Simulation.Trace.{
  Selectors, BundlerCollectorReturn, TraceInput, TraceOutput, storage, touched, validator_of,
  storing, check_entities, check_create2, check_storage, check_context, check_call, check_calls,
  validate_trace, unexpected_result, unstaked_context, balance_of_call, value_transfer,
}
use aiops_bundler.Simulation.Trace.Entities.{
  Covers, All-Covers, EntityAllowed, Create2Allowed, check_entities-Decides, check_create2-Decides,
}

-- The storage rules for an entity.
abbrev pub StorageAllowed : StorageSlotsValidator → Type 0
StorageAllowed v =
    All (CodeAllowed v) v.entity_contract_size_map × All (AccessAllowed v) v.entity_access_map

abbrev pub all_exception_ids :
    TraceInput → KnownEntity → Dict (List Slot) → List Title → List String
all_exception_ids i known slots [] = []
all_exception_ids i known slots (title ∷ titles) =
    exception_ids (validator_of i known slots title) (entity_of known title).info.access
    ++ all_exception_ids i known slots titles

module _ {ℓ} {E : Type ℓ} where
  abbrev pub ContextAllowed : Bool → Result E Bytes → Type ℓ
  ContextAllowed staked r =
      (context : Bytes) × (r ≡ ok context) × ((context ≡ []) ⊎ (staked ≡ true))

  check_context-Decides :
      (staked : Bool) (r : Result E Bytes)
      → Decides (ContextAllowed staked r) (check_context {E = E} staked r) tt
  check_context-Decides staked (err e) =
      inr (λ h. let read = h.1 in cc, (unexpected_result e, refl))
  check_context-Decides true (ok context) = inl ((context, refl, inr refl), ground arith)
  check_context-Decides false (ok []) = inl (([], refl, inl refl), refl)
  check_context-Decides false (ok (b ∷ bs)) =
      inr (λ h. let read = h.1 in let empty = h.2 in ground arith, (unstaked_context, ground arith))

  storing-Decides {κ μ} :
      {A : Type κ} {P : Type μ} (r : Result Violation A) (value : A)
      → Decides P r value
      → Decides P (storing {E = E} r) value
  storing-Decides r value (inl (p, e)) = inl (p, ap storing e)
  storing-Decides r value (inr (p, (v, e))) = inr (p, (storage v, ap storing e))

module _ {ℓ κ} {E : Type ℓ} {D : Type κ} (selectors : Selectors) (decode : D → Result E Bytes) where
  -- A validatePaymasterAiOp returns a context that can be read, and that is empty unless the
  -- paymaster is staked. Any other call goes to the AiMiddleware, and not to its balanceOf, or sends
  -- no value.
  abbrev pub CallAllowed : TraceInput → KnownEntity → CallEntry D → Type ℓ
  CallAllowed i known c =
      ((c.method ≡ selectors.validate_paymaster_ai_op)
        × ContextAllowed known.paymaster_entity.is_staked (decode c.returned))
      ⊎ ((c.method ≢ selectors.validate_paymaster_ai_op)
          × (((c.to ≡ i.ai_middleware) × (c.method ≢ selectors.balance_of))
              ⊎ ((c.to ≢ i.ai_middleware) × (c.value ≡ 0))))

  only_context :
      (i : TraceInput) (known : KnownEntity) (c : CallEntry D)
      → (c.method == selectors.validate_paymaster_ai_op) ≡ true
      → CallAllowed i known c
      → ContextAllowed known.paymaster_entity.is_staked (decode c.returned)
  only_context i known c m (inl h) = h.1
  only_context i known c m (inr h) = absurd (h.0 (ground arith))

  called :
      (i : TraceInput) (known : KnownEntity) (c : CallEntry D)
      → (c.method == selectors.validate_paymaster_ai_op) ≡ false
      → (c.to == i.ai_middleware) ≡ true
      → (c.method == selectors.balance_of) ≡ true
      → ¬ CallAllowed i known c
  called i known c m t b (inl h) = let e = h.0 in ground arith
  called i known c m t b (inr (n, inl h)) = h.1 (ground arith)
  called i known c m t b (inr (n, inr h)) = h.0 (ground arith)

  paid :
      (i : TraceInput) (known : KnownEntity) (c : CallEntry D)
      → (c.method == selectors.validate_paymaster_ai_op) ≡ false
      → (c.to == i.ai_middleware) ≡ false
      → ltb 0 c.value ≡ true
      → ¬ CallAllowed i known c
  paid i known c m t b (inl h) = let e = h.0 in ground arith
  paid i known c m t b (inr (n, inl h)) = let e = h.0 in ground arith
  paid i known c m t b (inr (n, inr h)) = let e = h.1 in ground arith

  check_call-Decides :
      (i : TraceInput) (known : KnownEntity) (c : CallEntry D)
      → Decides (CallAllowed i known c) (check_call {E = E} selectors decode i known c) tt
  unfolding check_call
  check_call-Decides i known c =
      elim (Bool-cases (c.method == selectors.validate_paymaster_ai_op)) [
        | inl m ↦ rw m (
            Decides-iff_map (check_context known.paymaster_entity.is_staked (decode c.returned)) tt
              (λ h. inl (ground arith, h), λ h. only_context i known c m h)
              (check_context-Decides known.paymaster_entity.is_staked (decode c.returned)))
        | inr m ↦ elim (Bool-cases (c.to == i.ai_middleware)) [
          | inl t ↦ elim (Bool-cases (c.method == selectors.balance_of)) [
            | inl b ↦ inr (
              λ h. called i known c m t b h,
              (balance_of_call (addr2_known_entity i.op c.from), rw (m, t, b) refl),
            )
            | inr b ↦
                inl (
                  inr (ground arith, inl (ground arith, ground arith)),
                  rw (m, t, b) (ground arith),
                )
          ]
          | inr t ↦ elim (Bool-cases (ltb 0 c.value)) [
            | inl b ↦ inr (
              λ h. paid i known c m t b h,
              (
                value_transfer (addr2_known_entity i.op c.from) (addr2_known_entity i.op c.to),
                rw (m, t, b) refl,
              ),
            )
            | inr b ↦
                inl (
                  inr (ground arith, inr (ground arith, ground arith)),
                  rw (m, t, b) (ground arith),
                )
          ]
        ]
      ]

  check_calls-Decides :
      (i : TraceInput) (known : KnownEntity) (calls : List (CallEntry D))
      → Decides
          (All (CallAllowed i known) calls)
          (check_calls {E = E} selectors decode i known calls)
          tt
  unfolding check_calls
  check_calls-Decides i known [] = inl (tt, refl)
  check_calls-Decides i known (c ∷ calls) =
      Decides-then (check_call selectors decode i known c) _ tt tt (check_call-Decides i known c)
        (check_calls-Decides i known calls)

  check_storage-Decides :
      (i : TraceInput) (known : KnownEntity) (slots : Dict (List Slot)) (titles : List Title)
      (ids : List String)
      → Decides
          (All (λ t. StorageAllowed (validator_of i known slots t)) titles)
          (check_storage {E = E} selectors decode i known slots titles ids)
          (ids ++ all_exception_ids i known slots titles)
  unfolding check_storage
  check_storage-Decides i known slots [] ids = inl (tt, rw (append-nil ids) refl)
  check_storage-Decides i known slots (title ∷ titles) ids =
      let v = validator_of i known slots title in
      let here = exception_ids v v.entity_access_map in
      rw (sym (append_assoc ids here (all_exception_ids i known slots titles))) (
        Decides-then (storing (process v)) _ here
          ((ids ++ here) ++ all_exception_ids i known slots titles)
          (storing-Decides (process v) here (process-Decides v))
          (check_storage-Decides i known slots titles (ids ++ here)))

  abbrev pub known_of : TraceInput → BundlerCollectorReturn D → KnownEntity
  known_of i res =
      new_known_entity selectors.create_sender i.op res.calls_from_ai_middleware i.stakes

  abbrev pub slots_of : (Bytes → Slot) → TraceInput → BundlerCollectorReturn D → Dict (List Slot)
  slots_of keccak256 i res = new_storage_slots_by_entity keccak256 i.stakes res.keccak

  abbrev pub TraceAllowed :
      (Bytes → Slot) → (String → Option ℕ) → D → TraceInput → BundlerCollectorReturn D → Type ℓ
  TraceAllowed keccak256 set_string nil i res =
      ((t : Title) → EntityAllowed i.ai_middleware (entity_of (known_of i res) t))
      × Create2Allowed i.op (known_of i res)
      × ((t : Title)
          → StorageAllowed (validator_of i (known_of i res) (slots_of keccak256 i res) t))
      × All (CallAllowed i (known_of i res)) (new_call_stack set_string nil res.calls)

  -- However Go ranges over the known entities, TraceSimulateValidation passes a trace exactly if
  -- every entity keeps to its opcodes, CREATE2 is used by the factory alone and once, every entity
  -- keeps to the storage rules and every finished call is allowed. It returns the contracts that
  -- the entities touched and the alternative mempools whose exceptions were used.
  pub validate_trace_lem :
      (keccak256 : Bytes → Slot) (set_string : String → Option ℕ) (nil : D) (i : TraceInput)
      (res : BundlerCollectorReturn D) (out : TraceOutput)
      → Covers i.first_titles
      → Covers i.second_titles
      → (validate_trace {E = E} selectors decode keccak256 set_string nil i res ≡ ok out) ↔ (
          TraceAllowed keccak256 set_string nil i res
          × (out ≡ record {
            touched_contracts = touched (known_of i res) i.first_titles [];
            alt_mempool_ids =
                all_exception_ids i (known_of i res) (slots_of keccak256 i res) i.second_titles;
          }))
  unfolding validate_trace
  validate_trace_lem keccak256 set_string nil i res out first second =
      let known = known_of i res in
      let slots = slots_of keccak256 i res in
      let calls = new_call_stack set_string nil res.calls in
      let ids = all_exception_ids i known slots i.second_titles in
      let last : TraceOutput = record {
        touched_contracts = touched known i.first_titles [];
        alt_mempool_ids = ids;
      } in
      let entities =
        All-Covers (λ t. EntityAllowed i.ai_middleware (entity_of known t)) i.first_titles first in
      let stored =
        All-Covers (λ t. StorageAllowed (validator_of i known slots t)) i.second_titles second in
      let whole = validate_trace selectors decode keccak256 set_string nil i res in
      Decides-iff whole last out (
        Decides-iff_map whole last
          (
            λ h. (entities.0 h.0, h.1.0, stored.0 h.1.1.0, h.1.1.1.0),
            λ h. (entities.1 h.0, (h.1, (stored.1 h.2, (h.3, tt {0})))),
          )
          (Decides-then (check_entities i.ai_middleware known i.first_titles) _ tt last
            (check_entities-Decides i.ai_middleware known i.first_titles)
            (Decides-then (check_create2 i.op known) _ tt last (check_create2-Decides i.op known) (
              Decides-then (check_storage selectors decode i known slots i.second_titles []) _ ids
                last (check_storage-Decides i known slots i.second_titles [])
                (Decides-then (check_calls selectors decode i known calls) _ tt last
                  (check_calls-Decides i known calls) (inl (tt {0}, refl)))))))
