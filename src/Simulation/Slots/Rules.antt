-- ===== src/Simulation/Slots/Rules.antt =====
-- The storage rules that the validator enforces, stated for each access.
use mathlib.Core.List.{append_assoc, append-nil}
use aiops_bundler.Base.{
  String, Bool, true, false, not, ◌&&◌, ◌||◌, List, [], ◌∷◌, ◌++◌, Option, none, some, ◌≡◌, refl,
  ap, ◌∙◌, ◌⊎◌, inl, inr, arith,
}
use aiops_bundler.Base.Tests.{◌==◌, if◌then◌else◌, Bool-cases, if-false}
use aiops_bundler.Base.Lists.{length}
use aiops_bundler.Base.Result.{Result, ok, err, ◌>>=◌}
use aiops_bundler.Aiop.{Address}
use aiops_bundler.Simulation.{Slot, addr2_known_entity}
use aiops_bundler.Simulation.Slots.{
  Mode, Violation, forbidden, StorageSlotsValidator, is_read, has_init_code, Found,
  is_associated_with, owner_must_stake, am_ids, check_slot, check_slots, stake_checked,
}

module _ (v : StorageSlotsValidator) where
  -- A slot of the sender is free, but where the operation also deploys the sender: then it takes a
  -- staked factory and the sender itself, or a staked entity.
  abbrev pub sender_rule : Bool
  sender_rule =
      v.entity_is_staked
      || not (has_init_code v.op)
      || (v.factory_is_staked && (v.entity_addr == v.op.sender))

  -- Any other slot takes an alternative mempool that excepts it, or a staked entity that reads it or
  -- owns it.
  abbrev pub other_rule : Address → Mode → Slot → Bool
  other_rule addr mode slot =
      not (length (am_ids v addr slot) == 0)
      || (v.entity_is_staked && (is_read mode || is_associated_with v.entity_slots slot))

  abbrev pub permitted : Address → Mode × Slot → Bool
  permitted addr (mode, slot) =
      if is_associated_with v.sender_slots slot then sender_rule else other_rule addr mode slot

  -- The ids of the alternative mempools that except an access.
  abbrev pub excepting : Address → List (Mode × Slot) → List String
  excepting addr [] = []
  excepting addr ((mode, slot) ∷ rest) =
      (if is_associated_with v.sender_slots slot then [] else am_ids v addr slot)
      ++ excepting addr rest

  abbrev pub needed : Option Slot → Bool
  needed none = true
  needed (some slot) = v.entity_is_staked

  abbrev pub all_permitted : Address → List (Mode × Slot) → Bool
  all_permitted addr [] = true
  all_permitted addr (access ∷ rest) = permitted addr access && all_permitted addr rest

  abbrev pub Fails {ℓ} : {A : Type ℓ} → Result Violation A → Type ℓ
  Fails r = (e : Violation) × (r ≡ err e)

  abbrev pub verdict : Address → List (Mode × Slot) → Found → Result Violation (List String)
  verdict addr accesses found = check_slots v addr accesses found >>= stake_checked v addr

  no_ids : (ids : List String) → (length ids == 0) ≡ true → ids ≡ []
  no_ids [] h = refl
  no_ids (id ∷ ids) h = ground arith

  abbrev here_ids : Address → Slot → List String
  here_ids addr slot = if is_associated_with v.sender_slots slot then [] else am_ids v addr slot

  check_slot-passes :
      (addr : Address) (mode : Mode) (slot : Slot) (ids : List String) (must : Option Slot)
      → permitted addr (mode, slot) ≡ true
      → needed must ≡ true
      → (must' : Option Slot) × (check_slot v addr mode slot (ids, must)
          ≡ ok (ids ++ here_ids addr slot, must'))
        × (needed must' ≡ true)
  unfolding check_slot
  check_slot-passes addr mode slot ids must p n =
      elim (Bool-cases (is_associated_with v.sender_slots slot)) [
        | inl a ↦ elim (Bool-cases (owner_must_stake v)) [
          | inl m ↦ (some slot, rw (a, m, append-nil ids) refl, ground arith)
          | inr m ↦ (must, rw (a, m, append-nil ids) refl, n)
        ]
        | inr a ↦ elim (Bool-cases (length (am_ids v addr slot) == 0)) [
          | inl l ↦
              let nothing : am_ids v addr slot ≡ [] = no_ids (am_ids v addr slot) l in
              let own : (is_associated_with v.entity_slots slot || is_read mode) ≡ true =
                ground arith in
              (some slot, rw (a, nothing, own, append-nil ids) refl, ground arith)
          | inr l ↦ (must, rw (a, l) (ground arith), n)
        ]
      ]

  needed_staked : (must : Option Slot) → v.entity_is_staked ≡ true → needed must ≡ true
  needed_staked none h = refl
  needed_staked (some slot) h = h

  check_slot-Fails :
      (addr : Address) (mode : Mode) (slot : Slot) (ids : List String) (must : Option Slot)
      → (permitted addr (mode, slot) && needed must) ≡ false
      → Fails (check_slot v addr mode slot (ids, must))
        ⊎ ((ids' : List String) × (must' : Option Slot) × (check_slot v addr mode slot (ids, must)
              ≡ ok (ids', must'))
            × (needed must' ≡ false))
  unfolding check_slot
  check_slot-Fails addr mode slot ids must p =
      elim (Bool-cases (is_associated_with v.sender_slots slot)) [
        | inl a ↦ elim (Bool-cases (owner_must_stake v)) [
          | inl m ↦ inr (ids, some slot, rw (a, m) refl, ground (arith, needed_staked must))
          | inr m ↦ inr (ids, must, rw (a, m) refl, ground arith)
        ]
        | inr a ↦ elim (Bool-cases (length (am_ids v addr slot) == 0)) [
          | inl l ↦ elim (Bool-cases (is_associated_with v.entity_slots slot || is_read mode)) [
            | inl own ↦
                let nothing : am_ids v addr slot ≡ [] = no_ids (am_ids v addr slot) l in
                inr (ids, some slot, rw (a, nothing, own) refl, ground (arith, needed_staked must))
            | inr other ↦
                let nothing : am_ids v addr slot ≡ [] = no_ids (am_ids v addr slot) l in
                inl (
                  forbidden v.entity_name mode (addr2_known_entity v.op addr) slot,
                  rw (a, nothing, other) refl,
                )
          ]
          | inr l ↦ inr (ids ++ am_ids v addr slot, must, rw (a, l) (ground arith), ground arith)
        ]
      ]

  pub verdict-passes :
      (addr : Address) (accesses : List (Mode × Slot)) (ids : List String) (must : Option Slot)
      → all_permitted addr accesses ≡ true
      → needed must ≡ true
      → verdict addr accesses (ids, must) ≡ ok (ids ++ excepting addr accesses)
  unfolding check_slots
  verdict-passes addr [] ids none p n = rw (append-nil ids) refl
  verdict-passes addr [] ids (some s) p n = rw (append-nil ids) (ground arith)
  verdict-passes addr ((mode, slot) ∷ rest) ids must p n =
      let (must', e, n') = check_slot-passes addr mode slot ids must (ground arith) n in
      rw e (
        verdict-passes addr rest (ids ++ here_ids addr slot) must' (ground arith) n'
        ∙ ap ok (append_assoc ids (here_ids addr slot) (excepting addr rest)))

  pub verdict-Fails :
      (addr : Address) (accesses : List (Mode × Slot)) (ids : List String) (must : Option Slot)
      → (all_permitted addr accesses && needed must) ≡ false
      → Fails (verdict addr accesses (ids, must))
  unfolding check_slots
  verdict-Fails addr [] ids none p = absurd (ground arith)
  verdict-Fails addr [] ids (some s) p = (_, if-false v.entity_is_staked _ _ p)
  verdict-Fails addr ((mode, slot) ∷ rest) ids must p =
      elim (Bool-cases (permitted addr (mode, slot) && needed must)) [
        | inl here ↦
            let (must', e, n') =
              check_slot-passes addr mode slot ids must (ground arith) (ground arith) in
            rw e (verdict-Fails addr rest (ids ++ here_ids addr slot) must' (ground arith))
        | inr here ↦ elim (check_slot-Fails addr mode slot ids must here) [
          | inl (failure, e) ↦ (failure, rw e refl)
          | inr (ids', must', e, n') ↦ rw e (verdict-Fails addr rest ids' must' (ground arith))
        ]
      ]
