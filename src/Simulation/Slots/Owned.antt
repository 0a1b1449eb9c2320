-- ===== src/Simulation/Slots/Owned.antt =====
-- The slots that the hashed texts of a trace give to each entity.
use aiops_bundler.Base.{
  Bool, false, ◌&&◌, ◌||◌, not, List, [], ◌∷◌, ◌≡◌, refl, ◌∙◌, ap, inl, inr, arith,
}
use aiops_bundler.Base.Tests.{◌==◌, if◌then◌else◌, Bool-cases}
use aiops_bundler.Base.Dict.{Dict, lookup, insert, lookup-insert}
use aiops_bundler.Aiop.{Address, Bytes, zero_address}
use aiops_bundler.Simulation.{Slot, EntityStakes}
use aiops_bundler.Simulation.Slots.{
  has_prefix, owned, add_slot, add_slots, new_storage_slots_by_entity,
}

abbrev pub contains : Slot → List Slot → Bool
contains slot [] = false
contains slot (s ∷ slots) = (s == slot) || contains slot slots

-- The address is a key of the map, whatever its deposit, if any, says.
abbrev pub listed : Address → EntityStakes → Bool
listed addr [] = false
listed addr ((a, s) ∷ stakes) = (a == addr) || listed addr stakes

module _ (keccak256 : Bytes → Slot) where
  -- Some hashed text starts with the address and hashes to the slot.
  abbrev pub derived : Address → Slot → List Bytes → Bool
  derived addr slot [] = false
  derived addr slot (k ∷ keccak) =
      (has_prefix k addr && (keccak256 k == slot)) || derived addr slot keccak

  owned-nil : (addr : Address) → owned addr [] ≡ []
  unfolding owned lookup
  owned-nil addr = refl

  owned-insert :
      (a addr : Address) (new : List Slot) (slots : Dict (List Slot))
      → owned addr (insert a new slots) ≡ (if a == addr then new else owned addr slots)
  unfolding owned
  owned-insert a addr new slots = rw (owned, lookup-insert a addr new slots) (ground arith)

  abbrev added : Bytes → Address → Slot → Bool
  added k addr slot = not (addr == zero_address) && has_prefix k addr && (keccak256 k == slot)

  -- One entry of the stakes.
  abbrev put : Bytes → Address → Dict (List Slot) → Dict (List Slot)
  put k a slots =
      if a == zero_address
      then slots
      else insert a (if has_prefix k a then keccak256 k ∷ owned a slots else owned a slots) slots

  put_lem :
      (k : Bytes) (a addr : Address) (slot : Slot) (slots : Dict (List Slot))
      → contains slot (owned addr (put k a slots))
        ≡ (contains slot (owned addr slots) || ((a == addr) && added k addr slot))
  put_lem k a addr slot slots = elim (Bool-cases (a == zero_address)) [
    | inl z ↦ rw z (ground arith)
    | inr z ↦
        let new = if has_prefix k a then keccak256 k ∷ owned a slots else owned a slots in
        elim (Bool-cases (a == addr)) [
          | inl same ↦
              let e : a ≡ addr = ground arith in
              rw (z, e)
                (rw
                  (owned-insert addr addr
                    (if has_prefix k addr then keccak256 k ∷ owned addr slots else owned addr slots)
                    slots)
                  (ground arith))
          | inr other ↦ rw (z, owned-insert a addr new slots, other) (ground arith)
        ]
  ]

  add_slot_lem :
      (k : Bytes) (addr : Address) (slot : Slot) (stakes : EntityStakes) (slots : Dict (List Slot))
      → contains slot (owned addr (add_slot keccak256 k stakes slots))
        ≡ (contains slot (owned addr slots) || (listed addr stakes && added k addr slot))
  unfolding add_slot
  add_slot_lem k addr slot [] slots = ground arith
  add_slot_lem k addr slot ((a, stake) ∷ stakes) slots =
      ground (arith, add_slot_lem k addr slot stakes (put k a slots), put_lem k a addr slot slots)

  add_slots_lem :
      (addr : Address) (slot : Slot) (stakes : EntityStakes) (keccak : List Bytes)
      (slots : Dict (List Slot))
      → contains slot (owned addr (add_slots keccak256 stakes keccak slots)) ≡ (
          contains slot (owned addr slots)
          || (listed addr stakes && not (addr == zero_address) && derived addr slot keccak))
  unfolding add_slots
  add_slots_lem addr slot stakes [] slots = ground arith
  add_slots_lem addr slot stakes (k ∷ keccak) slots = ground (
    arith,
    add_slots_lem addr slot stakes keccak (add_slot keccak256 k stakes slots),
    add_slot_lem k addr slot stakes slots,
  )

  -- A slot belongs to an entity exactly if the entity is a key of the map of stakes, whatever its
  -- deposit there, and not the zero address, and some text that the trace hashed starts with its
  -- padded address and hashes to the slot.
  pub new_storage_slots_by_entity_lem :
      (stakes : EntityStakes) (keccak : List Bytes) (addr : Address) (slot : Slot)
      → contains slot (owned addr (new_storage_slots_by_entity keccak256 stakes keccak))
        ≡ (listed addr stakes && not (addr == zero_address) && derived addr slot keccak)
  unfolding new_storage_slots_by_entity
  new_storage_slots_by_entity_lem stakes keccak addr slot =
      add_slots_lem addr slot stakes keccak []
      ∙ ap
          (λ s.
            contains slot s
            || (listed addr stakes && not (addr == zero_address) && derived addr slot keccak))
          (owned-nil addr)
