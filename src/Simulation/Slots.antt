-- ===== src/Simulation/Slots.antt =====
-- pkg/aimiddleware/simulation/storageslots.go: the slots that belong to an entity, and the rules for
-- the storage that an entity may use in the validation phase.
pub mod Owned
pub mod Rules
pub mod Allowed
use aiops_bundler.Base.{
  ℕ, ◌+◌, String, Bool, true, false, not, ◌&&◌, ◌||◌, List, [], ◌∷◌, ◌++◌, Option, none, some, map,
}
use aiops_bundler.Base.Tests.{leb, ◌==◌, if◌then◌else◌}
use aiops_bundler.Base.Lists.{length, take}
use aiops_bundler.Base.Dict.{Dict, lookup, insert}
use aiops_bundler.Base.Result.{Result, ok, err, ◌>>=◌}
use aiops_bundler.Aiop.{Address, Bytes, AiOperation, address_of, zero_address}
use aiops_bundler.Simulation.{
  Slot, AccessInfo, ContractSizeInfo, EntityStakes, Title, Named, addr2_known_entity,
}

-- A hashed text starts with the address, padded to 32 bytes.
unfoldable pub has_prefix : Bytes → Address → Bool
has_prefix k addr = leb 32 (length k) && (address_of 0 (take 32 k) == addr)

-- The set of an address in the map; a missing or nil set is empty.
unfoldable pub owned : Address → Dict (List Slot) → List Slot
owned addr slots = elim (lookup addr slots) [ none ↦ [] | some s ↦ s ]

module _ (keccak256 : Bytes → Slot) where
  -- The loop over the stakes for one hashed text.
  unfoldable pub add_slot : Bytes → EntityStakes → Dict (List Slot) → Dict (List Slot)
  add_slot k [] slots = slots
  add_slot k ((addr, stake) ∷ stakes) slots =
      let old = owned addr slots in
      add_slot k stakes (
        if addr == zero_address
        then slots
        else insert addr (if has_prefix k addr then keccak256 k ∷ old else old) slots)

  unfoldable pub add_slots : EntityStakes → List Bytes → Dict (List Slot) → Dict (List Slot)
  add_slots stakes [] slots = slots
  add_slots stakes (k ∷ keccak) slots = add_slots stakes keccak (add_slot k stakes slots)

  unfoldable pub new_storage_slots_by_entity : EntityStakes → List Bytes → Dict (List Slot)
  unfolding add_slots
  new_storage_slots_by_entity stakes keccak = add_slots stakes keccak []

abbrev pub associated_slot_offset : ℕ
associated_slot_offset = 128

unfoldable pub is_associated_with : List Slot → Slot → Bool
is_associated_with [] slot = false
is_associated_with (entity_slot ∷ rest) slot =
    if leb entity_slot slot && leb slot (entity_slot + associated_slot_offset)
    then true
    else is_associated_with rest slot

abbrev pub rip7212_precompile : Address
rip7212_precompile = 0x100

unfoldable pub is_rip7212_call : Bool → Address → Bool
is_rip7212_call supported addr = supported && (addr == rip7212_precompile)

pub data Mode : Type 0 where
  read write : Mode

-- The errors, with what their text shows.
pub data Violation : Type 0 where
  no_code : Title → String → Address → Violation
  forbidden : Title → Mode → Named → Slot → Violation
  unstaked_access : Title → Named → Slot → Violation

-- `exceptions` is HasInvalidStorageAccessException of the directory, and `writes_first` the order in
-- which Go ranges over the two modes of an address. A nil set of slots is empty.
pub record StorageSlotsValidator : Type 0 where
  pub op : AiOperation
  pub ai_middleware : Address
  pub is_rip7212_supported : Bool
  pub exceptions : Title → Named → Slot → List String
  pub writes_first : Address → Bool
  pub sender_slots : List Slot
  pub factory_is_staked : Bool
  pub entity_name : Title
  pub entity_addr : Address
  pub entity_access_map : Dict AccessInfo
  pub entity_contract_size_map : Dict ContractSizeInfo
  pub entity_slots : List Slot
  pub entity_is_staked : Bool

abbrev pub is_read : Mode → Bool
is_read read = true
is_read write = false

abbrev pub has_init_code : AiOperation → Bool
has_init_code op = not (length op.init_code == 0)

-- The ids found so far, and the slot for which the entity must be staked.
abbrev pub Found : Type 0
Found = List String × Option Slot

module _ (v : StorageSlotsValidator) where
  unfoldable pub check_code : Dict ContractSizeInfo → Result Violation (Unit {0})
  check_code [] = ok tt
  check_code ((ca, csi) ∷ rest) =
      if not (ca == v.op.sender)
        && (csi.contract_size == 0)
        && not (is_rip7212_call v.is_rip7212_supported ca)
      then err (no_code v.entity_name csi.opcode ca)
      else check_code rest

  abbrev pub owner_must_stake : Bool
  owner_must_stake =
      (has_init_code v.op && not v.factory_is_staked)
      || (has_init_code v.op && v.factory_is_staked && not (v.entity_addr == v.op.sender))

  abbrev pub am_ids : Address → Slot → List String
  am_ids addr slot = v.exceptions v.entity_name (addr2_known_entity v.op addr) slot

  -- The body of the loop over the slots of one mode.
  unfoldable pub check_slot : Address → Mode → Slot → Found → Result Violation Found
  check_slot addr mode slot (ids, must) =
      if is_associated_with v.sender_slots slot
      then (if owner_must_stake then ok (ids, some slot) else ok (ids, must))
      else if (is_associated_with v.entity_slots slot || is_read mode)
          && (length (am_ids addr slot) == 0)
      then ok (ids, some slot)
      else if not (length (am_ids addr slot) == 0)
      then ok (ids ++ am_ids addr slot, must)
      else err (forbidden v.entity_name mode (addr2_known_entity v.op addr) slot)

  unfoldable pub check_slots : Address → List (Mode × Slot) → Found → Result Violation Found
  check_slots addr [] found = ok found
  check_slots addr ((mode, slot) ∷ rest) found =
      check_slot addr mode slot found >>= check_slots addr rest

  -- The slots of an address with their modes, in the order of the loops.
  abbrev pub visits : Address → AccessInfo → List (Mode × Slot)
  visits addr access =
      if v.writes_first addr
      then map (λ s. (write, s)) access.writes ++ map (λ s. (read, s)) access.reads
      else map (λ s. (read, s)) access.reads ++ map (λ s. (write, s)) access.writes

  abbrev pub stake_checked : Address → Found → Result Violation (List String)
  stake_checked addr (ids, none) = ok ids
  stake_checked addr (ids, some slot) =
      if v.entity_is_staked
      then ok ids
      else err (unstaked_access v.entity_name (addr2_known_entity v.op addr) slot)

  abbrev pub exempt : Address → Bool
  exempt addr = (addr == v.op.sender) || (addr == v.ai_middleware)

  unfoldable pub check_access : Dict AccessInfo → List String → Result Violation (List String)
  check_access [] ids = ok ids
  check_access ((addr, access) ∷ rest) ids = elim (exempt addr) [
    | true ↦ check_access rest ids
    | false ↦ check_slots addr (visits addr access) (ids, none) >>= λ found.
        stake_checked addr found >>= λ ids'. check_access rest ids'
  ]

  unfoldable pub process : Result Violation (List String)
  process = check_code v.entity_contract_size_map >>= λ u. check_access v.entity_access_map []
