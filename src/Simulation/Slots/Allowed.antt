-- ===== src/Simulation/Slots/Allowed.antt =====
-- What Process lets through, and the alternative mempools that it returns.
use aiops_bundler.Base.{
  String, Bool, true, false, not, ◌&&◌, List, [], ◌∷◌, ◌++◌, none, ◌≡◌, ◌≢◌, refl, sym, ap, ◌∙◌,
  ◌↔◌, ◌⊎◌, inl, inr, arith, map,
}
use mathlib.Core.List.{append_assoc, append-nil}
use aiops_bundler.Base.Tests.{◌==◌, if◌then◌else◌, Bool-cases, if-true, if-false}
use aiops_bundler.Base.Lists.{All}
use aiops_bundler.Base.Dict.{Dict}
use aiops_bundler.Base.Result.{
  Result, ok, err, ◌>>=◌, Decides, Decides-iff, Decides-iff_map, Decides-guard, Decides-then,
}
use aiops_bundler.Aiop.{Address}
use aiops_bundler.Simulation.{Slot, AccessInfo, ContractSizeInfo}
use aiops_bundler.Simulation.Slots.{
  Mode, read, write, Violation, no_code, StorageSlotsValidator, is_rip7212_call, check_code, visits,
  exempt, check_slots, check_access, process, stake_checked, Found,
}
use aiops_bundler.Simulation.Slots.Rules.{
  permitted, excepting, all_permitted, verdict, verdict-passes, verdict-Fails,
}

module _ (v : StorageSlotsValidator) where
  abbrev pub CodeAllowed : Address × ContractSizeInfo → Type 0
  CodeAllowed (ca, csi) =
      (ca ≡ v.op.sender)
      ⊎ (csi.contract_size ≢ 0)
      ⊎ (is_rip7212_call v.is_rip7212_supported ca ≡ true)

  abbrev pub AccessAllowed : Address × AccessInfo → Type 0
  AccessAllowed (addr, access) =
      (exempt v addr ≡ true)
      ⊎ (All (λ slot. permitted v addr (read, slot) ≡ true) access.reads
          × All (λ slot. permitted v addr (write, slot) ≡ true) access.writes)

  -- The ids of all exceptions made, in the order of the accesses.
  abbrev pub exception_ids : Dict AccessInfo → List String
  exception_ids [] = []
  exception_ids ((addr, access) ∷ rest) =
      (if exempt v addr then [] else excepting v addr (visits v addr access)) ++ exception_ids rest

  all_permitted-map :
      (addr : Address) (mode : Mode) (slots : List Slot) (rest : List (Mode × Slot))
      → (all_permitted v addr (map (λ s. (mode, s)) slots ++ rest) ≡ true) ↔ (
          All (λ slot. permitted v addr (mode, slot) ≡ true) slots
          × (all_permitted v addr rest ≡ true))
  all_permitted-map addr mode [] rest = (λ h. (tt, h), λ h. h.1)
  all_permitted-map addr mode (slot ∷ slots) rest =
      let ih = all_permitted-map addr mode slots rest in
      (
        λ h.
            let below = ih.0 (ground arith) in
            let here : permitted v addr (mode, slot) ≡ true = ground arith in
            ((here, below.0), below.1),
        λ h. let below = ih.1 (h.0.1, h.1) in let here = h.0.0 in ground arith,
      )

  both :
      (addr : Address) (mode next : Mode) (slots others : List Slot)
      → (all_permitted v addr (map (λ s. (mode, s)) slots ++ map (λ s. (next, s)) others) ≡ true)
        ↔ (All (λ slot. permitted v addr (mode, slot) ≡ true) slots
            × All (λ slot. permitted v addr (next, slot) ≡ true) others)
  both addr mode next slots others =
      let first = all_permitted-map addr mode slots (map (λ s. (next, s)) others) in
      let second = all_permitted-map addr next others [] in
      let alone : map (λ s. (next, s)) others ++ [] ≡ map (λ s. (next, s)) others =
        append-nil (map (λ s. (next, s)) others) in
      (
        λ h. let cut = first.0 h in (cut.0, (second.0 (ap (all_permitted v addr) alone ∙ cut.1)).0),
        λ h. first.1 (h.0, ap (all_permitted v addr) (sym alone) ∙ second.1 (h.1, refl)),
      )

  visits-permitted :
      (addr : Address) (access : AccessInfo)
      → (all_permitted v addr (visits v addr access) ≡ true) ↔ (
          All (λ slot. permitted v addr (read, slot) ≡ true) access.reads
          × All (λ slot. permitted v addr (write, slot) ≡ true) access.writes)
  visits-permitted addr access = elim (Bool-cases (v.writes_first addr)) [
    | inl w ↦
        let way = both addr write read access.writes access.reads in
        rw w (λ h. let p = way.0 h in (p.1, p.0), λ h. way.1 (h.1, h.0))
    | inr w ↦ rw w (both addr read write access.reads access.writes)
  ]

  has_code : Address → ContractSizeInfo → Bool
  has_code ca csi =
      not (ca == v.op.sender)
      && (csi.contract_size == 0)
      && not (is_rip7212_call v.is_rip7212_supported ca)

  has_code_lem :
      (ca : Address) (csi : ContractSizeInfo) → (has_code ca csi ≡ false) ↔ CodeAllowed (ca, csi)
  unfolding has_code
  has_code_lem ca csi = ground arith

  check_code_lem :
      (sizes : Dict ContractSizeInfo) → Decides (All CodeAllowed sizes) (check_code v sizes) tt
  unfolding check_code has_code
  check_code_lem [] = inl (tt, refl)
  check_code_lem ((ca, csi) ∷ rest) =
      let own = has_code_lem ca csi in
      Decides-iff_map (check_code v ((ca, csi) ∷ rest)) tt
        (λ h. (own.0 h.0, h.1), λ h. (own.1 h.0, h.1))
        (Decides-guard (has_code ca csi) (no_code v.entity_name csi.opcode ca) (check_code v rest)
          tt (check_code_lem rest))

  verdict-Decides :
      (addr : Address) (accesses : List (Mode × Slot)) (ids : List String)
      → Decides
          (all_permitted v addr accesses ≡ true)
          (verdict v addr accesses (ids, none))
          (ids ++ excepting v addr accesses)
  verdict-Decides addr accesses ids = elim (Bool-cases (all_permitted v addr accesses)) [
    | inl p ↦ inl (p, verdict-passes v addr accesses ids none p refl)
    | inr p ↦ inr (λ h. cc, verdict-Fails v addr accesses ids none (ground arith))
  ]

  check_access-exempt :
      (addr : Address) (access : AccessInfo) (rest : Dict AccessInfo) (ids : List String)
      → exempt v addr ≡ true
      → check_access v ((addr, access) ∷ rest) ids ≡ check_access v rest ids
  unfolding check_access
  check_access-exempt addr access rest ids e = rw (check_access, e) refl

  check_access-visited :
      (addr : Address) (access : AccessInfo) (rest : Dict AccessInfo) (ids : List String)
      → exempt v addr ≡ false
      → check_access v ((addr, access) ∷ rest) ids
        ≡ (verdict v addr (visits v addr access) (ids, none) >>= check_access v rest)
  unfolding check_access
  check_access-visited addr access rest ids e =
      rw (check_access, e) (regroup (check_slots v addr (visits v addr access) (ids, none)))
    where
      regroup :
          (r : Result Violation Found)
          → (r >>= λ found. stake_checked v addr found >>= λ ids'. check_access v rest ids')
            ≡ ((r >>= stake_checked v addr) >>= check_access v rest)
      regroup (ok found) = refl
      regroup (err e) = refl

  visited :
      (addr : Address) (access : AccessInfo)
      → exempt v addr ≡ false
      → AccessAllowed (addr, access)
      → All (λ slot. permitted v addr (read, slot) ≡ true) access.reads
        × All (λ slot. permitted v addr (write, slot) ≡ true) access.writes
  visited addr access e (inl h) = absurd (ground arith)
  visited addr access e (inr h) = h

  check_access_lem :
      (accesses : Dict AccessInfo) (ids : List String)
      → Decides
          (All AccessAllowed accesses)
          (check_access v accesses ids)
          (ids ++ exception_ids accesses)
  unfolding check_access
  check_access_lem [] ids = inl (tt, rw (append-nil ids) refl)
  check_access_lem ((addr, access) ∷ rest) ids = elim (Bool-cases (exempt v addr)) [
    | inl e ↦
        rw
          (
            check_access-exempt addr access rest ids e,
            if-true (exempt v addr) [] (excepting v addr (visits v addr access)) e,
          )
          (Decides-iff_map (check_access v rest ids) (ids ++ exception_ids rest)
            (λ h. (inl e, h), λ h. h.1) (check_access_lem rest ids))
    | inr e ↦
        let here = excepting v addr (visits v addr access) in
        let same = visits-permitted addr access in
        rw
          (
            check_access-visited addr access rest ids e,
            if-false (exempt v addr) [] here e,
            sym (append_assoc ids here (exception_ids rest)),
          )
          (Decides-iff_map
            (verdict v addr (visits v addr access) (ids, none) >>= check_access v rest)
            ((ids ++ here) ++ exception_ids rest)
            (λ h. (inr (same.0 h.0), h.1), λ h. (same.1 (visited addr access e h.0), h.1))
            (Decides-then (verdict v addr (visits v addr access) (ids, none)) (check_access v rest)
              (ids ++ here) ((ids ++ here) ++ exception_ids rest)
              (verdict-Decides addr (visits v addr access) ids)
              (check_access_lem rest (ids ++ here))))
  ]

  pub process-Decides :
      Decides
        (All CodeAllowed v.entity_contract_size_map × All AccessAllowed v.entity_access_map)
        (process v)
        (exception_ids v.entity_access_map)
  unfolding process
  process-Decides =
      Decides-then (check_code v v.entity_contract_size_map)
        (λ u. check_access v v.entity_access_map []) tt (exception_ids v.entity_access_map)
        (check_code_lem v.entity_contract_size_map) (check_access_lem v.entity_access_map [])

  -- Process passes an entity exactly if every contract that it uses has code, is the sender or is
  -- the supported precompile, and every slot that it reads or writes outside the sender and the
  -- AiMiddleware is permitted: a slot of the sender, if no sender is deployed, or by a staked factory
  -- for the sender, or if the entity is staked; any other, if an alternative mempool excepts it, or
  -- if the entity is staked and only reads it or owns it. It returns the ids of the exceptions.
  pub process_lem :
      (ids : List String)
      → (process v ≡ ok ids) ↔ (
          (All CodeAllowed v.entity_contract_size_map × All AccessAllowed v.entity_access_map)
          × (ids ≡ exception_ids v.entity_access_map))
  process_lem ids = Decides-iff (process v) (exception_ids v.entity_access_map) ids process-Decides
