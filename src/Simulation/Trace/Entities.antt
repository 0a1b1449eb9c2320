-- ===== src/Simulation/Trace/Entities.antt =====
-- The opcodes that the entities of a traced operation may use.
use aiops_bundler.Base.{
  ℕ, String, Bool, true, false, not, ◌&&◌, ◌||◌, List, [], ◌∷◌, Option, none, some, ◌≡◌, refl,
  subst, ◌↔◌, ◌⊎◌, inl, inr, arith,
}
use aiops_bundler.Base.Tests.{Bool-cases}
use aiops_bundler.Base.Lists.{All}
use aiops_bundler.Base.Dict.{lookup}
use aiops_bundler.Base.Result.{ok, Decides, Decides-iff_map, Decides-guard, Decides-then}
use aiops_bundler.Aiop.{Address, AiOperation}
use aiops_bundler.Simulation.{
  Title, account, factory, paymaster, same_title, Entity, KnownEntity, entity_of,
}
use aiops_bundler.Simulation.Slots.{has_init_code}
use aiops_bundler.Simulation.Trace.{
  create2_op_code, banned_op_codes, banned_unstaked_op_codes, contains_text, out_of_gas,
  ext_code_access, banned_opcode, unstaked_banned_opcode, too_many_create2, has_key, many,
  check_opcodes, check_entity, check_entities, create2_of, check_create2,
}

-- A list of titles, in any order, that leaves none out.
abbrev pub has_title : Title → List Title → Bool
has_title t [] = false
has_title t (title ∷ titles) = same_title title t || has_title t titles

abbrev pub Covers : List Title → Type 0
Covers titles = (t : Title) → has_title t titles ≡ true

same_title-eq : (s t : Title) → same_title s t ≡ true → s ≡ t
same_title-eq account account h = refl
same_title-eq account factory h = cc
same_title-eq account paymaster h = cc
same_title-eq factory account h = cc
same_title-eq factory factory h = refl
same_title-eq factory paymaster h = cc
same_title-eq paymaster account h = cc
same_title-eq paymaster factory h = cc
same_title-eq paymaster paymaster h = refl

module _ {ℓ} (P : Title → Type ℓ) where
  All-of : (titles : List Title) → ((t : Title) → P t) → All P titles
  All-of [] h = tt
  All-of (title ∷ titles) h = (h title, All-of titles h)

  All-at : (titles : List Title) (t : Title) → has_title t titles ≡ true → All P titles → P t
  All-at [] t h all = cc
  All-at (title ∷ titles) t h all = elim (Bool-cases (same_title title t)) [
    | inl e ↦ subst P (same_title-eq title t e) all.0
    | inr e ↦ All-at titles t (ground arith) all.1
  ]

  -- What holds of each title in a covering list holds of all, and the other way.
  pub All-Covers : (titles : List Title) → Covers titles → All P titles ↔ ((t : Title) → P t)
  All-Covers titles h = (λ all t. All-at titles t (h t) all, All-of titles)

abbrev pub OpcodeAllowed : Bool → String × ℕ → Type 0
OpcodeAllowed staked (opcode, n) =
    (contains_text opcode banned_op_codes ≡ false)
    × ((staked ≡ true) ⊎ (contains_text opcode banned_unstaked_op_codes ≡ false))

-- The entity stays within its gas, does not read the code of the AiMiddleware, uses no banned opcode
-- and reads no balance without a stake.
abbrev pub EntityAllowed : Address → Entity → Type 0
EntityAllowed ai_middleware entity =
    (entity.info.oog ≡ false)
    × (lookup ai_middleware entity.info.ext_code_access_info ≡ none)
    × All (OpcodeAllowed entity.is_staked) entity.info.opcodes

-- Only the factory creates by CREATE2, at most once, and only where there is an initCode.
abbrev pub Create2Allowed : AiOperation → KnownEntity → Type 0
Create2Allowed op known =
    ((create2_of known factory ≡ none)
      ⊎ ((many (create2_of known factory) ≡ false) × (has_init_code op ≡ true)))
    × (create2_of known account ≡ none)
    × (create2_of known paymaster ≡ none)

has_key-false {ℓ} : {A : Type ℓ} (o : Option A) → (has_key o ≡ false) ↔ (o ≡ none)
has_key-false none = (λ h. refl, λ h. refl)
has_key-false (some a) = (λ h. cc, λ h. cc)

module _ {ℓ} {E : Type ℓ} where
  check_opcodes-Decides :
      (title : Title) (staked : Bool) (opcodes : List (String × ℕ))
      → Decides (All (OpcodeAllowed staked) opcodes) (check_opcodes {E = E} title staked opcodes) tt
  unfolding check_opcodes
  check_opcodes-Decides title staked [] = inl (tt, refl)
  check_opcodes-Decides title staked ((opcode, n) ∷ rest) =
      let ban = contains_text opcode banned_op_codes in
      let unstaked = not staked && contains_text opcode banned_unstaked_op_codes in
      Decides-iff_map (check_opcodes title staked ((opcode, n) ∷ rest)) tt
        (λ h. ((h.0, allowed staked _ h.1.0), h.1.1), λ h. (h.0.0, (barred staked _ h.0.1, h.1)))
        (Decides-guard ban (banned_opcode title opcode) _ tt (
          Decides-guard unstaked (unstaked_banned_opcode title opcode)
            (check_opcodes title staked rest) tt (check_opcodes-Decides title staked rest)))
    where
      allowed : (s b : Bool) → (not s && b) ≡ false → (s ≡ true) ⊎ (b ≡ false)
      allowed true b h = inl refl
      allowed false b h = inr h

      barred : (s b : Bool) → (s ≡ true) ⊎ (b ≡ false) → (not s && b) ≡ false
      barred true b h = refl
      barred false b (inl h) = cc
      barred false b (inr h) = h

  check_entity-Decides :
      (ai_middleware : Address) (title : Title) (entity : Entity)
      → Decides
          (EntityAllowed ai_middleware entity)
          (check_entity {E = E} ai_middleware title entity)
          tt
  unfolding check_entity
  check_entity-Decides ai_middleware title entity =
      let found = lookup ai_middleware entity.info.ext_code_access_info in
      Decides-iff_map (check_entity ai_middleware title entity) tt
        (
          λ h. (h.0, (has_key-false found).0 h.1.0, h.1.1),
          λ h. (h.0, ((has_key-false found).1 h.1, h.2)),
        )
        (Decides-guard entity.info.oog (out_of_gas title) _ tt (
          Decides-guard (has_key found) (ext_code_access title) _ tt
            (check_opcodes-Decides title entity.is_staked entity.info.opcodes)))

  pub check_entities-Decides :
      (ai_middleware : Address) (known : KnownEntity) (titles : List Title)
      → Decides
          (All (λ t. EntityAllowed ai_middleware (entity_of known t)) titles)
          (check_entities {E = E} ai_middleware known titles)
          tt
  unfolding check_entities
  check_entities-Decides ai_middleware known [] = inl (tt, refl)
  check_entities-Decides ai_middleware known (title ∷ titles) =
      Decides-then (check_entity ai_middleware title (entity_of known title)) _ tt tt
        (check_entity-Decides ai_middleware title (entity_of known title))
        (check_entities-Decides ai_middleware known titles)

  pub check_create2-Decides :
      (op : AiOperation) (known : KnownEntity)
      → Decides (Create2Allowed op known) (check_create2 {E = E} op known) tt
  unfolding check_create2
  check_create2-Decides op known =
      let f = create2_of known factory in
      let a = create2_of known account in
      let p = create2_of known paymaster in
      Decides-iff_map (check_create2 op known) tt
        (
          λ h. (few f _ h.0, (has_key-false a).0 h.1.0, (has_key-false p).0 h.1.1.0),
          λ h. (fewer f _ h.0, ((has_key-false a).1 h.1, ((has_key-false p).1 h.2, tt))),
        )
        (Decides-guard _ too_many_create2 _ tt (
          Decides-guard (has_key a) (banned_opcode account create2_op_code) _ tt (
            Decides-guard (has_key p) (banned_opcode paymaster create2_op_code) (ok tt) tt
              (inl (tt {0}, refl)))))
    where
      few :
          (f : Option ℕ) (init : Bool)
          → (has_key f && (many f || not init)) ≡ false
          → (f ≡ none) ⊎ ((many f ≡ false) × (init ≡ true))
      few none init h = inl refl
      few (some n) init h = inr (ground arith, ground arith)

      fewer :
          (f : Option ℕ) (init : Bool)
          → (f ≡ none) ⊎ ((many f ≡ false) × (init ≡ true))
          → (has_key f && (many f || not init)) ≡ false
      fewer none init h = refl
      fewer (some n) init (inl h) = cc
      fewer (some n) init (inr h) = ground arith
