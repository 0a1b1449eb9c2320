-- ===== src/Mempool.antt =====
-- The queues of the mempool (pkg/mempool/queue.go). The sorted sets of github.com/wangjia184/sortedset
-- are a parameter: a record of the operations that the code calls, and of what it relies on.
pub mod Examples
pub mod Views
pub mod Filing
pub mod Removing
pub mod Pool
use mathlib.Core.List.{Mem}
use aiops_bundler.Base.{
  ℕ, ◌+◌, ◌-◌, ◌%◌, Bool, true, false, not, ◌&&◌, ◌||◌, List, [], ◌∷◌, Option, none, some, ◌≡◌,
}
use aiops_bundler.Base.Tests.{ltb, ◌==◌, if◌then◌else◌}
use aiops_bundler.Base.Lists.{length}
use aiops_bundler.Base.Int.{ℤ, pos, negsuc, ◌-ℤ◌}
use aiops_bundler.Base.Dict.{Dict, lookup, insert}
use aiops_bundler.Aiop.{Address, AiOperation, zero_address, get_factory, get_paymaster}

-- The text that getUniqueKey joins, as its parts: none of them has the separator in it.
pub record Key : Type 0 where
  pub ai_middleware : Address
  pub sender : Address
  pub nonce : ℕ

abbrev pub get_unique_key : Address → Address → ℕ → Key
get_unique_key ep sender nonce = record { ai_middleware = ep; sender = sender; nonce = nonce }

abbrev pub same_key : Key → Key → Bool
same_key k j =
    (k.ai_middleware == j.ai_middleware) && ((k.sender == j.sender) && (k.nonce == j.nonce))

-- A sorted set of operations: by key, with a score, ranked from 1 by ascending score.
pub record SortedSet : Type 1 where
  pub Set : Type 0
  pub new : Set
  pub add_or_update : Key → ℤ → AiOperation → Set → Set
  pub remove : Key → Set → Set
  pub get_count : Set → ℕ
  -- Negative ranks count from the end; from a higher to a lower rank, the nodes come in reverse.
  pub get_by_rank_range : ℤ → ℤ → Set → List AiOperation
  pub get_by_key : Key → Set → Option AiOperation

-- What the documentation of the sorted sets says of keys.
pub record IsSortedSet (S : SortedSet) : Type 0 where
  pub get-new : (k : Key) → S.get_by_key k S.new ≡ none
  pub get-add :
      (k j : Key) (score : ℤ) (op : AiOperation) (s : S.Set)
      → S.get_by_key j (S.add_or_update k score op s)
        ≡ (if same_key k j then some op else S.get_by_key j s)
  pub get-remove :
      (k j : Key) (s : S.Set)
      → S.get_by_key j (S.remove k s) ≡ (if same_key k j then none else S.get_by_key j s)
  -- The ranges from the first rank to the last, and back, have every node.
  pub get-ascending :
      (k : Key) (op : AiOperation) (s : S.Set)
      → S.get_by_key k s ≡ some op
      → Mem op (S.get_by_rank_range (pos 1) (negsuc 0) s)
  pub get-descending :
      (k : Key) (op : AiOperation) (s : S.Set)
      → S.get_by_key k s ≡ some op
      → Mem op (S.get_by_rank_range (negsuc 0) (pos 0 -ℤ pos (S.get_count s)) s)

-- big.Int's Int64: the low 64 bits as a two's complement number.
abbrev pub int64_of : ℕ → ℤ
int64_of n =
    let m = n % 18446744073709551616 in
    if ltb m 9223372036854775808 then pos m else pos m -ℤ pos 18446744073709551616

module _ (S : SortedSet) where
  pub record OpSet : Type 0 where
    pub all : S.Set
    pub entities : Dict S.Set

  -- setsByAiMiddleware.
  abbrev pub Queues : Type 0
  Queues = Dict OpSet

  abbrev pub new_ai_op_queue : Queues
  new_ai_op_queue = []

  -- Each getter makes an entry where there is none; the state after it comes with the entry.
  unfoldable pub get_entities_sorted_set : Address → OpSet → S.Set × OpSet
  get_entities_sorted_set entity s = elim (lookup entity s.entities) [
    | some e ↦ (e, s)
    | none ↦ (S.new, record s { entities = insert entity S.new s.entities })
  ]

  unfoldable pub get_ai_middleware_set : Address → Queues → OpSet × Queues
  get_ai_middleware_set ep q = elim (lookup ep q) [
    | some s ↦ (s, q)
    | none ↦ let s : OpSet = record { all = S.new; entities = [] } in (s, insert ep s q)
  ]

  -- A set is a pointer: what is written to it is seen under its entity.
  abbrev pub set_entity : Address → S.Set → OpSet → OpSet
  set_entity entity e s = record s { entities = insert entity e s.entities }

  -- An update of an entity's set, with a score that may depend on its size.
  unfoldable pub add_to_entity : Address → Key → (ℕ → ℤ) → AiOperation → OpSet → OpSet
  unfolding get_entities_sorted_set
  add_to_entity entity key score op s =
      let (e, s') = get_entities_sorted_set entity s in
      set_entity entity (S.add_or_update key (score (S.get_count e)) op e) s'

  unfoldable pub remove_from_entity : Address → Key → OpSet → OpSet
  unfolding get_entities_sorted_set
  remove_from_entity entity key s =
      let (e, s') = get_entities_sorted_set entity s in set_entity entity (S.remove key e) s'

  -- What AddOp does to the set of the AiMiddleware.
  unfoldable pub file_op : Address → AiOperation → OpSet → OpSet
  unfolding add_to_entity
  file_op ep op eps =
      let key = get_unique_key ep op.sender op.nonce in
      let s1 : OpSet = record eps {
        all = S.add_or_update key (pos (S.get_count eps.all)) op eps.all;
      } in
      let s2 = add_to_entity op.sender key (λ n. int64_of op.nonce) op s1 in
      let s3 =
        if get_factory op == zero_address
        then s2
        else add_to_entity (get_factory op) key (λ n. pos n) op s2 in
      if get_paymaster op == zero_address
      then s3
      else add_to_entity (get_paymaster op) key (λ n. pos n) op s3

  unfoldable pub add_op : Address → AiOperation → Queues → Queues
  unfolding get_ai_middleware_set file_op
  add_op ep op q = let (eps, q') = get_ai_middleware_set ep q in insert ep (file_op ep op eps) q'

  unfoldable pub get_ops : Address → Address → Queues → List AiOperation × Queues
  unfolding get_ai_middleware_set get_entities_sorted_set
  get_ops ep entity q =
      let (eps, q') = get_ai_middleware_set ep q in
      let (ess, s) = get_entities_sorted_set entity eps in
      let count = pos 0 -ℤ pos (S.get_count ess) in
      (S.get_by_rank_range (negsuc 0) count ess, insert ep s q')

  unfoldable pub all_ops : Address → Queues → List AiOperation × Queues
  unfolding get_ai_middleware_set
  all_ops ep q =
      let (eps, q') = get_ai_middleware_set ep q in
      (S.get_by_rank_range (pos 1) (negsuc 0) eps.all, q')

  -- The body of RemoveOps' loop.
  unfoldable pub remove_op : Address → AiOperation → OpSet → OpSet
  unfolding remove_from_entity
  remove_op ep op eps =
      let key = get_unique_key ep op.sender op.nonce in
      let s1 : OpSet = record eps { all = S.remove key eps.all } in
      remove_from_entity (get_paymaster op) key
        (remove_from_entity (get_factory op) key (remove_from_entity op.sender key s1))

  unfoldable pub remove_loop : Address → List AiOperation → OpSet → OpSet
  unfolding remove_op
  remove_loop ep [] eps = eps
  remove_loop ep (op ∷ ops) eps = remove_loop ep ops (remove_op ep op eps)

  unfoldable pub remove_ops : Address → List AiOperation → Queues → Queues
  unfolding get_ai_middleware_set remove_loop
  remove_ops ep ops q =
      let (eps, q') = get_ai_middleware_set ep q in insert ep (remove_loop ep ops eps) q'
