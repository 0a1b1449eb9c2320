-- ===== src/Mempool/Examples.antt =====
-- Tests of the mempool over sets that are kept as association lists.
use mathlib.Core.List.{Mem, mem-reverse, reverse, mem-cons_self, mem-cons_of_mem}
use aiops_bundler.Base.{
  ℕ, ◌&&◌, ◌≡◌, refl, sym, subst, ◌∙◌, List, [], ◌∷◌, none, some, inl, inr, arith,
}
use aiops_bundler.Base.Tests.{if-true, ◌==◌, if◌then◌else◌, Bool-cases}
use aiops_bundler.Base.Lists.{length}
use aiops_bundler.Base.Int.{ℤ, pos, negsuc}
use aiops_bundler.Base.Dict.{lookup}
use aiops_bundler.Base.Result.{Result, ok}
use aiops_bundler.Aiop.{AiOperation, get_factory, get_paymaster}
use aiops_bundler.Aiop.Examples.{sample_op}
use aiops_bundler.Mempool.{
  Key, same_key, SortedSet, IsSortedSet, Queues, new_ai_op_queue, add_op, remove_ops,
}
use aiops_bundler.Mempool.Views.{is_filed, key_of, view, view_all}
use aiops_bundler.Mempool.Filing.{add_op-view}
use aiops_bundler.Mempool.Removing.{drops, drops_all, remove_ops-view, add_op-stale}
use aiops_bundler.Mempool.Pool.{
  Db, get_value, delete_value, set_value, Mempool, new, pool_add, pool_remove,
}
use aiops_bundler.Mempool.Pool.Agree.{get-delete, get-set, set-Agrees, IsSynced}
use aiops_bundler.Mempool.Pool.Synced.{pool_add-IsSynced, pool_remove-IsSynced, new-restart}

-- Sets in the order of the last update; ranks are not kept.
abbrev pub list_range : ℤ → List AiOperation → List AiOperation
list_range (pos n) ops = ops
list_range (negsuc n) ops = reverse ops

abbrev pub values : Db AiOperation → List AiOperation
values [] = []
values ((k, op) ∷ db) = op ∷ values db

abbrev pub list_set : SortedSet
list_set = record {
  Set = Db AiOperation;
  new = [];
  add_or_update = λ k score op s. set_value k op s;
  remove = delete_value;
  get_count = length;
  get_by_rank_range = λ l r s. list_range l (values s);
  get_by_key = get_value;
}

get_value-Mem :
    (k : Key) (op : AiOperation) (s : Db AiOperation) → get_value k s ≡ some op → Mem op (values s)
unfolding get_value
get_value-Mem k op [] h = absurd (ground arith)
get_value-Mem k op ((j, v) ∷ s) h = elim (Bool-cases (same_key j k)) [
  | inl e ↦
      let same : some v ≡ some op = sym (if-true (same_key j k) _ _ e) ∙ h in
      let this : v ≡ op = cc in subst (λ x. Mem x (v ∷ values s)) this mem-cons_self
  | inr e ↦ mem-cons_of_mem v (get_value-Mem k op s (ground arith))
]

pub list_set-IsSortedSet : IsSortedSet list_set
unfolding get_value
list_set-IsSortedSet = record {
  get-new = λ k. refl;
  get-add = λ k j score op s. get-set k j op s;
  get-remove = λ k j s. get-delete k j s;
  get-ascending = get_value-Mem;
  get-descending = λ k op s h. mem-reverse.1 (get_value-Mem k op s h);
}

abbrev pub empty : Queues list_set
empty = new_ai_op_queue list_set

add_op-view_example :
    (view list_set 3 2 (key_of 3 sample_op) (add_op list_set 3 sample_op empty) ≡ (
      if (3 == 3) && (is_filed 2 sample_op && same_key (key_of 3 sample_op) (key_of 3 sample_op))
      then some sample_op
      else view list_set 3 2 (key_of 3 sample_op) empty))
    × (view_all list_set 3 (key_of 3 sample_op) (add_op list_set 3 sample_op empty) ≡ (
        if (3 == 3) && same_key (key_of 3 sample_op) (key_of 3 sample_op)
        then some sample_op
        else view_all list_set 3 (key_of 3 sample_op) empty))
add_op-view_example =
    add_op-view list_set list_set-IsSortedSet 3 sample_op empty 3 2 (key_of 3 sample_op)

remove_ops-view_example :
    (view list_set 3 7
        (key_of 3 sample_op)
        (remove_ops list_set 3 (sample_op ∷ []) (add_op list_set 3 sample_op empty))
      ≡ (if (3 == 3) && drops 3 7 (key_of 3 sample_op) (sample_op ∷ [])
          then none
          else view list_set 3 7 (key_of 3 sample_op) (add_op list_set 3 sample_op empty)))
    × (view_all list_set 3
          (key_of 3 sample_op)
          (remove_ops list_set 3 (sample_op ∷ []) (add_op list_set 3 sample_op empty))
        ≡ (if (3 == 3) && drops_all 3 (key_of 3 sample_op) (sample_op ∷ [])
            then none
            else view_all list_set 3 (key_of 3 sample_op) (add_op list_set 3 sample_op empty)))
remove_ops-view_example =
    remove_ops-view list_set list_set-IsSortedSet 3 (sample_op ∷ [])
      (add_op list_set 3 sample_op empty) 3 7 (key_of 3 sample_op)

-- The sample operation's replacement without its paymaster.
abbrev unsponsored_op : AiOperation
unsponsored_op = record sample_op { paymaster_and_data = []; max_fee_per_gas = 20 }

add_op-stale_example :
    (view list_set 3 (get_paymaster sample_op) (key_of 3 sample_op) (
        remove_ops list_set 3
          (unsponsored_op ∷ [])
          (add_op list_set 3 unsponsored_op (add_op list_set 3 sample_op empty)))
      ≡ some sample_op)
    × (view_all list_set 3 (key_of 3 sample_op) (
          remove_ops list_set 3
            (unsponsored_op ∷ [])
            (add_op list_set 3 unsponsored_op (add_op list_set 3 sample_op empty)))
        ≡ none)
unfolding get_paymaster get_factory
add_op-stale_example =
    add_op-stale list_set list_set-IsSortedSet 3 sample_op unsponsored_op empty refl refl
      (λ h. ground arith) refl

-- A database that stores operations as they are.
abbrev pub keep_op : AiOperation → Result ℕ AiOperation
keep_op op = ok op

abbrev pub empty_pool : Mempool list_set AiOperation
empty_pool = record { db = []; queue = empty }

abbrev full_pool : Mempool list_set AiOperation
full_pool = record {
  db = (key_of 3 sample_op, sample_op) ∷ [];
  queue = add_op list_set 3 sample_op empty;
}

empty_pool-IsSynced : IsSynced list_set keep_op empty_pool
unfolding lookup get_value
empty_pool-IsSynced = (λ k. refl, tt)

pool_add-IsSynced_example :
    (m' : Mempool list_set AiOperation) × (pool_add list_set AiOperation keep_op none 3 sample_op
        empty_pool
      ≡ ok m')
    × IsSynced list_set keep_op m'
pool_add-IsSynced_example =
    pool_add-IsSynced list_set keep_op list_set-IsSortedSet keep_op 3 sample_op sample_op empty_pool
      refl refl empty_pool-IsSynced

full_pool-IsSynced : IsSynced list_set keep_op full_pool
unfolding lookup get_value delete_value
full_pool-IsSynced = (
  set-Agrees list_set keep_op list_set-IsSortedSet 3 sample_op sample_op empty [] refl (λ k. refl),
  ((refl, (sample_op, refl, refl)), tt),
)

pool_remove-IsSynced_example :
    (m' : Mempool list_set AiOperation) × (pool_remove list_set AiOperation {E = ℕ} none 3
        (sample_op ∷ [])
        full_pool
      ≡ ok m')
    × IsSynced list_set keep_op m'
pool_remove-IsSynced_example =
    pool_remove-IsSynced list_set keep_op list_set-IsSortedSet 3 (sample_op ∷ []) full_pool
      full_pool-IsSynced

new-restart_example :
    (m' : Mempool list_set AiOperation) × (new list_set AiOperation keep_op full_pool.db ≡ ok m')
    × ((k : Key)
        → view_all list_set k.ai_middleware k m'.queue
          ≡ view_all list_set k.ai_middleware k full_pool.queue)
new-restart_example = new-restart list_set keep_op list_set-IsSortedSet full_pool full_pool-IsSynced
