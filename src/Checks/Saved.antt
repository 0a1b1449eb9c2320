-- ===== src/Checks/Saved.antt =====
-- The store of code hashes (pkg/modules/checks/db.go), and the batch handlers CodeHashes and Clean
-- (pkg/modules/checks/standalone.go). `commit` says whether the database commits a transaction.
use mathlib.Core.List.{reverse}
use aiops_bundler.Base.{
  ℕ, ◌≡◌, refl, inl, inr, ◌⊎◌, Bool, true, false, not, List, [], ◌∷◌, ◌++◌, Option, none, some, map,
  arith,
}
use aiops_bundler.Base.Tests.{◌==◌, if◌then◌else◌}
use aiops_bundler.Base.Lists.{keep, All}
use aiops_bundler.Base.Dict.{Dict, lookup, insert, delete, lookup-delete}
use aiops_bundler.Base.Result.{Result, ok, err, ◌>>=◌}
use aiops_bundler.Aiop.{Address, Bytes, AiOperation}
use aiops_bundler.Modules.{BatchHandlerCtx}
use aiops_bundler.Modules.Removal.{held}
use aiops_bundler.Batch.Sweep.{sweep, sweep-by, items}
use aiops_bundler.Checks.CodeHash.{CodeHash, has_code_hash_changes}

abbrev pub Store : Type 0
Store = Dict (List CodeHash)

unfoldable pub delete_all : List ℕ → Store → Store
delete_all [] db = db
delete_all (h ∷ hs) db = delete_all hs (delete h db)

abbrev pub contains : List ℕ → ℕ → Bool
contains [] k = false
contains (h ∷ hs) k = if h == k then true else contains hs k

lookup-delete_all :
    (k : ℕ) (hs : List ℕ) (db : Store)
    → lookup k (delete_all hs db) ≡ (if contains hs k then none else lookup k db)
unfolding delete_all
lookup-delete_all k [] db = refl
lookup-delete_all k (h ∷ hs) db =
    ground (arith, lookup-delete_all k hs (delete h db), lookup-delete h k db)

module _ {ℓ} {E : Type ℓ} where
  -- `none` is a commit; an error leaves the store as it was.
  unfoldable pub save_code_hashes : Option E → Store → ℕ → List CodeHash → Result E Store
  save_code_hashes commit db ai_op_hash code_hashes = elim commit [
    | none ↦ ok (insert ai_op_hash code_hashes db)
    | some e ↦ err e
  ]

  -- `not_found` is badger.ErrKeyNotFound.
  unfoldable pub get_saved_code_hashes : E → Store → ℕ → Result E (List CodeHash)
  get_saved_code_hashes not_found db ai_op_hash = elim (lookup ai_op_hash db) [
    | none ↦ err not_found
    | some ch ↦ ok ch
  ]

  unfoldable pub remove_saved_code_hashes : Option E → Store → List ℕ → Result E Store
  unfolding delete_all
  remove_saved_code_hashes commit db hs = elim commit [
    | none ↦ ok (delete_all hs db)
    | some e ↦ err e
  ]

  module _ (hash : AiOperation → ℕ) where
    unfoldable pub code_hashes_step :
        (Bytes → ℕ)
        → (Address → Result E Bytes)
        → E
        → Store
        → ℕ
        → Unit {0}
        → AiOperation
        → Result E (Unit {0} × Bool)
    unfolding get_saved_code_hashes
    code_hashes_step keccak gc not_found db i u op = do
      chs ← get_saved_code_hashes not_found db (hash op)
      changed ← has_code_hash_changes keccak gc chs
      ok (tt, changed)

    -- CodeHashes. The handler has no state of its own.
    unfoldable pub code_hashes :
        (Bytes → ℕ)
        → (Address → Result E Bytes)
        → E
        → Store
        → BatchHandlerCtx
        → Option (Result E (Unit {0} × BatchHandlerCtx))
    unfolding code_hashes_step
    code_hashes keccak gc not_found db ctx =
        sweep (code_hashes_step keccak gc not_found db) "code hash changed" tt ctx

    -- If the code hashes of every operation in the batch are stored and can be compared, CodeHashes
    -- never panics, keeps exactly the operations without a change and marks the others.
    pub code_hashes_lem :
        (keccak : Bytes → ℕ) (gc : Address → Result E Bytes) (not_found : E) (db : Store)
        (changed : AiOperation → Bool) (c : BatchHandlerCtx)
        → All
            (λ op.
              (chs : List CodeHash) × (lookup (hash op) db ≡ some chs)
              × (has_code_hash_changes keccak gc chs ≡ ok (changed op)))
            c.batch
        → code_hashes keccak gc not_found db c
          ≡ some (
              ok (
                tt,
                record c {
                  batch = keep (λ op. not (changed op)) c.batch;
                  pending_removal =
                      c.pending_removal
                      ++ items "code hash changed" (reverse (keep changed c.batch));
                },
              ))
    unfolding code_hashes
    code_hashes_lem keccak gc not_found db changed c all =
        (sweep-by (code_hashes_step keccak gc not_found db) "code hash changed" (λ _. Unit {0}) _
          changed judge tt c all tt).2
      where
        judge :
            (i : ℕ) (u : Unit {0}) (op : AiOperation)
            → ((chs : List CodeHash) × (lookup (hash op) db ≡ some chs)
                × (has_code_hash_changes keccak gc chs ≡ ok (changed op)))
            → Unit {0}
            → (u' : Unit {0}) × Unit {0}
              × (code_hashes_step keccak gc not_found db i u op ≡ ok (u', changed op))
        judge i u op (chs, stored, same) _ =
            (tt, tt, rw (stored, same, code_hashes_step, get_saved_code_hashes))

    -- Clean: the operations of the batch and those to be removed.
    unfoldable pub clean : Option E → Store → BatchHandlerCtx → Result E Store
    unfolding remove_saved_code_hashes
    clean commit db ctx = remove_saved_code_hashes commit db (map hash (held ctx))

    -- Clean forgets the code hashes of every operation that the context holds, in the batch or marked
    -- for removal, and no others. If the database does not commit, nothing is forgotten.
    clean_lem :
        (commit : Option E) (db : Store) (c : BatchHandlerCtx)
        → ((e : E) × (commit ≡ some e) × (clean commit db c ≡ err e))
          ⊎ ((commit ≡ none)
              × ((db' : Store) × (clean commit db c ≡ ok db')
                  × ((k : ℕ)
                      → lookup k db'
                        ≡ (if contains (map hash (held c)) k then none else lookup k db))))
    unfolding clean
    clean_lem none db c = inr (
      refl,
      (delete_all (map hash (held c)) db, refl, λ k. lookup-delete_all k (map hash (held c)) db),
    )
    clean_lem (some e) db c = inl (e, refl, refl)
