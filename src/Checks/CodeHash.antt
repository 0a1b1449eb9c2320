-- ===== src/Checks/CodeHash.antt =====
-- Code hashes: pkg/modules/checks/codehash.go and db.go, and the batch handlers CodeHashes and Clean
-- of pkg/modules/checks/standalone.go. Keccak and the eth client are parameters. The store behind the
-- key prefix is a map from the operation's hash; JSON of the program's own struct is left out, since
-- encoding/json gives back what it was given.
use mathlib.Core.List.{append-nil, append_assoc}
use aiops_bundler.Base.{
  ℕ, ◌≡◌, refl, sym, ap, ◌∙◌, Bool, true, false, not, ◌&&◌, List, [], ◌∷◌, ◌++◌, none, some, map,
  arith,
}
use aiops_bundler.Base.Tests.{◌==◌, if◌then◌else◌}
use aiops_bundler.Base.Lists.{All}
use aiops_bundler.Base.Dict.{Dict, lookup, insert, lookup-insert}
use aiops_bundler.Base.Result.{Result, ok, ◌>>=◌}
use aiops_bundler.Aiop.{Address, Bytes}

pub record CodeHash : Type 0 where
  pub address : Address
  pub hash : ℕ

module _ {ℓ} {E : Type ℓ} (keccak : Bytes → ℕ) (gc : Address → Result E Bytes) where
  -- getCodeHashes, with the list built so far.
  unfoldable pub get_code_hashes_loop : List Address → List CodeHash → Result E (List CodeHash)
  get_code_hashes_loop [] ret = ok ret
  get_code_hashes_loop (addr ∷ ic) ret = gc addr >>= λ bytecode.
      get_code_hashes_loop ic (ret ++ record { address = addr; hash = keccak bytecode } ∷ [])

  unfoldable pub get_code_hashes : List Address → Result E (List CodeHash)
  unfolding get_code_hashes_loop
  get_code_hashes ic = get_code_hashes_loop ic []

  -- The map `prev` of the loop: a later entry for an address replaces an earlier one.
  unfoldable pub previous : List CodeHash → Dict ℕ → Dict ℕ
  previous [] prev = prev
  previous (ch ∷ chs) prev = previous chs (insert ch.address ch.hash prev)

  -- An address that is missing from a Go map reads as the zero hash.
  unfoldable pub differs : Dict ℕ → List CodeHash → Bool
  differs prev [] = false
  differs prev (ch ∷ curr) =
      let before : ℕ = elim (lookup ch.address prev) [ none ↦ 0 | some h ↦ h ] in
      if ch.hash == before then differs prev curr else true

  unfoldable pub has_code_hash_changes : List CodeHash → Result E Bool
  unfolding previous differs
  has_code_hash_changes chs = do
    curr ← get_code_hashes (map (λ ch. ch.address) chs)
    ok (differs (previous chs []) curr)

  -- The code hashes of contracts whose code is `code`.
  abbrev pub hashes : (Address → Bytes) → List Address → List CodeHash
  hashes code = map λ a. record { address = a; hash = keccak (code a) }

  abbrev pub same_code : (Address → Bytes) → (Address → Bytes) → List Address → Bool
  same_code old new [] = true
  same_code old new (a ∷ ic) = (keccak (new a) == keccak (old a)) && same_code old new ic

  pub get_code_hashes_loop_lem :
      (code : Address → Bytes) (ic : List Address) (ret : List CodeHash)
      → All (λ a. gc a ≡ ok (code a)) ic
      → get_code_hashes_loop ic ret ≡ ok (ret ++ hashes code ic)
  unfolding get_code_hashes_loop
  get_code_hashes_loop_lem code [] ret h = ap ok (sym (append-nil ret))
  get_code_hashes_loop_lem code (a ∷ ic) ret h = rw h.0 (
      get_code_hashes_loop_lem code ic (ret ++ record { address = a; hash = keccak (code a) } ∷ [])
        h.1
      ∙ ap ok (append_assoc ret (record { address = a; hash = keccak (code a) } ∷ []) _))

  previous_kept :
      (old : Address → Bytes) (ic : List Address) (prev : Dict ℕ) (a : Address)
      → lookup a prev ≡ some (keccak (old a))
      → lookup a (previous (hashes old ic) prev) ≡ some (keccak (old a))
  unfolding previous
  previous_kept old [] prev a h = h
  previous_kept old (b ∷ ic) prev a h =
      previous_kept old ic (insert b (keccak (old b)) prev) a
        (ground (arith, lookup-insert b a (keccak (old b)) prev))

  previous-All :
      (old : Address → Bytes) (ic : List Address) (prev : Dict ℕ)
      → All (λ a. lookup a (previous (hashes old ic) prev) ≡ some (keccak (old a))) ic
  unfolding previous
  previous-All old [] prev = tt
  previous-All old (b ∷ ic) prev = (
    previous_kept old ic (insert b (keccak (old b)) prev) b
        (ground (arith, lookup-insert b b (keccak (old b)) prev)),
    previous-All old ic (insert b (keccak (old b)) prev),
  )

  differs_lem :
      (old new : Address → Bytes) (ic : List Address) (prev : Dict ℕ)
      → All (λ a. lookup a prev ≡ some (keccak (old a))) ic
      → differs prev (hashes new ic) ≡ not (same_code old new ic)
  unfolding differs
  differs_lem old new [] prev h = refl
  differs_lem old new (a ∷ ic) prev h = ground (arith, h.0, differs_lem old new ic prev h.1)

  -- Compared with the hashes that were saved for the code `old`, a change is reported exactly if the
  -- hash of some contract's code is another one now.
  pub has_code_hash_changes_lem :
      (old new : Address → Bytes) (ic : List Address)
      → All (λ a. gc a ≡ ok (new a)) ic
      → has_code_hash_changes (hashes old ic) ≡ ok (not (same_code old new ic))
  unfolding has_code_hash_changes get_code_hashes
  has_code_hash_changes_lem old new ic h =
      rw (addresses ic, get_code_hashes_loop_lem new ic [] h)
        (ap ok (differs_lem old new ic _ (previous-All old ic [])))
    where
      addresses : (ic : List Address) → map (λ (ch : CodeHash). ch.address) (hashes old ic) ≡ ic
      addresses [] = refl
      addresses (a ∷ ic) = ap (◌∷◌ a) (addresses ic)
