-- ===== src/Base/Dict.antt =====
-- Maps with numbers for keys, as association lists: Go maps and stores behind a key.
use Prim.Native.Nat.{ℕ}
use mathlib.Core.Path.{◌≡◌, refl}
use mathlib.Core.List.{List, [], ◌∷◌}
use mathlib.Core.Option.{Option, none, some}
use native.Mathlib.Omega.{arith}
use aiops_bundler.Base.Tests.{◌==◌, if◌then◌else◌}

abbrev pub Dict {ℓ} : Type ℓ → Type ℓ
Dict V = List (ℕ × V)

module _ {ℓ} {V : Type ℓ} where
  -- All entries of a key go, and the others keep their order.
  unfoldable pub delete : ℕ → Dict V → Dict V
  delete key [] = []
  delete key ((old, value) ∷ dict) =
      if old == key then delete key dict else (old, value) ∷ delete key dict

  -- The first entry of a key is replaced; a new key goes to the end.
  unfoldable pub insert : ℕ → V → Dict V → Dict V
  insert key new [] = (key, new) ∷ []
  insert key new ((old, value) ∷ dict) =
      if old == key then (key, new) ∷ dict else (old, value) ∷ insert key new dict

  unfoldable pub lookup : ℕ → Dict V → Option V
  lookup key [] = none
  lookup key ((old, value) ∷ dict) = if old == key then some value else lookup key dict

  pub lookup-nil : (key : ℕ) → lookup key [] ≡ none
  unfolding lookup
  lookup-nil key = refl

  pub lookup-delete :
      (gone key : ℕ) (dict : Dict V)
      → lookup key (delete gone dict) ≡ (if gone == key then none else lookup key dict)
  unfolding lookup delete
  lookup-delete gone key [] = ground arith
  lookup-delete gone key ((old, value) ∷ dict) = ground (arith, lookup-delete gone key dict)

  pub lookup-insert :
      (at key : ℕ) (new : V) (dict : Dict V)
      → lookup key (insert at new dict) ≡ (if at == key then some new else lookup key dict)
  unfolding lookup insert
  lookup-insert at key new [] = refl
  lookup-insert at key new ((old, value) ∷ dict) = ground (arith, lookup-insert at key new dict)
