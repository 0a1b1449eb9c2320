-- ===== src/Modules/Compose.antt =====
-- The composition of handlers (pkg/modules/compose.go).
use aiops_bundler.Base.{◌≡◌, refl, subst, List, [], ◌∷◌, ◌++◌}
use aiops_bundler.Base.Lists.{All}
use aiops_bundler.Base.Result.{ok, err, ◌>>=◌, >>=-eq-ok}
use aiops_bundler.Modules.{Handler, compose_handlers}

module _ {ℓ κ} {E : Type ℓ} {S : Type κ} where
  -- Composed stacks run one after the other: the second only if no handler of the first failed.
  compose_handlers-append :
      (fs gs : List (Handler E S)) (s : S)
      → compose_handlers (fs ++ gs) s ≡ (compose_handlers fs s >>= compose_handlers gs)
  unfolding compose_handlers
  compose_handlers-append [] gs s = refl
  compose_handlers-append (f ∷ fs) gs s =
      elim (f s)
        as (λ r.
          (r >>= compose_handlers (fs ++ gs))
          ≡ ((r >>= compose_handlers fs) >>= compose_handlers gs)) [
            | ok t ↦ compose_handlers-append fs gs t
            | err e ↦ refl
          ]

  -- A relation between the states before and after that every handler keeps.
  abbrev pub Keeps {μ} : (S → S → Type μ) → Handler E S → Type (ℓ ⊔ κ ⊔ μ)
  Keeps R f = (s t : S) → f s ≡ ok t → R s t

  -- A reflexive and transitive relation that every handler keeps is kept by the composition.
  pub compose_handlers-Keeps {μ} :
      (R : S → S → Type μ)
      → ((s : S) → R s s)
      → ((s t u : S) → R s t → R t u → R s u)
      → (fs : List (Handler E S)) → All (Keeps R) fs
      → (s t : S) → compose_handlers fs s ≡ ok t
      → R s t
  unfolding compose_handlers
  compose_handlers-Keeps R idle chain [] h s t e =
      let same : s ≡ t = cc in subst (R s) same (idle s)
  compose_handlers-Keeps R idle chain (f ∷ fs) h s t e =
      let (u, first, rest) = >>=-eq-ok (f s) (λ v. compose_handlers fs v) e in
      chain s u t (h.0 s u first) (compose_handlers-Keeps R idle chain fs h.1 u t rest)
