-- ===== src/Batch/StableSort.antt =====
-- sort.SliceStable. The standard library sorts blocks of 20 elements by insertion, as here, and then
-- merges the blocks; for a strict weak order the result is the same at every length.
use mathlib.Core.List.{reverse, reverse-cons, append-nil, append_assoc, perm_middle, reverse_perm}
use mathlib.Core.List.Perm
use aiops_bundler.Base.{
  ◌≡◌, refl, sym, ap, ◌∙◌, inl, inr, Bool, true, false, List, [], ◌∷◌, ◌++◌, Perm, arith,
}
use aiops_bundler.Base.Tests.{if◌then◌else◌, Bool-cases}
use aiops_bundler.Base.Lists.{keep, keep-append}

module _ {ℓ} {A : Type ℓ} (less : A → A → Bool) where
  -- One round of the insertion sort: `x` moves left over the sorted part, which is kept with its last
  -- element first, while it is less than its neighbour.
  unfoldable pub insert_back : A → List A → List A
  insert_back x [] = x ∷ []
  insert_back x (y ∷ ys) = if less x y then y ∷ insert_back x ys else x ∷ y ∷ ys

  unfoldable pub insertion_loop : List A → List A → List A
  insertion_loop done [] = reverse done
  insertion_loop done (x ∷ xs) = insertion_loop (insert_back x done) xs

  unfoldable pub slice_stable : List A → List A
  unfolding insert_back insertion_loop
  slice_stable xs = insertion_loop [] xs

  insert_back-perm : (x : A) (ys : List A) → Perm (insert_back x ys) (x ∷ ys)
  unfolding insert_back
  insert_back-perm x [] = Perm.rfl
  insert_back-perm x (y ∷ ys) = elim (Bool-cases (less x y)) [
    | inl e ↦ rw e (Perm.trans (Perm.cons y (insert_back-perm x ys)) (Perm.swap x y ys))
    | inr e ↦ rw e Perm.rfl
  ]

  insertion_loop-perm : (done xs : List A) → Perm (insertion_loop done xs) (done ++ xs)
  unfolding insertion_loop
  insertion_loop-perm done [] = rw (append-nil done) (reverse_perm done)
  insertion_loop-perm done (x ∷ xs) = Perm.trans (insertion_loop-perm (insert_back x done) xs) (
      Perm.trans (Perm.append_right xs (insert_back-perm x done)) (Perm.symm (perm_middle done xs)))

  -- The sort only reorders.
  pub slice_stable-perm : (xs : List A) → Perm (slice_stable xs) xs
  unfolding slice_stable
  slice_stable-perm xs = insertion_loop-perm [] xs

  -- No element is less than the one before it.
  abbrev pub NoDescent : List A → Type 0
  NoDescent [] = Unit
  NoDescent (x ∷ []) = Unit
  NoDescent (x ∷ y ∷ ys) = (less y x ≡ false) × NoDescent (y ∷ ys)

  -- The same of a list that is kept with its last element first.
  abbrev NoDescentBack : List A → Type 0
  NoDescentBack [] = Unit
  NoDescentBack (x ∷ []) = Unit
  NoDescentBack (x ∷ y ∷ ys) = (less x y ≡ false) × NoDescentBack (y ∷ ys)

  NoDescent-reverse :
      (y z : A) (ys zs : List A)
      → NoDescentBack (y ∷ ys)
      → less z y ≡ false
      → NoDescent (z ∷ zs)
      → NoDescent (reverse (y ∷ ys) ++ z ∷ zs)
  NoDescent-reverse y z [] zs b h f = (h, f)
  NoDescent-reverse y z (x ∷ xs) zs b h f =
      rw (reverse-cons y (x ∷ xs), append_assoc (reverse (x ∷ xs)) (y ∷ []) (z ∷ zs))
        (NoDescent-reverse x y xs (z ∷ zs) b.1 b.0 (h, f))

  NoDescent-reverse_all : (ys : List A) → NoDescentBack ys → NoDescent (reverse ys)
  NoDescent-reverse_all [] b = tt
  NoDescent-reverse_all (y ∷ []) b = tt
  NoDescent-reverse_all (y ∷ x ∷ xs) b =
      rw (reverse-cons y (x ∷ xs)) (NoDescent-reverse x y xs [] b.1 b.0 tt)

  module _ (asym : (x y : A) → less x y ≡ true → less y x ≡ false) where
    insert_back-NoDescent :
        (x : A) (ys : List A) → NoDescentBack ys → NoDescentBack (insert_back x ys)
    unfolding insert_back
    insert_back-NoDescent x [] b = tt
    insert_back-NoDescent x (y ∷ []) b = elim (Bool-cases (less x y)) [
      | inl e ↦ rw e (asym x y e, tt)
      | inr e ↦ rw e (e, tt)
    ]
    insert_back-NoDescent x (y ∷ z ∷ zs) b = elim (Bool-cases (less x y)) [
      | inr e ↦ rw e (e, b)
      | inl e ↦ elim (Bool-cases (less x z)) [
        | inl f ↦ rw (e, f) (let t = rw f at (insert_back-NoDescent x (z ∷ zs) b.1) in (b.0, t))
        | inr f ↦
            rw (e, f) (let t = rw f at (insert_back-NoDescent x (z ∷ zs) b.1) in (asym x y e, t))
      ]
    ]

    insertion_loop-NoDescent :
        (done xs : List A) → NoDescentBack done → NoDescent (insertion_loop done xs)
    unfolding insertion_loop
    insertion_loop-NoDescent done [] b = NoDescent-reverse_all done b
    insertion_loop-NoDescent done (x ∷ xs) b =
        insertion_loop-NoDescent (insert_back x done) xs (insert_back-NoDescent x done b)

    -- Of two neighbours in the result the second is not less, if the order is asymmetric.
    pub slice_stable-NoDescent : (xs : List A) → NoDescent (slice_stable xs)
    unfolding slice_stable
    slice_stable-NoDescent xs = insertion_loop-NoDescent [] xs tt

  module _ (p : A → Bool) (apart : (x y : A) → less x y ≡ true → p x ≡ true → p y ≡ false) where
    keep_pair : (x y : A) → less x y ≡ true → keep p (x ∷ y ∷ []) ≡ keep p (y ∷ x ∷ [])
    keep_pair x y h = ground (arith, apart x y h)

    insert_back-keep :
        (x : A) (ys : List A)
        → keep p (reverse (insert_back x ys)) ≡ keep p (reverse ys) ++ keep p (x ∷ [])
    unfolding insert_back
    insert_back-keep x [] = refl
    insert_back-keep x (y ∷ ys) = elim (Bool-cases (less x y)) [
      | inl e ↦
          rw
            (
              e,
              reverse-cons y (insert_back x ys),
              keep-append p (reverse (insert_back x ys)) (y ∷ []),
              insert_back-keep x ys,
              reverse-cons y ys,
              keep-append p (reverse ys) (y ∷ []),
              append_assoc (keep p (reverse ys)) (keep p (x ∷ [])) (keep p (y ∷ [])),
              append_assoc (keep p (reverse ys)) (keep p (y ∷ [])) (keep p (x ∷ [])),
              ← keep-append p (x ∷ []) (y ∷ []),
              ← keep-append p (y ∷ []) (x ∷ []),
            )
            (ap (λ t. keep p (reverse ys) ++ t) (keep_pair x y e))
      | inr e ↦ rw (e, reverse-cons x (y ∷ ys)) (keep-append p (reverse (y ∷ ys)) (x ∷ []))
    ]

    insertion_loop-keep :
        (done xs : List A) → keep p (insertion_loop done xs) ≡ keep p (reverse done) ++ keep p xs
    unfolding insertion_loop
    insertion_loop-keep done [] = sym (append-nil (keep p (reverse done)))
    insertion_loop-keep done (x ∷ xs) =
        insertion_loop-keep (insert_back x done) xs
        ∙ ap (λ t. t ++ keep p xs) (insert_back-keep x done)
        ∙ append_assoc (keep p (reverse done)) (keep p (x ∷ [])) (keep p xs)
        ∙ ap (λ t. keep p (reverse done) ++ t) (sym (keep-append p (x ∷ []) xs))

    -- Elements of which none is less than another keep their order.
    pub slice_stable-keep : (xs : List A) → keep p (slice_stable xs) ≡ keep p xs
    unfolding slice_stable
    slice_stable-keep xs = insertion_loop-keep [] xs
