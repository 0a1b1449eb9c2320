-- ===== src/Gas/Estimate/Search.antt =====
-- The binary search of EstimateGas: it ends, what it finds was probed, and how near it is.
use aiops_bundler.Base.{
  ℕ, zero, suc, ◌+◌, ◌-◌, ◌*◌, ◌/◌, ◌≤◌, ◌<◌, Option, none, some, ◌≡◌, ◌≢◌, refl, ◌∙◌, sym, ap, ◌⊎◌,
  inl, inr, arith,
}
use aiops_bundler.Base.Tests.{ltb, leb, leb→le, leb-false→lt, Bool-cases}
use aiops_bundler.Base.Result.{Result, ok, err, Result-cases}
use aiops_bundler.Gas.Estimate.{
  fall_back_binary_search_cutoff, Way, lower, higher, stop, Probe, search, search_fuel, int64_div,
}

abbrev pub pow2 : ℕ → ℕ
pow2 zero = 1
pow2 (suc n) = 2 * pow2 n

abbrev middle : ℕ → ℕ → ℕ
middle l r = (l + r) / 2

pub some-eq {ℓ} : {A : Type ℓ} {a b : A} → some a ≡ some b → a ≡ b
some-eq e = cc

Way-cases : (w : Way) → (w ≡ lower) ⊎ (w ≡ higher) ⊎ (w ≡ stop)
Way-cases lower = inl refl
Way-cases higher = inr (inl refl)
Way-cases stop = inr (inr refl)

halved :
    (m l r : ℕ)
    → r - l < 30000 * pow2 (suc m)
    → 30000 ≤ r - l
    → (middle l r - 1 - l < 30000 * pow2 m) × (r - (middle l r + 1) < 30000 * pow2 m)
halved m l r h w = (omega arith, omega arith)

-- For ends in int64 the middle is computed exactly, unless their sum wraps.
middle-cases :
    (l r : ℕ)
    → l + r < 18446744073709551615
    → (int64_div (l + r) 2 ≡ some (middle l r))
      ⊎ ((9223372036854775808 ≤ l + r) × (int64_div (l + r) 2 ≡ none))
middle-cases l r h = elim (Bool-cases (ltb (l + r) 9223372036854775808)) [
  | inl b ↦ inl (ground arith)
  | inr b ↦ inr (ground arith, ground arith)
]

module _ {ℓ} {E : Type ℓ} (refused : E) (probe : ℕ → Probe E) (way : E → Way) where
  abbrev Found : Type ℓ
  Found = Result E (ℕ × Option E)

  -- A statement on a search's range, last success, last error and result that holds of a small range,
  -- and of a range if it holds of the half that a probe leaves.
  abbrev IsSearchable {μ} : (ℕ → ℕ → ℕ → Option E → Found → Type μ) → Type (ℓ ⊔ μ)
  IsSearchable P =
      ((l r f : ℕ) (e : Option E) → r - l < 30000 → P l r f e (ok (f, e)))
      × ((l r f : ℕ) (e : Option E) (res : Found)
          → 30000 ≤ r - l
          → probe (middle l r) ≡ ok (ok tt)
          → P l (middle l r - 1) (middle l r) none res
          → P l r f e res)
      × ((l r f : ℕ) (e : Option E) (x : E) (res : Found)
          → 30000 ≤ r - l
          → probe (middle l r) ≡ ok (err x)
          → way x ≡ lower
          → P l (middle l r - 1) f (some x) res
          → P l r f e res)
      × ((l r f : ℕ) (e : Option E) (x : E) (res : Found)
          → 30000 ≤ r - l
          → probe (middle l r) ≡ ok (err x)
          → way x ≡ higher
          → P (middle l r + 1) r f (some x) res
          → P l r f e res)
      × ((l r f : ℕ) (e : Option E) → 9223372036854775808 ≤ l + r → P l r f e (err refused))
      × ((l r f : ℕ) (e : Option E) (x : E) → probe (middle l r) ≡ err x → P l r f e (err x))
      × ((l r f : ℕ) (e : Option E) (x : E)
          → probe (middle l r) ≡ ok (err x)
          → way x ≡ stop
          → P l r f e (err x))

  -- A range that is below the cutoff after `n` halvings is searched within `n + 1` rounds, and the
  -- result satisfies every such statement.
  search-induction {μ} :
      (P : ℕ → ℕ → ℕ → Option E → Found → Type μ)
      → IsSearchable P
      → (n l r f : ℕ) (e : Option E) → r < 9223372036854775808
      → r - l < 30000 * pow2 n
      → (res : Found) × (search refused probe way (suc n) l r f e ≡ some res) × P l r f e res
  unfolding search
  search-induction P s zero l r f e top h =
      elim (Bool-cases (leb fall_back_binary_search_cutoff (r - l))) [
        | inr small ↦ (ok (f, e), rw (search, small) refl, s.0 l r f e (ground arith))
        | inl large ↦ absurd (let wide = leb→le _ _ large in omega arith)
      ]
  search-induction P s (suc m) l r f e top h =
      elim (Bool-cases (leb fall_back_binary_search_cutoff (r - l))) [
        | inr small ↦ (ok (f, e), rw (search, small) refl, s.0 l r f e (ground arith))
        | inl large ↦
            let wide = leb→le _ _ large in
            elim (middle-cases l r (omega arith)) [
              | inr (over, q) ↦ (err refused, rw (search, large, q) refl, s.4 l r f e over)
              | inl q ↦ elim (Result-cases (probe (middle l r))) [
                | inr (x, p) ↦ (err x, rw (search, large, q, p) refl, s.5 l r f e x p)
                | inl (ok u, p) ↦
                    let below = halved m l r h wide in
                    let (res, found, holds) =
                      search-induction P s m l (middle l r - 1) (middle l r) none (omega arith)
                        below.0 in
                    (res, rw (search, large, q, p) found, s.1 l r f e res wide p holds)
                | inl (err x, p) ↦
                    let below = halved m l r h wide in
                    elim (Way-cases (way x)) [
                      | inl w ↦
                          let (res, found, holds) =
                            search-induction P s m l (middle l r - 1) f (some x) (omega arith)
                              below.0 in
                          (res, rw (search, large, q, p, w) found, s.2 l r f e x res wide p w holds)
                      | inr (inl w) ↦
                          let (res, found, holds) =
                            search-induction P s m (middle l r + 1) r f (some x) top below.1 in
                          (res, rw (search, large, q, p, w) found, s.3 l r f e x res wide p w holds)
                      | inr (inr w) ↦ (err x, rw (search, large, q, p, w) refl, s.6 l r f e x p w)
                    ]
              ]
            ]
      ]

  -- A found number is the one the search started with, or was probed with success.
  abbrev Probed : ℕ → ℕ → ℕ → Option E → Found → Type ℓ
  Probed l r f e res =
      (g : ℕ) (x : Option E)
      → res ≡ ok (g, x)
      → (g ≡ f) ⊎ ((probe g ≡ ok (ok tt)) × ((l ≤ g) × (g ≤ r)))

  Probed-IsSearchable : IsSearchable Probed
  Probed-IsSearchable = (
    λ l r f e w g x q. inl cc,
    λ l r f e res w p k g x q. elim (k g x q) [
      | inl same ↦ inr (ap probe same ∙ p, omega arith)
      | inr (pg, between) ↦ inr (pg, omega arith)
    ],
    λ l r f e y res w p d k g x q. elim (k g x q) [
      | inl same ↦ inl same
      | inr (pg, between) ↦ inr (pg, omega arith)
    ],
    λ l r f e y res w p d k g x q. elim (k g x q) [
      | inl same ↦ inl same
      | inr (pg, between) ↦ inr (pg, omega arith)
    ],
    λ l r f e over g x q. absurd (ground arith),
    λ l r f e y p g x q. absurd (ground arith),
    λ l r f e y p d g x q. absurd (ground arith),
  )

  pub search_lem :
      (l r f : ℕ) (e : Option E)
      → r < 9223372036854775808
      → (res : Found) × (search refused probe way search_fuel l r f e ≡ some res)
        × Probed l r f e res
  search_lem l r f e h = search-induction Probed Probed-IsSearchable 63 l r f e h (omega arith)

  -- The search ends on every range of int64.
  search-total :
      (l r f : ℕ) (e : Option E)
      → r < 9223372036854775808
      → (res : Found) × (search refused probe way search_fuel l r f e ≡ some res)
  search-total l r f e h = let (res, found, _) = search_lem l r f e h in (res, found)

  -- A number that the search returns is the one that it started with, or one between the ends whose
  -- probe succeeded.
  pub search_sound :
      (l r f : ℕ) (e : Option E) (g : ℕ) (x : Option E)
      → r < 9223372036854775808
      → search refused probe way search_fuel l r f e ≡ some (ok (g, x))
      → (g ≡ f) ⊎ ((probe g ≡ ok (ok tt)) × ((l ≤ g) × (g ≤ r)))
  search_sound l r f e g x h q =
      let (res, found, sound) = search_lem l r f e h in sound g x (some-eq (sym found ∙ q))

  -- Probes of at least `t` succeed, and the others fail with an error that sends the search higher.
  abbrev pub IsThreshold : ℕ → Type ℓ
  IsThreshold t =
      ((m : ℕ) → t ≤ m → probe m ≡ ok (ok tt))
      × ((m : ℕ) → m < t → (x : E) × (probe m ≡ ok (err x)) × (way x ≡ higher))

  abbrev Near : ℕ → ℕ → ℕ → ℕ → ℕ → Option E → Found → Type ℓ
  Near t end l r f e res =
      l ≤ t
      → r ≤ end
      → ((f ≡ 0) × (r ≡ end)) ⊎ ((t ≤ f) × (f ≡ r + 1))
      → (g : ℕ) × ((x : Option E) × (res ≡ ok (g, x)))
        × (((g ≡ 0) × (end < t + 30000)) ⊎ ((t ≤ g) × (g ≤ t + 30000)))

  above : (t m : ℕ) → IsThreshold t → probe m ≡ ok (ok tt) → t ≤ m
  above t m th p = elim (Bool-cases (leb t m)) [
    | inl h ↦ leb→le _ _ h
    | inr h ↦
        absurd (let (x, e, w) = th.1 m (leb-false→lt _ _ h) in let bad = sym p ∙ e in ground arith)
  ]

  below :
      (t m : ℕ) (o : Probe E)
      → IsThreshold t
      → probe m ≡ o
      → o ≢ ok (ok tt)
      → (m < t) × ((x : E) × (o ≡ ok (err x)) × (way x ≡ higher))
  below t m o th p fails = elim (Bool-cases (leb t m)) [
    | inl h ↦ absurd (fails (sym p ∙ th.0 m (leb→le _ _ h)))
    | inr h ↦ let lt = leb-false→lt _ _ h in let (x, e, w) = th.1 m lt in (lt, (x, sym p ∙ e, w))
  ]

  Near-IsSearchable :
      (t end : ℕ) → IsThreshold t → end < 4611686018427387904 → t ≤ end → IsSearchable (Near t end)
  Near-IsSearchable t end th top room = (
    λ l r f e w lt rt i. (f, (e, refl), ground arith),
    λ l r f e res w p k lt rt i. k lt (omega arith) (inr (above t _ th p, omega arith)),
    λ l r f e y res w p d k lt rt i.
        let (_, (x, q, u)) = below t _ _ th p (λ bad. ground arith) in
        absurd (let same : y ≡ x = cc in let clash = sym d ∙ (ap way same ∙ u) in ground arith),
    λ l r f e y res w p d k lt rt i.
        let (lt', _) = below t _ _ th p (λ bad. ground arith) in k (omega arith) rt i,
    λ l r f e over lt rt i. absurd (omega arith),
    λ l r f e y p lt rt i.
        let (_, (x, q, u)) = below t _ _ th p (λ bad. ground arith) in absurd (ground arith),
    λ l r f e y p d lt rt i.
        let (_, (x, q, u)) = below t _ _ th p (λ bad. ground arith) in
        absurd (let same : y ≡ x = cc in let clash = sym d ∙ (ap way same ∙ u) in ground arith),
  )

  -- When a limit is enough exactly from `t` gas on, which is at least the cutoff below an upper end of
  -- less than 2 ^ 62, the search from 0 finds one that is enough and at most 30000 gas more than the
  -- least.
  pub search-near :
      (t end : ℕ)
      → IsThreshold t
      → end < 4611686018427387904
      → t + 30000 ≤ end
      → (g : ℕ) × ((x : Option E) × (search refused probe way search_fuel 0 end 0 none
            ≡ some (ok (g, x))))
        × ((t ≤ g) × (g ≤ t + 30000))
  search-near t end th h room =
      let (res, found, near) =
        search-induction (Near t end) (Near-IsSearchable t end th h (omega arith)) 63 0 end 0 none
          (omega arith) (omega arith) in
      let (g, (x, e), close) = near (omega arith) (omega arith) (inl (refl, refl)) in
      (g, (x, found ∙ ap some e), ground arith)
