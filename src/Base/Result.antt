-- ===== src/Base/Result.antt =====
-- Results of fallible calls: a Go pair `(value, error)` of which one is set.
use mathlib.Core.Path.{◌≡◌, refl, subst}
use mathlib.Core.Logic.{◌⊎◌, inl, inr, ◌↔◌}
use mathlib.Core.Bool.{Bool, true, false}
use mathlib.Core.Option.{Option, none, some}
use aiops_bundler.Base.Tests.{if◌then◌else◌}

pub data Result {ℓ κ} (E : Type ℓ) (A : Type κ) : Type (ℓ ⊔ κ) where
  ok : A → Result E A
  err : E → Result E A

-- A call, and what is done with its value unless it fails.
module _ {ℓ κ μ} {E : Type ℓ} {A : Type κ} {B : Type μ} where
  infixl 5 ◌>>=◌
  abbrev pub ◌>>=◌ : Result E A → (A → Result E B) → Result E B
  err failure >>= next = err failure
  ok value >>= next = next value

  pub >>=-eq-ok :
      (call : Result E A) (next : A → Result E B) {last : B}
      → (call >>= next) ≡ ok last
      → (value : A) × (call ≡ ok value) × (next value ≡ ok last)
  >>=-eq-ok (err failure) next done = cc
  >>=-eq-ok (ok value) next done = (value, refl, done)

-- The same in a form that keeps the values of a long chain apart.
pub >>=-elim {ℓ κ μ ν} :
    {E : Type ℓ} {A : Type κ} {B : Type μ} {Q : Type ν} (call : Result E A) (next : A → Result E B)
    (last : B)
    → (call >>= next) ≡ ok last
    → ((value : A) → call ≡ ok value → next value ≡ ok last → Q)
    → Q
>>=-elim (err failure) next last done rest = cc
>>=-elim (ok value) next last done rest = rest value refl done

-- The error of a missing value, and that of a failed test.
module _ {ℓ κ} {E : Type ℓ} {A : Type κ} where
  abbrev pub or_error : Option A → E → Result E A
  or_error none failure = err failure
  or_error (some value) failure = ok value

  pub or_error-eq-ok : (o : Option A) (e : E) (a : A) → (or_error o e ≡ ok a) ↔ (o ≡ some a)
  or_error-eq-ok none e a = (λ h. cc, λ h. cc)
  or_error-eq-ok (some b) e a = (λ h. cc, λ h. cc)

abbrev pub guard {ℓ} : {E : Type ℓ} → Bool → E → Result E (Unit {0})
guard true failure = ok tt
guard false failure = err failure

guard-eq-ok {ℓ} :
    {E : Type ℓ} (test : Bool) (e : E) (u : Unit {0}) → (guard test e ≡ ok u) ↔ (test ≡ true)
guard-eq-ok true e u = (λ h. refl, λ h. refl)
guard-eq-ok false e u = (λ h. cc, λ h. cc)

-- When a chain that begins with such an error, or with any call, succeeds.
module _ {ℓ κ μ ν} {E : Type ℓ} {A : Type κ} {B : Type μ} where
  pub or_error_iff :
      (o : Option A) (e : E) (next : A → Result E B) (b : B) (Q : A → Type ν)
      → ((a : A) → (next a ≡ ok b) ↔ Q a)
      → ((or_error o e >>= next) ≡ ok b) ↔ ((a : A) × (o ≡ some a) × Q a)
  or_error_iff none e next b Q h = (λ k. cc, λ k. let (a, f, q) = k in cc)
  or_error_iff (some a) e next b Q h = (
    λ k. (a, refl, (h a).0 k),
    λ k. let (a', f, q) = k in let same : a' ≡ a = cc in (h a).1 (subst Q same q),
  )

  pub call_iff :
      (call : Result E A) (next : A → Result E B) (b : B) (Q : A → Type ν)
      → ((a : A) → (next a ≡ ok b) ↔ Q a)
      → ((call >>= next) ≡ ok b) ↔ ((a : A) × (call ≡ ok a) × Q a)
  call_iff (err e) next b Q h = (λ k. cc, λ k. let (a, f, q) = k in cc)
  call_iff (ok a) next b Q h = (
    λ k. (a, refl, (h a).0 k),
    λ k. let (a', f, q) = k in let same : a' ≡ a = cc in (h a).1 (subst Q same q),
  )

pub guard_iff {ℓ μ ν} :
    {E : Type ℓ} {B : Type μ} (test : Bool) (e : E) (next : Unit {0} → Result E B) (b : B)
    (Q : Type ν)
    → (next tt ≡ ok b) ↔ Q
    → ((guard test e >>= next) ≡ ok b) ↔ ((test ≡ true) × Q)
guard_iff true e next b Q h = (λ k. (refl, h.0 k), λ k. h.1 k.1)
guard_iff false e next b Q h = (λ k. cc, λ k. let t = k.0 in cc)

pub Result-cases {ℓ κ} :
    {E : Type ℓ} {A : Type κ} (r : Result E A) → ((a : A) × (r ≡ ok a)) ⊎ ((e : E) × (r ≡ err e))
Result-cases (ok a) = inl (a, refl)
Result-cases (err e) = inr (e, refl)

-- A call succeeds, with one value, exactly under a condition.
abbrev pub Decides {ℓ κ μ} : {E : Type ℓ} {A : Type κ} → Type μ → Result E A → A → Type (ℓ ⊔ κ ⊔ μ)
Decides {E} P call value = (P × (call ≡ ok value)) ⊎ ((¬ P) × ((e : E) × (call ≡ err e)))

module _ {ℓ κ μ} {E : Type ℓ} {A : Type κ} {P : Type μ} where
  -- What a decided call says of any value that it returns.
  pub Decides-iff :
      (call : Result E A) (value other : A)
      → Decides P call value
      → (call ≡ ok other) ↔ (P × (other ≡ value))
  Decides-iff call value other (inl (p, e)) = (λ h. (p, cc), λ h. cc)
  Decides-iff call value other (inr (p, (f, e))) = (λ h. cc, λ h. absurd (p h.0))

  pub Decides-iff_map {ν} :
      {Q : Type ν} (call : Result E A) (value : A)
      → P ↔ Q
      → Decides P call value
      → Decides Q call value
  Decides-iff_map call value same (inl (p, e)) = inl (same.0 p, e)
  Decides-iff_map call value same (inr (p, failure)) = inr (λ q. p (same.1 q), failure)

  -- A test whose failure is an error, before a decided call.
  pub Decides-guard :
      (bad : Bool) (e : E) (call : Result E A) (value : A)
      → Decides P call value
      → Decides ((bad ≡ false) × P) (if bad then err e else call) value
  Decides-guard true e call value h = inr (λ q. cc, (e, refl))
  Decides-guard false e call value (inl (p, same)) = inl ((refl, p), same)
  Decides-guard false e call value (inr (p, failure)) = inr (λ q. p q.1, failure)

  -- Two calls, one after the other.
  pub Decides-then {ν ξ} :
      {B : Type ν} {Q : Type ξ} (call : Result E A) (next : A → Result E B) (value : A) (last : B)
      → Decides P call value
      → Decides Q (next value) last
      → Decides (P × Q) (call >>= next) last
  Decides-then call next value last (inl (p, e)) (inl (q, f)) = inl ((p, q), rw e f)
  Decides-then call next value last (inl (p, e)) (inr (q, (failure, f))) =
      inr (λ h. q h.1, (failure, rw e f))
  Decides-then call next value last (inr (p, (failure, e))) second =
      inr (λ h. p h.0, (failure, rw e refl))
