-- ===== src/Base/Run.antt =====
-- How a Go call ends, and the rules for calls that end well.
use mathlib.Core.Path.{◌≡◌, refl, sym, subst, ◌∙◌}
use mathlib.Core.Logic.{◌⊎◌, inl, inr}
use mathlib.Core.Option.{Option, none, some}

-- A returned value, a run-time panic, or the end of the fuel that bounds a loop in the model.
pub data Run {ℓ} (A : Type ℓ) : Type ℓ where
  ok : A → Run A
  panic : Run A
  out_of_fuel : Run A

infixl 5 ◌>>=◌
abbrev pub ◌>>=◌ {ℓ κ} : {A : Type ℓ} {B : Type κ} → Run A → (A → Run B) → Run B
ok a >>= f = f a
panic >>= f = panic
out_of_fuel >>= f = out_of_fuel

-- An index out of range panics.
abbrev pub or_panic {ℓ} : {A : Type ℓ} → Option A → Run A
or_panic (some a) = ok a
or_panic none = panic

-- The call returns, with a result that satisfies `P`.
abbrev pub Returns {ℓ κ} : {A : Type ℓ} → (A → Type κ) → Run A → Type (ℓ ⊔ κ)
Returns {A} P r = (a : A) × (r ≡ ok a) × P a

pub Returns-map {ℓ κ μ} :
    {A : Type ℓ} {P : A → Type κ} {Q : A → Type μ} {r : Run A}
    → Returns P r
    → ((a : A) → P a → Q a)
    → Returns Q r
Returns-map (a, e, p) k = (a, e, k a p)

ok_inj {ℓ} : {A : Type ℓ} (a b : A) → ok a ≡ ok b → a ≡ b
ok_inj a b e = cc

-- What holds of the result holds of any value that the call is known to return.
pub Returns-at {ℓ κ} :
    {A : Type ℓ} (P : A → Type κ) {r : Run A} {a : A} → Returns P r → r ≡ ok a → P a
Returns-at P {a} (b, e, p) e' = subst P (ok_inj b a (sym e ∙ e')) p

pub Run-cases {ℓ} :
    {A : Type ℓ} (r : Run A) → ((a : A) × (r ≡ ok a)) ⊎ ((r ≡ panic) ⊎ (r ≡ out_of_fuel))
Run-cases (ok a) = inl (a, refl)
Run-cases panic = inr (inl refl)
Run-cases out_of_fuel = inr (inr refl)

-- The first run is out of fuel, or they are the same.
infix 4 ◌⊑◌
abbrev pub ◌⊑◌ {ℓ} : {A : Type ℓ} → Run A → Run A → Type ℓ
r ⊑ s = (r ≡ out_of_fuel) ⊎ (r ≡ s)

pub ⊑-ok {ℓ} : {A : Type ℓ} {r s : Run A} {a : A} → r ⊑ s → r ≡ ok a → s ≡ ok a
⊑-ok (inl lost) e = cc
⊑-ok (inr same) e = sym same ∙ e

pub ⊑-panic {ℓ} : {A : Type ℓ} {r s : Run A} → r ⊑ s → r ≡ panic → s ≡ panic
⊑-panic (inl lost) e = cc
⊑-panic (inr same) e = sym same ∙ e

-- If the run ends, it does so with a result that satisfies `P`; it does not panic.
abbrev pub Soundly {ℓ} : {A : Type ℓ} → (A → Type 0) → Run A → Type 0
Soundly P (ok a) = P a
Soundly P panic = ⊥
Soundly P out_of_fuel = Unit

module _ {ℓ} {A : Type ℓ} {P : A → Type 0} where
  pub Soundly-map : {Q : A → Type 0} (r : Run A) → ((a : A) → P a → Q a) → Soundly P r → Soundly Q r
  Soundly-map (ok a) f p = f a p
  Soundly-map panic f never = never
  Soundly-map out_of_fuel f p = tt

  pub Soundly-of : {r : Run A} → Returns P r → Soundly P r
  Soundly-of (a, e, p) = subst (Soundly P) (sym e) p

-- What holds of the result, if there is one.
abbrev pub IfEnds : {A : Type 0} → (A → Type 0) → Run A → Type 0
IfEnds P (ok a) = P a
IfEnds P panic = Unit
IfEnds P out_of_fuel = Unit

pub IfEnds-at : {A : Type 0} (P : A → Type 0) {r : Run A} {a : A} → IfEnds P r → r ≡ ok a → P a
IfEnds-at P p e = subst (IfEnds P) e p
