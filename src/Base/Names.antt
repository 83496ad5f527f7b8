-- ===== src/Base/Names.antt =====
-- A constant found by its name.
use Prim.Native.String.{String}
use text.Mathlib.Text.{◌==◌}
use text.Mathlib.TextEquality.{eq_iff}
use Prim.Native.Nat.{ℕ, zero, suc}
use mathlib.Core.Path.{◌≡◌, sym, ap}
use mathlib.Core.Logic.{inl, inr}
use mathlib.Core.Bool.{Bool, true, false}
use mathlib.Core.List.{List, [], ◌∷◌, ◌++◌}
use mathlib.Core.Option.{some}
use dotproxy.Base.Tests.{if◌then◌else◌, Bool-cases}
use dotproxy.Base.Lists.{All, get_elem?, some_inj}

-- The loop of a parser over the constants that it knows: the first whose name is the text, when the
-- case of letters is left aside, or else the default.
unfoldable pub find_named :
    {A : Type 0} → (String → String) → (A → String) → List A → A → String → A × Bool
find_named to_lower name [] default text = (default, false)
find_named to_lower name (known ∷ rest) default text =
    if to_lower text == to_lower (name known)
    then (known, true)
    else find_named to_lower name rest default text

module _ {A : Type 0} (to_lower : String → String) (name : A → String) where
  -- The text is the constant's name, when the case of letters is left aside.
  abbrev pub Names : String → A → Type 0
  Names text a = to_lower text ≡ to_lower (name a)

  -- The result is the first constant that the text names; or none is named, and it is the default.
  pub data Found (default : A) (text : String) : List A → A × Bool → Type 0 where
    named :
        (before after : List A) (a : A)
        → All (λ b. ¬ Names text b) before
        → Names text a
        → Found default text (before ++ a ∷ after) (a, true)
    unnamed :
        (known : List A)
        → All (λ b. ¬ Names text b) known
        → Found default text known (default, false)

  Found-later :
      (default : A) (text : String) (k : A) (known : List A) (r : A × Bool)
      → ¬ Names text k
      → Found default text known r
      → Found default text (k ∷ known) r
  Found-later default text k _ _ not_k (named before after a all same) =
      named (k ∷ before) after a (not_k, all) same
  Found-later default text k _ _ not_k (unnamed known all) = unnamed (k ∷ known) (not_k, all)

  pub find_named-Found :
      (default : A) (text : String) (known : List A)
      → Found default text known (find_named to_lower name known default text)
  unfolding find_named
  find_named-Found default text [] = unnamed [] tt
  find_named-Found default text (k ∷ known) =
      let same = eq_iff (to_lower text) (to_lower (name k)) in
      elim (Bool-cases (to_lower text == to_lower (name k))) [
        | inl e ↦ rw e (named [] known k tt (same.0 e))
        | inr e ↦ rw e (
            Found-later default text k known (find_named to_lower name known default text)
              (λ is_k. absurd (cc (same.1 is_k, e))) (find_named-Found default text known))
      ]

  -- Where no two constants share a name, each known constant's own name finds it.
  pub find_named-name :
      ((a b : A) → to_lower (name a) ≡ to_lower (name b) → a ≡ b)
      → (default : A) (known : List A) (i : ℕ) (a : A) → get_elem? known i ≡ some a
      → find_named to_lower name known default (name a) ≡ (a, true)
  unfolding find_named
  find_named-name distinct default [] i a at = absurd (cc)
  find_named-name distinct default (k ∷ known) zero a at =
      let is_k = some_inj k a at in
      rw
        ((eq_iff (to_lower (name a)) (to_lower (name k))).1
          (ap (λ (b : A). to_lower (name b)) (sym is_k)))
        (ap (λ (b : A). (b, true)) is_k)
  find_named-name distinct default (k ∷ known) (suc i) a at =
      let same = eq_iff (to_lower (name a)) (to_lower (name k)) in
      elim (Bool-cases (to_lower (name a) == to_lower (name k))) [
        | inl e ↦ rw e (ap (λ (b : A). (b, true)) (sym (distinct a k (same.0 e))))
        | inr e ↦ rw e (find_named-name distinct default known i a at)
      ]
