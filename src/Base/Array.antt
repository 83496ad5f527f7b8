-- ===== src/Base/Array.antt =====
-- Lists as arrays: exchanging two entries. Meant to be used qualified, `Array.swap`.
use Prim.Native.Nat.{ℕ, zero, suc, ◌<◌}
use mathlib.Core.Path.{◌≡◌, refl}
use mathlib.Core.List.{List, [], ◌∷◌, ◌++◌, Perm}
use mathlib.Core.List.Perm
use mathlib.Core.Option.{none, some}
use native.Mathlib.Omega.{arith}
use dotproxy.Base.Tests.{◌==◌, if◌then◌else◌}
use dotproxy.Base.Lists.{length, get_elem?, set, take, get_elem?-in, length-set}

module _ {ℓ} {A : Type ℓ} where
  -- Exchange two entries; nothing happens out of bounds.
  pub swap : List A → ℕ → ℕ → List A
  swap xs i j = elim (get_elem? xs i) [
    | none ↦ xs
    | some x ↦ elim (get_elem? xs j) [ none ↦ xs | some y ↦ set (set xs i y) j x ]
  ]

  pub swap_at :
      (xs : List A) (i j : ℕ) {x y : A}
      → get_elem? xs i ≡ some x
      → get_elem? xs j ≡ some y
      → swap xs i j ≡ set (set xs i y) j x
  unfolding swap
  swap_at xs i j p q = ground arith

  pub get_elem?-set :
      (xs : List A) (i j : ℕ) (v : A)
      → i < length xs
      → get_elem? (set xs i v) j ≡ (if i == j then some v else get_elem? xs j)
  get_elem?-set [] i j v h = absurd (omega arith)
  get_elem?-set (x ∷ xs) zero zero v h = refl
  get_elem?-set (x ∷ xs) zero (suc j) v h = ground arith
  get_elem?-set (x ∷ xs) (suc i) zero v h = ground arith
  get_elem?-set (x ∷ xs) (suc i) (suc j) v h = ground (arith, get_elem?-set xs i j v)

  -- A write trades the old entry for the new one.
  set-perm :
      (xs : List A) (i : ℕ) (old new : A)
      → get_elem? xs i ≡ some old
      → Perm (old ∷ set xs i new) (new ∷ xs)
  set-perm [] i old new h = absurd (cc)
  set-perm (x ∷ xs) zero old new h = let e : x ≡ old = cc in rw e (Perm.swap new old xs)
  set-perm (x ∷ xs) (suc i) old new h =
      Perm.trans (Perm.swap x old _)
        (Perm.trans (Perm.cons x (set-perm xs i old new h)) (Perm.swap new x xs))

  module _ (xs : List A) (i j : ℕ) (hi : i < length xs) (hj : j < length xs) where
    pub get_elem?-swap :
        (c : ℕ)
        → get_elem? (swap xs i j) c
          ≡ (if j == c then get_elem? xs i else if i == c then get_elem? xs j else get_elem? xs c)
    get_elem?-swap c =
        let (x, p) = get_elem?-in xs i hi in
        let (y, q) = get_elem?-in xs j hj in
        rw (
          swap_at xs i j p q,
          get_elem?-set (set xs i y) j c x (rw (length-set xs i y) hj),
          get_elem?-set xs i c y hi,
          p,
          q,
        )

    pub swap-perm : Perm (swap xs i j) xs
    swap-perm =
        let (x, p) = get_elem?-in xs i hi in
        let (y, q) = get_elem?-in xs j hj in
        let kept : get_elem? (set xs i y) j ≡ some y = ground (arith, get_elem?-set xs i j y) in
        rw (swap_at xs i j p q)
          (Perm.cons_inv (Perm.trans (set-perm (set xs i y) j y x kept) (set-perm xs i x y p)))

  -- All but the last entry, and the last one.
  pub take-append_last :
      (n : ℕ) (xs : List A) (x : A)
      → length xs ≡ suc n
      → get_elem? xs n ≡ some x
      → take n xs ++ x ∷ [] ≡ xs
  take-append_last n [] x h e = absurd (omega arith)
  take-append_last zero (y ∷ []) x h e = cc
  take-append_last zero (y ∷ z ∷ xs) x h e = absurd (omega arith)
  take-append_last (suc n) (y ∷ xs) x h e = rw (take-append_last n xs x (omega arith) e)
