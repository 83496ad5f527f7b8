-- ===== src/Data/Mru/Sorted.antt =====
-- internal/data/mru.go: all the values of an MRU queue, taken one after another.
use mathlib.Core.List.Perm
use dotproxy.Base.{
  ℕ, zero, suc, ◌≡◌, refl, ap₂, sym, List, [], ◌∷◌, Perm, some, map, arith, length, length-map,
  length-perm, map-empty, subst, true, All,
}
use mathlib.Core.List.{Permᴰ}
use mathlib.Core.Logic.{∥∥₁_elim}
use native.Mathlib.Bridge.{le_prop}
use dotproxy.Base.Int.{ℤ, ◌≤ℤ◌}
use dotproxy.Base.Run.{Run, ok, ◌>>=◌, Returns}
use dotproxy.Base.Time.{of_unix}
use dotproxy.Data.PriorityQueue.Contract.{entry_of}
use dotproxy.Data.Mru.{MruQueue, Pop, pop}
use dotproxy.Data.Mru.Laws.{held, IsValid, pop-Popped}

module _ {A : Type 0} where
  -- So many calls of Pop, and what they gave.
  unfoldable pub pops : ℕ → MruQueue A → Run (MruQueue A × List (Pop A))
  pops zero m = ok (m, [])
  pops (suc n) m = do r ← pop m; rest ← pops n r.0; ok (rest.0, r.1 ∷ rest.1)

  -- The latest seconds come first.
  abbrev pub IsDescending : List (A × ℤ) → Type 0
  IsDescending [] = Unit
  IsDescending (e ∷ es) = All (λ d. d.1 ≤ℤ e.1) es × IsDescending es

  abbrev pub given : A × ℤ → Pop A
  given e = record { value = some e.0; time = of_unix e.1; found = true }

  All-le_prop : (p : ℤ) (es : List (A × ℤ)) → IsProp (All (λ e. e.1 ≤ℤ p) es)
  All-le_prop p [] = hlevel
  All-le_prop p (e ∷ es) = hlevel (le_prop, All-le_prop p es)

  All-permᴰ :
      (p : ℤ) {es fs : List (A × ℤ)} → Permᴰ es fs → All (λ e. e.1 ≤ℤ p) es → All (λ e. e.1 ≤ℤ p) fs
  All-permᴰ p (Permᴰ.trans q r) all = All-permᴰ p r (All-permᴰ p q all)
  All-permᴰ p (Permᴰ.swap x y) all =
      (subst (λ e. e.1 ≤ℤ p) y all.1.0, (subst (λ e. e.1 ≤ℤ p) x all.0, all.1.1))
  All-permᴰ p (Permᴰ.cons x rest) all = (subst (λ e. e.1 ≤ℤ p) x all.0, All-permᴰ p rest all.1)
  All-permᴰ p Permᴰ.nil all = tt

  All-perm :
      (p : ℤ) {es fs : List (A × ℤ)} → Perm es fs → All (λ e. e.1 ≤ℤ p) es → All (λ e. e.1 ≤ℤ p) fs
  All-perm p {fs} perm all = ∥∥₁_elim perm (All-le_prop p fs) (λ d. All-permᴰ p d all)

  pub given-of :
      (r : Pop A) (e : A × ℤ)
      → r.value ≡ some e.0
      → r.time ≡ of_unix e.1
      → r.found ≡ true
      → r ≡ given e
  given-of r e value time found = λ i. record { value = value i; time = time i; found = found i }

  -- The values that a queue of `n` gives, and the queue after them.
  abbrev Drained : MruQueue A → MruQueue A × List (Pop A) → Type 0
  Drained m r =
      IsValid r.0
      × (held r.0 ≡ [])
      × ((es : List (A × ℤ)) × Perm es (held m) × IsDescending es × (r.1 ≡ map given es))

  pops_from :
      (n : ℕ) (m : MruQueue A) → IsValid m → length m.store ≡ n → Returns (Drained m) (pops n m)
  unfolding pops
  pops_from zero m v size =
      let none_held = map-empty entry_of m.store size in
      (
        (m, []),
        refl,
        (v, none_held, ([], subst (λ es. Perm [] es) (sym none_held) (Perm.refl []), tt, refl)),
      )
  pops_from (suc n) m v size =
      let (r, e, t) = pop-Popped m v (omega (arith, size)) in
      let left : length r.0.store ≡ n = omega (
        arith,
        size,
        length-perm t.perm,
        length-map entry_of m.store,
        length-map entry_of r.0.store,
      ) in
      let (rest, e', (valid, empty, (es, perm, descending, gave))) = pops_from n r.0 t.valid left in
      let below = All-perm t.priority (Perm.symm t.perm) t.latest in
      (
        (rest.0, r.1 ∷ rest.1),
        rw e (rw e' refl),
        (
          valid,
          empty,
          (
            (t.value, t.priority) ∷ es,
            Perm.trans (Perm.cons (t.value, t.priority) perm) t.perm,
            (All-perm t.priority (Perm.symm perm) below.1, descending),
            ap₂ ◌∷◌ (given-of r.1 (t.value, t.priority) t.returned t.time t.found) gave,
          ),
        ),
      )

  -- As many calls of Pop as a valid queue has values end with the empty queue, and together they give
  -- a sort of what the queue held: each value once, with its time in whole seconds, the latest seconds
  -- first.
  pub pops-IsDescending :
      (m : MruQueue A)
      → IsValid m
      → Returns
          (λ r.
            IsValid r.0
            × (held r.0 ≡ [])
            × ((es : List (A × ℤ)) × Perm es (held m) × IsDescending es × (r.1 ≡ map given es)))
          (pops (length m.store) m)
  pops-IsDescending m v = pops_from (length m.store) m v refl
