-- ===== src/Data/Mru/Bag.antt =====
-- internal/data/mru.go: the MRU queue for its users, who do not see the order of its slice. The contents
-- are a bag: lists of values and their seconds, up to the order.
use mathlib.Core.Quot
use mathlib.Core.Quot.{Quot, Quot-set}
use mathlib.Core.List.Perm
use native.Mathlib.Nat.{ℕ_set}
use dotproxy.Base.{
  ℕ, zero, suc, ◌<◌, ◌≡◌, ◌≢◌, refl, sym, ap, ◌∙◌, ◌⊎◌, inl, inr, Bool, true, false, List, ◌∷◌,
  Perm, none, arith, length, length-perm, length-map, All, ap₂, subst, Bool-cases,
}
use dotproxy.Base.Int.{ℤ, pos, ◌≤ℤ◌, ◌<ℤ◌, ltb_ℤ}
use dotproxy.Base.Run.{◌>>=◌, Returns}
use dotproxy.Base.Time.{Time, unix, of_unix}
use dotproxy.Data.PriorityQueue.Contract.{entry_of}
use dotproxy.Data.Mru.{MruQueue, Pop, push, pop}
use dotproxy.Data.Mru.Sorted.{given, given-of}
use dotproxy.Data.Mru.Laws.{held, IsValid, IsFull, Pushed, push-Pushed, pop-Popped, pop-empty}

abbrev pub Bag : Type 0 → Type 0
Bag A = Quot (Perm {A = A × ℤ})

ℕ-cases : (n : ℕ) → (n ≡ 0) ⊎ (0 < n)
ℕ-cases zero = inl refl
ℕ-cases (suc n) = inr (omega arith)

module _ {A : Type 0} where
  abbrev pub view : MruQueue A → Bag A
  view m = Quot.mk (held m)

  abbrev pub insert : A × ℤ → Bag A → Bag A
  insert e = Quot.lift Quot-set (λ es. Quot.mk (e ∷ es)) (λ es fs h. Quot.sound (Perm.cons e h))

  abbrev pub count_of : Bag A → ℕ
  count_of = Quot.lift ℕ_set length (λ es fs h. length-perm h)

  -- Nothing in the bag is later.
  abbrev pub IsLatest : ℤ → Bag A → Type 0
  IsLatest p b = (es : List (A × ℤ)) × (Quot.mk es ≡ b) × All (λ e. e.1 ≤ℤ p) es

  -- What a queue of some capacity may do with a value of some second, as a bag.
  pub data MayPush (capacity : ℤ) (e : A × ℤ) (b : Bag A) : Bag A × Bool → Type 0 where
    refuses : pos 0 <ℤ capacity → capacity ≡ pos (count_of b) → MayPush capacity e b (b, false)
    adds :
        (capacity ≤ℤ pos 0) ⊎ (capacity ≢ pos (count_of b))
        → MayPush capacity e b (insert e b, true)

  pub data MayPop (b : Bag A) : Bag A × Pop A → Type 0 where
    has_none :
        count_of b ≡ 0
        → MayPop b (b, record { value = none; time = of_unix (pos 0); found = false })
    takes :
        (e : A × ℤ) (rest : Bag A) → b ≡ insert e rest → IsLatest e.1 b → MayPop b (rest, given e)

  size_of : (m : MruQueue A) → count_of (view m) ≡ length m.store
  size_of m = length-map entry_of m.store

  room_left :
      (m : MruQueue A) → ¬ IsFull m → (m.capacity ≤ℤ pos 0) ⊎ (m.capacity ≢ pos (count_of (view m)))
  room_left m room = elim (Bool-cases (ltb_ℤ (pos 0) m.capacity)) [
    | inl limit ↦ inr (λ same. room (ground arith, same ∙ ap pos (size_of m)))
    | inr no_limit ↦ inl (ground arith)
  ]

  may_push :
      (m : MruQueue A) (now : Time) (value : A) (r : MruQueue A × Bool)
      → Pushed m now value r
      → MayPush m.capacity (value, unix now) (view m) (view r.0, r.1)
  may_push m now value r (_, _, inl (same, full)) =
      subst
        (λ (q : MruQueue A × Bool). MayPush m.capacity (value, unix now) (view m) (view q.0, q.1))
        (sym same) (MayPush.refuses full.0 (full.1 ∙ ap pos (sym (size_of m))))
  may_push m now value r (_, _, inr (did, room, perm)) =
      subst (MayPush m.capacity (value, unix now) (view m))
        (ap₂ (λ (b : Bag A) (d : Bool). (b, d)) (sym (Quot.sound perm)) (sym did))
        (MayPush.adds (room_left m room))

  -- From a valid queue, Push ends, and for a user who sees the contents as a bag it does what a
  -- queue of its capacity may do: it adds the value with its second, or refuses it and leaves the bag,
  -- and it refuses only when there is a limit and the bag has as many values.
  pub push-MayPush :
      (m : MruQueue A) (now : Time) (value : A)
      → IsValid m
      → Returns
          (λ r. MayPush m.capacity (value, unix now) (view m) (view r.0, r.1))
          (push m now value)
  push-MayPush m now value v =
      let (r, e, pushed) = push-Pushed m now value v in (r, e, may_push m now value r pushed)

  -- From a valid queue, Pop ends, and for a user who sees the contents as a bag it says that the
  -- bag is empty, or takes a value of the latest second out of it.
  pub pop-MayPop :
      (m : MruQueue A) → IsValid m → Returns (λ r. MayPop (view m) (view r.0, r.1)) (pop m)
  pop-MayPop m v = elim (ℕ-cases (length m.store)) [
    | inl none_held ↦ ((m, _), pop-empty m none_held, MayPop.has_none (size_of m ∙ none_held))
    | inr some_held ↦
        let (r, e, t) = pop-Popped m v some_held in
        let taken = given-of r.1 (t.value, t.priority) t.returned t.time t.found in
        (
          r,
          e,
          subst (λ g. MayPop (view m) (view r.0, g)) (sym taken)
              (MayPop.takes (t.value, t.priority) (view r.0) (sym (Quot.sound t.perm))
                (held m, refl, t.latest)),
        )
  ]

  added :
      (m : MruQueue A) (now : Time) (value : A) (r : MruQueue A × Bool)
      → m.capacity ≤ℤ pos 0
      → Pushed m now value r
      → Perm (held r.0) ((value, unix now) ∷ held m)
  added m now value r no_limit (_, _, inl (_, full)) = absurd (omega (arith, full.0, no_limit))
  added m now value r no_limit (_, _, inr (_, _, perm)) = perm

  both :
      (m : MruQueue A) (s t : Time) (a b : A)
      → IsValid m
      → m.capacity ≤ℤ pos 0
      → Returns
          (λ r. Perm (held r.0) ((b, unix t) ∷ (a, unix s) ∷ held m))
          (push m s a >>= λ first. push first.0 t b)
  both m s t a b v no_limit =
      let (r, e, p) = push-Pushed m s a v in
      let still : r.0.capacity ≤ℤ pos 0 = subst (λ c. c ≤ℤ pos 0) (sym p.1) no_limit in
      let (q, e', p') = push-Pushed r.0 t b (p.0) in
      (
        q,
        rw e e',
        Perm.trans (added r.0 t b q still p') (Perm.cons (b, unix t) (added m s a r no_limit p)),
      )

  -- In a queue without a limit the order of two pushes, each at its time, does not matter to such a
  -- user: the bags after them are equal.
  pub push-push_comm :
      (m : MruQueue A) (s t : Time) (a b : A)
      → IsValid m
      → m.capacity ≤ℤ pos 0
      → Returns
          (λ r. Returns (λ q. view r.0 ≡ view q.0) (push m t b >>= λ first. push first.0 s a))
          (push m s a >>= λ first. push first.0 t b)
  push-push_comm m s t a b v no_limit =
      let (r, e, p) = both m s t a b v no_limit in
      let (q, e', p') = both m t s b a v no_limit in
      (
        r,
        e,
        (
          q,
          e',
          Quot.sound (
              Perm.trans p
                (Perm.trans (Perm.swap (a, unix s) (b, unix t) (held m)) (Perm.symm p'))),
        ),
      )
