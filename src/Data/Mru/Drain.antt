-- ===== src/Data/Mru/Drain.antt =====
-- The order in which the MRU queue gives its values back.
use mathlib.Core.List.Perm
use mathlib.Core.List.{Mem, mem-cons, mem-cons_self}
use mathlib.Core.Logic.Or
use native.Mathlib.Bridge.{le_prop}
use dotproxy.Base.{
  ℕ, ◌<◌, ◌≡◌, ap, ◌∙◌, inl, inr, Bool, List, ◌∷◌, Perm, some, arith, length, length-map,
  length-perm, All, All-mem,
}
use dotproxy.Base.Int.{ℤ, pos, ◌≤ℤ◌, ◌<ℤ◌}
use dotproxy.Base.Run.{◌>>=◌, Returns}
use dotproxy.Base.Time.{Time, unix, of_unix}
use dotproxy.Data.Heap
use dotproxy.Data.PriorityQueue
use dotproxy.Data.PriorityQueue.{Item, PriorityQueue}
use dotproxy.Data.PriorityQueue.Contract.{entry_of}
use dotproxy.Data.Mru.{MruQueue, push, pop}
use dotproxy.Data.Mru.Laws.{held, IsValid, IsFull, Pushed, push-Pushed, pop-Popped}

pair_set : {A : Type 0} → IsSet A → IsSet (A × ℤ)
pair_set set = hlevel set

module _ {A : Type 0} where
  added_of_room :
      (m : MruQueue A) (now : Time) (value : A) (r : MruQueue A × Bool)
      → ¬ IsFull m
      → Pushed m now value r
      → Perm (held r.0) ((value, unix now) ∷ held m)
  added_of_room m now value r room (_, _, inl (_, full)) = absurd (room full)
  added_of_room m now value r room (_, _, inr (_, _, perm)) = perm

  only_latest :
      IsSet A
      → (es : List (A × ℤ)) (new e : A × ℤ) → All (λ d. d.1 <ℤ new.1) es
      → Mem e (new ∷ es)
      → new.1 ≤ℤ e.1
      → e ≡ new
  only_latest set es new e earlier m late =
      Or.elim (pair_set set e new) (mem-cons.0 m) (λ p. p)
        λ q. absurd (omega (arith, All-mem (λ d. d.1 <ℤ new.1) (λ _. le_prop) es earlier q))

  -- Push then Pop, on a valid queue with room whose values are all of earlier seconds: the value
  -- comes out with its time, and the others stay in the queue. The values form a set.
  pub push_pop_latest :
      (m : MruQueue A) (now : Time) (value : A)
      → IsSet A
      → IsValid m
      → ¬ IsFull m
      → All (λ e. e.1 <ℤ unix now) (held m)
      → Returns
          (λ r.
            (r.1.value ≡ some value) × (r.1.time ≡ of_unix (unix now)) × Perm (held r.0) (held m))
          (push m now value >>= λ r. pop r.0)
  push_pop_latest m now value set v room earlier =
      let (r, e, pushed) = push-Pushed m now value v in
      let added = added_of_room m now value r room pushed in
      let more : 0 < length r.0.store =
        omega (arith, length-map entry_of r.0.store, length-perm added) in
      let (q, e', t) = pop-Popped r.0 (pushed.0) more in
      let same : ◌≡◌ {A = A × ℤ} (t.value, t.priority) (value, unix now) =
        only_latest set (held m) (value, unix now) (t.value, t.priority) earlier
          ((Perm.mem_iff (Perm.trans t.perm added)).0 mem-cons_self)
          (All-mem (λ e. e.1 ≤ℤ t.priority) (λ _. le_prop) (held r.0) t.latest
            ((Perm.mem_iff (Perm.symm added)).0 mem-cons_self)) in
      (
        q,
        rw e e',
        (
          t.returned ∙ ap (λ e. some e.0) same,
          t.time ∙ ap (λ e. of_unix e.1) same,
          Perm.cons_inv (rw same at (Perm.trans t.perm added)),
        ),
      )

  item_at : ℕ → ℤ → A → Item A
  item_at i priority value = record { value = value; priority = priority; index = pos i }
