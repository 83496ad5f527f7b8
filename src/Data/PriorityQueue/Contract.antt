-- ===== src/Data/PriorityQueue/Contract.antt =====
-- The priority queue's part of the contract of heap.Interface.
use native.Mathlib.Decide.{dec_lt}
use dotproxy.Base.{
  ℕ, zero, suc, ◌-◌, ◌<◌, ◌≡◌, refl, List, [], ◌∷◌, ◌++◌, map, some, arith, length, get_elem?, set,
  take, get_elem?-in, get_elem?-map, length-map, map-set, length-set, length-append,
  get_elem?-append, get_elem?-append_last, get_elem?-lt, get_elem?-take, ◌==◌, false, sym, ap, ◌∙◌,
}
use mathlib.Core.List.{map-append}
use dotproxy.Base.Array
use dotproxy.Base.Int.{ℤ, pos, negsuc, ltb_ℤ}
use dotproxy.Base.Run.{ok, Returns}
use dotproxy.Data.Heap.Laws.{Laws}
use dotproxy.Data.PriorityQueue.{Item, PriorityQueue, len, less, swap, push, pop, heap_interface}

module _ {A : Type 0} where
  -- What the queue holds, without the positions.
  abbrev pub entry_of : Item A → A × ℤ
  entry_of x = (x.value, x.priority)

  abbrev pub entries : PriorityQueue A → List (A × ℤ)
  entries pq = map entry_of pq

  -- Every item knows its position.
  abbrev pub IsIndexed : PriorityQueue A → Type 0
  IsIndexed pq = (i : ℕ) (x : Item A) → get_elem? pq i ≡ some x → x.index ≡ pos i

  entries_at :
      (pq : PriorityQueue A) (i : ℕ) {e : A × ℤ}
      → get_elem? (entries pq) i ≡ some e
      → (x : Item A) × (get_elem? pq i ≡ some x) × (entry_of x ≡ e)
  entries_at [] i p = absurd (cc)
  entries_at (x ∷ pq) zero p = (x, refl, ground arith)
  entries_at (x ∷ pq) (suc i) p = entries_at pq i p

  pub less_lem :
      (pq : PriorityQueue A) (i j : ℕ) {a b : A × ℤ}
      → get_elem? (entries pq) i ≡ some a
      → get_elem? (entries pq) j ≡ some b
      → less pq i j ≡ ok (ltb_ℤ b.1 a.1)
  unfolding less
  less_lem pq i j p q =
      let (x, ex, fx) = entries_at pq i p in let (y, ey, fy) = entries_at pq j q in ground arith

  swapped-IsIndexed :
      (pq : PriorityQueue A) (i j : ℕ) (x y : Item A)
      → IsIndexed pq
      → i < length pq
      → j < length pq
      → IsIndexed (set (set pq i (record y { index = pos i })) j (record x { index = pos j }))
  swapped-IsIndexed pq i j x y v hi hj c z e =
      let first = Array.get_elem?-set pq i c (record y { index = pos i }) hi in
      let second =
        Array.get_elem?-set (set pq i (record y { index = pos i })) j c (record x { index = pos j })
          (rw (length-set pq i (record y { index = pos i })) hj) in
      ground (arith, first, second, v c z)

  pub swap_lem :
      (pq : PriorityQueue A) (i j : ℕ)
      → IsIndexed pq
      → i < length (entries pq)
      → j < length (entries pq)
      → Returns (λ pq'. IsIndexed pq' × (entries pq' ≡ Array.swap (entries pq) i j)) (swap pq i j)
  unfolding swap
  swap_lem pq i j v hi hj =
      let li : i < length pq = rw (length-map entry_of pq) at hi in
      let lj : j < length pq = rw (length-map entry_of pq) at hj in
      let (x, ex) = get_elem?-in pq i li in
      let (y, ey) = get_elem?-in pq j lj in
      let y' : Item A = record y { index = pos i } in
      let x' : Item A = record x { index = pos j } in
      (
        set (set pq i y') j x',
        rw (ey, ex),
        (
          swapped-IsIndexed pq i j x y v li lj,
          rw (
            map-set entry_of (set pq i y') j x',
            map-set entry_of pq i y',
            Array.swap_at (entries pq) i j (get_elem?-map entry_of pq i x ex)
                (get_elem?-map entry_of pq j y ey),
          ),
        ),
      )

  pub push_lem :
      (pq : PriorityQueue A) (item : Item A)
      → IsIndexed pq
      → IsIndexed (push pq item) × (entries (push pq item) ≡ entries pq ++ entry_of item ∷ [])
  unfolding push
  push_lem pq item v = (
    λ i x e. elim (dec_lt i (length pq)) [
      | yes p ↦ v i x (sym (get_elem?-append pq (last ∷ []) i p) ∙ e)
      | no p ↦
          let inside = get_elem?-lt (pq ++ last ∷ []) i x e in
          let at : i ≡ length pq = omega (arith, length-append pq (last ∷ [])) in
          let found : some last ≡ some x = sym (get_elem?-append_last pq last i at) ∙ e in
          ground arith
    ],
    map-append entry_of pq (last ∷ []),
  )
    where
      last : Item A
      last = record item { index = pos (length pq) }

  pub pop_lem :
      (pq : PriorityQueue A) (n : ℕ)
      → IsIndexed pq
      → length (entries pq) ≡ suc n
      → Returns (λ r. IsIndexed r.1 × (entries r.1 ++ entry_of r.0 ∷ [] ≡ entries pq)) (pop pq)
  unfolding pop
  pop_lem pq n v h =
      let size : length pq ≡ suc n = rw (length-map entry_of pq) at h in
      let (x, ex) = get_elem?-in pq n (omega arith) in
      let more : (length pq == 0) ≡ false = ground arith in
      let last : length pq - 1 ≡ n = omega arith in
      (
        (record x { index = negsuc 0 }, take n pq),
        rw (more, last, ex),
        (
          λ i y e. v i y (get_elem?-take n pq i y e),
          sym (map-append entry_of (take n pq) (x ∷ []))
              ∙ ap entries (Array.take-append_last n pq x size ex),
        ),
      )

  -- The contract: entries by value and priority, of which the highest priority comes first.
  unfoldable pub queue_laws : Laws (heap_interface {A = A}) (A × ℤ)
  unfolding heap_interface len
  queue_laws = record {
    IsValid = IsIndexed;
    view = entries;
    entry = entry_of;
    rank = λ e. e.1;
    len_lem = λ pq. sym (length-map entry_of pq);
    less_lem = less_lem;
    swap_lem = swap_lem;
    push_lem = push_lem;
    pop_lem = pop_lem;
  }
