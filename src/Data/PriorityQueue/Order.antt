-- ===== src/Data/PriorityQueue/Order.antt =====
-- container/heap over the priority queue: which entry comes out, and what an update does.
use dotproxy.Base.{
  ℕ, ◌<◌, ◌≡◌, List, ◌∷◌, Perm, some, arith, length, get_elem?, set, length-map, length-set,
  map-set, get_elem?-lt,
}
use dotproxy.Base.Array
use dotproxy.Base.Int.{ℤ, pos, negsuc, ◌≤ℤ◌}
use dotproxy.Base.Run.{ok, Returns}
use dotproxy.Data.Heap
use dotproxy.Data.Heap.Laws.{parent, rank_at, rank_at-set, IsHeap}
use dotproxy.Data.Heap.Ops.{push-Pushed, pop-Popped}
use dotproxy.Data.Heap.Fix.{FixInv, fix-Sifted}
use dotproxy.Data.PriorityQueue.{Item, PriorityQueue, heap_interface, update}
use dotproxy.Data.PriorityQueue.Contract.{entry_of, entries, IsIndexed, queue_laws}

module _ {A : Type 0} where
  abbrev pub priority_of : A × ℤ → ℤ
  priority_of e = e.1

  -- Every item knows its position, and no item has a lower priority than its children.
  pub record IsQueue (pq : PriorityQueue A) : Type 0 where
    pub indexed : IsIndexed pq
    pub heap : IsHeap priority_of (entries pq)

  abbrev pub Holds : List (A × ℤ) → PriorityQueue A → Type 0
  Holds es pq = IsQueue pq × Perm (entries pq) es

  -- From a valid queue, heap.Push ends with a valid queue that holds the new entry and those of
  -- before.
  pub heap_push-Holds :
      (pq : PriorityQueue A) (x : Item A)
      → IsQueue pq
      → Returns (Holds (entry_of x ∷ entries pq)) (Heap.push heap_interface pq x)
  unfolding queue_laws
  heap_push-Holds pq x v =
      let (pq', e, t) = push-Pushed queue_laws pq x v.indexed v.heap in
      (pq', e, (record { indexed = t.valid; heap = t.heap }, t.perm))

  -- The item that comes out, and the queue that is left.
  pub record Taken (pq : PriorityQueue A) (r : Item A × PriorityQueue A) : Type 0 where
    pub valid : IsQueue r.1
    pub perm : Perm (entry_of r.0 ∷ entries r.1) (entries pq)
    pub root : get_elem? (entries pq) 0 ≡ some (entry_of r.0)
    pub highest :
        (c : ℕ) → c < length (entries pq) → rank_at priority_of (entries pq) c ≤ℤ r.0.priority

  -- From a valid queue that is not empty, heap.Pop ends: it takes the entry at the root, whose
  -- priority is the highest, and leaves a valid queue of the others.
  pub heap_pop-Taken :
      (pq : PriorityQueue A)
      → IsQueue pq
      → 0 < length pq
      → Returns (Taken pq) (Heap.pop heap_interface pq)
  unfolding queue_laws
  heap_pop-Taken pq v p =
      let (r, e, t) = pop-Popped queue_laws pq v.indexed v.heap (rw (length-map entry_of pq) p) in
      (
        r,
        e,
        record {
          valid = record { indexed = t.valid; heap = t.heap };
          perm = t.perm;
          root = t.root;
          highest = t.highest;
        },
      )

  -- The item is where its index says.
  abbrev pub IsAt : PriorityQueue A → Item A → ℕ → Type 0
  IsAt pq item i = (item.index ≡ pos i) × (get_elem? pq i ≡ some item)

  written-FixInv :
      (es : List (A × ℤ)) (i : ℕ) (e : A × ℤ)
      → IsHeap priority_of es
      → i < length es
      → FixInv queue_laws (set es i e) i
  unfolding queue_laws
  written-FixInv es i e v p = record {
    inside = omega (arith, size);
    edges = λ c q r m t. ground (
      arith,
      size,
      v c,
      rank_at-set priority_of es i e c p,
      rank_at-set priority_of es i e (parent c) p,
    );
    bridged = λ c q r m t. ground (
      arith,
      size,
      v c,
      v i,
      rank_at-set priority_of es i e c p,
      rank_at-set priority_of es i e (parent i) p,
    );
  }
    where
      size : length (set es i e) ≡ length es
      size = length-set es i e

  written-IsIndexed :
      (pq : PriorityQueue A) (i : ℕ) (item : Item A) (value : A) (priority : ℤ)
      → IsIndexed pq
      → IsAt pq item i
      → IsIndexed (set pq i (record { value = value; priority = priority; index = pos i }))
  written-IsIndexed pq i item value priority v at c x e =
      let written =
        Array.get_elem?-set pq i c (record { value = value; priority = priority; index = pos i })
          (get_elem?-lt pq i item (at.1)) in
      ground (arith, written, v c x)

  -- An update of an item that is in a valid queue at the place of its index ends with a valid queue
  -- in which that item's entry is the new one, and the others are as they were.
  pub update-Holds :
      (pq : PriorityQueue A) (item : Item A) (i : ℕ) (value : A) (priority : ℤ)
      → IsQueue pq
      → IsAt pq item i
      → Returns (Holds (set (entries pq) i (value, priority))) (update pq item value priority)
  unfolding update queue_laws
  update-Holds pq item i value priority v at =
      let new : Item A = record { value = value; priority = priority; index = pos i } in
      let inside : i < length pq = get_elem?-lt pq i item (at.1) in
      let seen = map-set entry_of pq i new in
      let start =
        written-FixInv (entries pq) i (value, priority) v.heap
          (rw (length-map entry_of pq) inside) in
      let (pq', e, t) =
        fix-Sifted queue_laws (set pq i new) i
          (written-IsIndexed pq i item value priority v.indexed at) (rw seen start) in
      rw (at.0) (pq', e, (record { indexed = t.valid; heap = t.heap }, rw seen at t.perm))

  -- An update of an item that has been popped (its index is -1) returns, and leaves the queue as it
  -- is.
  pub update-popped :
      (pq : PriorityQueue A) (item : Item A) (value : A) (priority : ℤ)
      → item.index ≡ negsuc 0
      → update pq item value priority ≡ ok pq
  unfolding update Heap.fix
  update-popped pq item value priority e = rw e
