-- ===== src/Data/Mru/Laws.antt =====
-- What each method of the MRU queue does on every branch, and its invariant.
use dotproxy.Base.{
  ℕ, suc, sym, ap, ◌∙◌, ◌<◌, ◌≡◌, refl, ◌⊎◌, inl, inr, Bool, true, false, List, [], ◌∷◌, Perm, none,
  some, arith, length, get_elem?, length-map, length-perm, ◌&&◌, Bool-cases, All, ◌==◌,
}
use dotproxy.Base.Int.{ℤ, pos, negsuc, ◌≤ℤ◌, ◌<ℤ◌, ltb_ℤ}
use dotproxy.Base.Run.{ok, Returns}
use dotproxy.Base.Time.{Time, unix, of_unix}
use dotproxy.Data.Heap
use dotproxy.Data.Heap.Laws.{All-of_rank_at}
use dotproxy.Data.PriorityQueue
use dotproxy.Data.PriorityQueue.{Item, PriorityQueue, heap_interface}
use dotproxy.Data.PriorityQueue.Contract.{entry_of, entries, queue_laws}
use dotproxy.Data.PriorityQueue.Order.{priority_of, IsQueue, heap_push-Holds, heap_pop-Taken}
use dotproxy.Data.Mru.{MruQueue, Pop, new_mru_queue, equals_ℕ, is_full, push, pop}

-- The capacity `c` is a limit, and `n` reaches it.
abbrev IsReached : ℤ → ℕ → Type 0
IsReached c n = (pos 0 <ℤ c) × (c ≡ pos n)

by_capacity :
    (c : ℤ) (n : ℕ)
    → let full = ltb_ℤ (pos 0) c && equals_ℕ c n in
      (full ≡ true) × IsReached c n ⊎ (full ≡ false) × (¬ IsReached c n)
by_capacity c n = elim (Bool-cases (ltb_ℤ (pos 0) c && equals_ℕ c n)) [
  | inl full ↦ inl (full, (ground arith, ground arith))
  | inr room ↦ inr (room, λ h. ground arith)
]

one_more : (c : ℤ) (n : ℕ) → ¬ IsReached c n → pos 0 <ℤ c → pos n ≤ℤ c → pos (suc n) ≤ℤ c
one_more (pos c) n r p q = ground arith
one_more (negsuc c) n r p q = absurd (omega arith)

module _ {A : Type 0} where
  abbrev pub held : MruQueue A → List (A × ℤ)
  held m = entries m.store

  -- The store is a priority queue, within the capacity if there is one.
  pub record IsValid (m : MruQueue A) : Type 0 where
    pub queue : IsQueue m.store
    pub bounded : pos 0 <ℤ m.capacity → pos (length m.store) ≤ℤ m.capacity

  -- The capacity is a limit, and it is reached.
  abbrev pub IsFull : MruQueue A → Type 0
  IsFull m = IsReached m.capacity (length m.store)

  -- NewMRUQueue returns a valid and empty queue of the capacity that it is given, whatever it is.
  pub new_mru_queue-IsValid :
      (capacity : ℤ)
      → Returns
          (λ (m : MruQueue A). IsValid m × (held m ≡ []) × (m.capacity ≡ capacity))
          (new_mru_queue capacity)
  unfolding new_mru_queue queue_laws Heap.init
  new_mru_queue-IsValid capacity = (
    record { store = []; capacity = capacity },
    refl,
    (
      record {
        queue = record { indexed = λ i x e. absurd (cc); heap = λ c p q. absurd (omega arith) };
        bounded = λ h. omega arith;
      },
      refl,
      refl,
    ),
  )

  -- A refused push changes nothing, and is refused because the queue is full; any other adds exactly
  -- the value, under the time in seconds.
  abbrev pub Pushed : MruQueue A → Time → A → MruQueue A × Bool → Type 0
  Pushed m now value r =
      IsValid r.0
      × (r.0.capacity ≡ m.capacity)
      × ((r ≡ (m, false)) × IsFull m
          ⊎ (r.1 ≡ true) × (¬ IsFull m) × Perm (held r.0) ((value, unix now) ∷ held m))

  -- The test for a full queue says what it means.
  pub is_full_iff :
      (m : MruQueue A) → (is_full m ≡ true) × IsFull m ⊎ (is_full m ≡ false) × (¬ IsFull m)
  unfolding is_full PriorityQueue.len
  is_full_iff m = by_capacity m.capacity (length m.store)

  grown :
      (m : MruQueue A) (store : PriorityQueue A)
      → length (entries store) ≡ suc (length (entries m.store))
      → length store ≡ suc (length m.store)
  grown m store e = sym (length-map entry_of store) ∙ e ∙ ap suc (length-map entry_of m.store)

  -- From a valid queue, Push ends with a valid queue of the same capacity. It is refused, and
  -- changes nothing, exactly when the queue is full; otherwise it adds the value, under the time in
  -- seconds.
  pub push-Pushed :
      (m : MruQueue A) (now : Time) (value : A)
      → IsValid m
      → Returns (Pushed m now value) (push m now value)
  unfolding push
  push-Pushed m now value v = elim (is_full_iff m) [
    | inl (full, why) ↦ ((m, false), rw full, (v, refl, inl (refl, why)))
    | inr (room, why) ↦
        let item : Item A = record { value = value; priority = unix now; index = pos 0 } in
        let (store, e, (queue, perm)) = heap_push-Holds m.store item v.queue in
        (
          (record m { store = store }, true),
          rw (room, e),
          (
            record {
              queue = queue;
              bounded =
                  λ h. rw (grown m store (length-perm perm)) (one_more _ _ why h (v.bounded h));
            },
            refl,
            inr (refl, why, perm),
          ),
        )
  ]

  -- What a pop of a queue that holds something returns: a value of the latest time, and the queue of
  -- the others.
  pub record Popped (m : MruQueue A) (r : MruQueue A × Pop A) : Type 0 where
    pub valid : IsValid r.0
    pub kept : r.0.capacity ≡ m.capacity
    pub found : r.1.found ≡ true
    pub value : A
    pub priority : ℤ
    pub returned : r.1.value ≡ some value
    pub time : r.1.time ≡ of_unix priority
    pub perm : Perm ((value, priority) ∷ held r.0) (held m)
    pub first : get_elem? (held m) 0 ≡ some (value, priority)
    pub latest : All (λ e. e.1 ≤ℤ priority) (held m)

  -- From a valid queue that is not empty, Pop ends with a valid queue: it takes one value, with its
  -- time, of the latest second of those in the queue, and leaves the others.
  pub pop-Popped : (m : MruQueue A) → IsValid m → 0 < length m.store → Returns (Popped m) (pop m)
  unfolding pop PriorityQueue.len
  pop-Popped m v p =
      let (r, e, t) = heap_pop-Taken m.store v.queue p in
      let some_left : (length m.store == 0) ≡ false = ground arith in
      (
        (record m { store = r.1 }, _),
        rw (some_left, e),
        record {
          valid = record {
            queue = t.valid;
            bounded = λ h. omega (
              arith,
              length-perm t.perm,
              length-map entry_of m.store,
              length-map entry_of (r.1),
              v.bounded h,
            );
          };
          kept = refl;
          found = refl;
          value = r.0.value;
          priority = r.0.priority;
          returned = refl;
          time = refl;
          perm = t.perm;
          first = t.root;
          latest = All-of_rank_at priority_of (held m) r.0.priority t.highest;
        },
      )

  -- A pop of the empty queue says so, and changes nothing.
  pub pop-empty :
      (m : MruQueue A)
      → length m.store ≡ 0
      → pop m ≡ ok (m, record { value = none; time = of_unix (pos 0); found = false })
  unfolding pop PriorityQueue.len
  pop-empty m e = rw e
