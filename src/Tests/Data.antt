-- ===== src/Tests/Data.antt =====
-- A priority queue of two items and MRU queues of one and two, on which the theorems of `Data` are run.
use dotproxy.Base.{List, map, ℕ, zero, suc, ◌≡◌, [], ◌∷◌, arith, Perm}
use dotproxy.Base.Int.{ℤ, pos}
use dotproxy.Base.Run.{Returns}
use dotproxy.Base.Time.{Time, unix, of_unix}
use dotproxy.Data.Heap.Laws.{rank_at, IsHeap}
use dotproxy.Data.PriorityQueue.{Item, PriorityQueue}
use dotproxy.Data.PriorityQueue.Contract.{entries, IsIndexed}
use dotproxy.Data.PriorityQueue.Order.{IsQueue}
use dotproxy.Data.Mru.{MruQueue, push, pop}
use dotproxy.Data.Mru.Laws.{held, IsValid}
use dotproxy.Data.Mru.Bag.{MayPush, MayPop, view, push-MayPush, pop-MayPop}
use dotproxy.Data.Mru.Sorted.{pops, IsDescending, given, pops-IsDescending}

abbrev first_item : Item ℕ
first_item = record { value = 5; priority = pos 9; index = pos 0 }

abbrev second_item : Item ℕ
second_item = record { value = 6; priority = pos 3; index = pos 1 }

abbrev two_items : PriorityQueue ℕ
two_items = first_item ∷ second_item ∷ []

two_items-IsQueue : IsQueue two_items
unfolding rank_at
two_items-IsQueue = record { indexed = indexed; heap = in_order }
  where
    indexed : IsIndexed two_items
    indexed zero x e = ground arith
    indexed (suc zero) x e = ground arith
    indexed (suc (suc i)) x e = absurd (cc)

    in_order : IsHeap (λ (e : ℕ × ℤ). e.1) (entries two_items)
    in_order zero p q _ = absurd (omega arith)
    in_order (suc zero) p q _ = omega arith
    in_order (suc (suc c)) p q _ = absurd (omega arith)

-- The queue of two items, with room for one more.
abbrev two_values : MruQueue ℕ
two_values = record { store = two_items; capacity = pos 3 }

two_values-IsValid : IsValid two_values
two_values-IsValid = record { queue = two_items-IsQueue; bounded = λ _. omega arith }

-- A second long after those of the two items.
abbrev later : Time
later = of_unix (pos 20)

pops-IsDescending_example :
    Returns
      (λ r.
        IsValid r.0
        × (held r.0 ≡ [])
        × ((es : List (ℕ × ℤ)) × Perm es (held two_values)
            × IsDescending es
            × (r.1 ≡ map given es)))
      (pops 2 two_values)
pops-IsDescending_example = pops-IsDescending two_values two_values-IsValid

push-MayPush_example :
    Returns
      (λ r. MayPush (pos 3) (7, unix later) (view two_values) (view r.0, r.1))
      (push two_values later 7)
push-MayPush_example = push-MayPush two_values later 7 two_values-IsValid

pop-MayPop_example : Returns (λ r. MayPop (view two_values) (view r.0, r.1)) (pop two_values)
pop-MayPop_example = pop-MayPop two_values two_values-IsValid

-- The same items, without a limit.
abbrev no_limit : MruQueue ℕ
no_limit = record { store = two_items; capacity = pos 0 }

no_limit-IsValid : IsValid no_limit
no_limit-IsValid = record { queue = two_items-IsQueue; bounded = λ h. absurd (omega (arith, h)) }
