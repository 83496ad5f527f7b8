-- ===== src/Data/PriorityQueue.antt =====
-- internal/data/priority.go. A queue owns its items: only the queue holds a pointer to an item that
-- is in it, so an item stands in the list by value, and `index` says where.
pub mod Contract
pub mod Order
use dotproxy.Base.{
  ℕ, ◌+◌, ◌-◌, ◌≡◌, Bool, List, [], ◌∷◌, ◌++◌, Option, some, length, get_elem?, set, take, ◌==◌,
  if◌then◌else◌,
}
use dotproxy.Base.Int.{ℤ, pos, negsuc, ltb_ℤ}
use dotproxy.Base.Run.{Run, ok, panic, ◌>>=◌, or_panic}
use dotproxy.Data.Heap
use dotproxy.Data.Heap.{Interface}

pub record Item (A : Type 0) : Type 0 where
  pub value : A
  pub priority : ℤ
  pub index : ℤ

abbrev pub PriorityQueue : Type 0 → Type 0
PriorityQueue A = List (Item A)

module _ {A : Type 0} where
  unfoldable pub len : PriorityQueue A → ℕ
  len pq = length pq

  pub less : PriorityQueue A → ℕ → ℕ → Run Bool
  less pq i j = do
    x ← or_panic (get_elem? pq i)
    y ← or_panic (get_elem? pq j)
    ok (ltb_ℤ y.priority x.priority)

  pub swap : PriorityQueue A → ℕ → ℕ → Run (PriorityQueue A)
  swap pq i j = do
    y ← or_panic (get_elem? pq j)
    x ← or_panic (get_elem? pq i)
    ok (set (set pq i (record y { index = pos i })) j (record x { index = pos j }))

  pub push : PriorityQueue A → Item A → PriorityQueue A
  push pq item = pq ++ record item { index = pos (length pq) } ∷ []

  pub pop : PriorityQueue A → Run (Item A × PriorityQueue A)
  pop pq = if length pq == 0 then panic else do
    let n = length pq
    item ← or_panic (get_elem? pq (n - 1))
    ok (record item { index = negsuc 0 }, take (n - 1) pq)

  -- PriorityQueue as a heap.Interface
  unfoldable pub heap_interface : Interface (PriorityQueue A) (Item A)
  unfolding len less swap push pop
  heap_interface = record { len = len; less = less; swap = swap; push = push; pop = pop }

  -- A write through the pointer to an item, which the queue sees if the item is in it.
  pub write_item : PriorityQueue A → ℤ → Item A → PriorityQueue A
  write_item pq (pos i) item = set pq i item
  write_item pq (negsuc i) item = pq

  pub update : PriorityQueue A → Item A → A → ℤ → Run (PriorityQueue A)
  unfolding write_item
  update pq item value priority =
      let written = write_item pq item.index (record item { value = value; priority = priority }) in
      Heap.fix heap_interface written item.index
