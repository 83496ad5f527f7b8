-- ===== src/Data/Mru.antt =====
-- internal/data/mru.go. A method runs under the queue's mutex, so it is one step; the time that it
-- reads is an argument. The result of Pop is the value, its time and whether there is one.
pub mod Laws
pub mod Drain
pub mod Sorted
pub mod Bag
use dotproxy.Base.{
  ℕ, ◌≡◌, Bool, true, false, List, [], Option, none, some, ◌==◌, ◌&&◌, if◌then◌else◌,
}
use dotproxy.Base.Int.{ℤ, pos, negsuc, ltb_ℤ}
use dotproxy.Base.Run.{Run, ok, ◌>>=◌}
use dotproxy.Base.Time.{Time, unix, of_unix}
use dotproxy.Data.Heap
use dotproxy.Data.PriorityQueue
use dotproxy.Data.PriorityQueue.{PriorityQueue, heap_interface}

pub record MruQueue (A : Type 0) : Type 0 where
  pub store : PriorityQueue A
  pub capacity : ℤ

-- What Pop returns.
pub record Pop (A : Type 0) : Type 0 where
  pub value : Option A
  pub time : Time
  pub found : Bool

-- A capacity of 0 or less is no limit.
abbrev pub equals_ℕ : ℤ → ℕ → Bool
equals_ℕ (pos c) n = c == n
equals_ℕ (negsuc c) n = false

module _ {A : Type 0} where
  -- The two slices that `make` gives differ in their spare room only.
  unfoldable pub new_mru_queue : ℤ → Run (MruQueue A)
  new_mru_queue capacity = do
    store ← Heap.init heap_interface []
    ok (record { store = store; capacity = capacity })

  pub is_full : MruQueue A → Bool
  is_full m = ltb_ℤ (pos 0) m.capacity && equals_ℕ m.capacity (PriorityQueue.len m.store)

  unfoldable pub push : MruQueue A → Time → A → Run (MruQueue A × Bool)
  unfolding is_full
  push m now value = if is_full m then ok (m, false) else do
    store ←
        Heap.push heap_interface m.store
          (record { value = value; priority = unix now; index = pos 0 })
    ok (record m { store = store }, true)

  unfoldable pub pop : MruQueue A → Run (MruQueue A × Pop A)
  pop m =
      if PriorityQueue.len m.store == 0
      then ok (m, record { value = none; time = of_unix (pos 0); found = false })
      else do
        r ← Heap.pop heap_interface m.store
        ok (
          record m { store = r.1 },
          record { value = some r.0.value; time = of_unix r.0.priority; found = true },
        )

  unfoldable pub size : MruQueue A → ℕ
  size m = PriorityQueue.len m.store

  unfoldable pub empty : MruQueue A → Bool
  empty m = PriorityQueue.len m.store == 0
