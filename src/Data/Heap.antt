-- ===== src/Data/Heap.antt =====
-- Go's container/heap, over any implementation of heap.Interface. `internal/data` calls it; the
-- functions follow the standard library's text. An index is a number, since the callers pass none
-- below 0 but for `fix`. Each loop has fuel: the index falls in `up` and rises below `n` in `down`.
pub mod Laws
pub mod Up
pub mod Child
pub mod Down
pub mod Ops
pub mod Fix
use dotproxy.Base.{ℕ, zero, suc, ◌+◌, ◌-◌, ◌*◌, ◌/◌, Bool, ltb, leb, ◌==◌, if◌then◌else◌}
use dotproxy.Base.Int.{ℤ, pos, negsuc}
use dotproxy.Base.Run.{Run, ok, panic, out_of_fuel, ◌>>=◌}

-- heap.Interface, with sort.Interface within it. `H` is the collection, `X` what it holds.
pub record Interface (H X : Type 0) : Type 0 where
  pub len : H → ℕ
  pub less : H → ℕ → ℕ → Run Bool
  pub swap : H → ℕ → ℕ → Run H
  pub push : H → X → H
  pub pop : H → Run (X × H)

module _ {H X : Type 0} (I : Interface H X) where
  pub up_loop : ℕ → H → ℕ → Run H
  up_loop zero h j = out_of_fuel
  up_loop (suc k) h j =
      let i = (j - 1) / 2 in
      let rise = I.swap h i j >>= λ h'. up_loop k h' i in
      let step = I.less h j i >>= λ below. if below then rise else ok h in
      if i == j then ok h else step

  unfoldable pub up : H → ℕ → Run H
  unfolding up_loop
  up h j = up_loop (suc j) h j

  -- The child of `i` that comes first; the left child `j1` is below `n`.
  pub first_child : H → ℕ → ℕ → Run ℕ
  first_child h j1 n =
      if ltb (j1 + 1) n
      then (I.less h (j1 + 1) j1 >>= λ right. ok (if right then j1 + 1 else j1))
      else ok j1

  -- The loop of `down`: the collection, and the index at which it stops.
  pub down_loop : ℕ → H → ℕ → ℕ → Run (H × ℕ)
  down_loop zero h i n = out_of_fuel
  down_loop (suc k) h i n =
      let j1 = 2 * i + 1 in
      let step = first_child h j1 n >>= λ j.
      let sink = I.swap h i j >>= λ h'. down_loop k h' j n in
      I.less h j i >>= λ below. if below then sink else ok (h, i) in
      if leb n j1 then ok (h, i) else step

  -- `down` says whether the entry moved.
  unfoldable pub down : H → ℕ → ℕ → Run (H × Bool)
  unfolding down_loop first_child
  down h i0 n = down_loop (suc n) h i0 n >>= λ r. ok (r.0, ltb i0 r.1)

  init_loop : ℕ → H → ℕ → Run H
  init_loop zero h n = ok h
  init_loop (suc i) h n = down h i n >>= λ r. init_loop i r.0 n

  unfoldable pub init : H → Run H
  unfolding init_loop
  init h = init_loop (I.len h / 2) h (I.len h)

  unfoldable pub push : H → X → Run H
  push h x = let h' = I.push h x in up h' (I.len h' - 1)

  -- On an empty collection `n` is -1, and `Swap(0, -1)` panics.
  unfoldable pub pop : H → Run (X × H)
  pop h =
      if I.len h == 0
      then panic
      else do let n = I.len h - 1; h₁ ← I.swap h 0 n; r ← down h₁ 0 n; I.pop r.0

  -- At -1 both loops stop at once; any other negative index is out of range in `up`.
  unfoldable pub fix : H → ℤ → Run H
  fix h (pos i) = down h i (I.len h) >>= λ r. if r.1 then ok r.0 else up r.0 i
  fix h (negsuc zero) = ok h
  fix h (negsuc (suc k)) = panic
