-- ===== src/Data/Heap/Child.antt =====
-- `down`: the child with which it exchanges an entry.
use dotproxy.Base.{ℕ, ◌+◌, ◌*◌, ◌≤◌, ◌<◌, ◌≡◌, inl, inr, List, arith, length, ltb, Bool-cases}
use dotproxy.Base.Int.{ℤ, ◌≤ℤ◌, ltb_ℤ}
use dotproxy.Base.Run.{Returns}
use dotproxy.Data.Heap.{Interface, first_child}
use dotproxy.Data.Heap.Laws.{Laws, parent, rank_at, less_rank}

module _ {H X E : Type 0} {I : Interface H X} (L : Laws I E) where
  open L use {IsValid, view, rank}

  abbrev pub InOrder : List E → ℕ → Type 0
  InOrder xs c = rank_at rank xs c ≤ℤ rank_at rank xs (parent c)

  -- `j` is the child of `i` with the highest rank.
  pub record Best (xs : List E) (i n j : ℕ) : Type 0 where
    pub below : j < n
    pub child : parent j ≡ i
    pub positive : 0 < j
    pub best : (c : ℕ) → 0 < c → c < n → parent c ≡ i → rank_at rank xs c ≤ℤ rank_at rank xs j

  pub first_child-Best :
      (h : H) (i n : ℕ)
      → n ≤ length (view h)
      → 2 * i + 1 < n
      → Returns (Best (view h) i n) (first_child I h (2 * i + 1) n)
  unfolding first_child
  first_child-Best h i n m p = elim (Bool-cases (ltb (2 * i + 1 + 1) n)) [
    | inl two ↦
        let less = less_rank L h (2 * i + 1 + 1) (2 * i + 1) (ground arith) (omega arith) in
        elim (Bool-cases (ltb_ℤ (r (2 * i + 1)) (r (2 * i + 1 + 1)))) [
          | inl right ↦ (
            2 * i + 1 + 1,
            rw (two, less, right),
            record {
              below = ground arith;
              child = omega arith;
              positive = omega arith;
              best = λ c p q e. ground arith;
            },
          )
          | inr left ↦ (
            2 * i + 1,
            rw (two, less, left),
            record {
              below = ground arith;
              child = omega arith;
              positive = omega arith;
              best = λ c p q e. ground arith;
            },
          )
        ]
    | inr one ↦ (
      2 * i + 1,
      rw one,
      record {
        below = ground arith;
        child = omega arith;
        positive = omega arith;
        best = λ c p q e. ground arith;
      },
    )
  ]
    where
      r : ℕ → ℤ
      r = rank_at rank (view h)
