-- ===== src/Data/Heap/Up.antt =====
-- `up`, from a heap in which one entry may be too far from the root.
use mathlib.Core.List.Perm
use native.Mathlib.Decide.{ℕ_discrete}
use dotproxy.Base.{
  ℕ, zero, suc, ◌-◌, ◌/◌, ◌<◌, ◌≡◌, ◌≢◌, refl, inl, inr, List, Perm, arith, length, Bool-cases,
  ◌==◌,
}
use dotproxy.Base.Int.{◌≤ℤ◌, ltb_ℤ}
use dotproxy.Base.Run.{ok, Returns, Returns-map}
use dotproxy.Data.Heap.{Interface, up_loop, up}
use dotproxy.Data.Heap.Laws.{Laws, Swapped, parent, rank_at, IsHeap, less_rank, swap-Swapped}

module _ {H X E : Type 0} {I : Interface H X} (L : Laws I E) where
  open L use {IsValid, view, rank}

  -- All edges but the one into `j` are in order, and so are the paths past `j`.
  pub record UpInv (xs : List E) (j : ℕ) : Type 0 where
    pub inside : j < length xs
    pub edges :
        (c : ℕ) → 0 < c → c < length xs → c ≢ j → rank_at rank xs c ≤ℤ rank_at rank xs (parent c)
    pub bridged :
        (c : ℕ)
        → 0 < c
        → c < length xs
        → parent c ≡ j
        → 0 < j
        → rank_at rank xs c ≤ℤ rank_at rank xs (parent j)

  -- A valid heap of the same entries.
  pub record Sifted (h h' : H) : Type 0 where
    pub valid : IsValid h'
    pub heap : IsHeap rank (view h')
    pub perm : Perm (view h') (view h)

  up_step :
      (h h' : H) (j : ℕ)
      → UpInv (view h) j
      → 0 < j
      → rank_at rank (view h) (parent j) ≤ℤ rank_at rank (view h) j
      → Swapped L h (parent j) j h'
      → UpInv (view h') (parent j)
  up_step h h' j v p above s = record {
    inside = omega (arith, v.inside, s.size);
    edges =
        λ c p q r. ground (arith, s.size, v.edges c, v.bridged c, s.ranks c, s.ranks (parent c));
    bridged = λ c p q r t.
        ground
          (arith, s.size, v.edges c, v.edges (parent j), s.ranks c, s.ranks (parent (parent j)));
  }

  pub up_loop-Sifted :
      (k : ℕ) (h : H) (j : ℕ)
      → j < k
      → IsValid h
      → UpInv (view h) j
      → Returns (Sifted h) (up_loop I k h j)
  unfolding up_loop
  up_loop-Sifted zero h j f w v = absurd (omega arith)
  up_loop-Sifted (suc k) h j f w v = elim (Bool-cases ((j - 1) / 2 == j)) [
    | inl root ↦ rw root (h, refl, here (λ c p q e. ground arith))
    | inr inner ↦ elim (Bool-cases (ltb_ℤ (rank_at rank (view h) i) (rank_at rank (view h) j))) [
      | inl above ↦
          let (h', swapped, s) = swap-Swapped L h i j w (omega (arith, v.inside)) v.inside in
          let ih =
            up_loop-Sifted k h' i (ground arith) s.valid
              (up_step h h' j v (ground arith) (ground arith) s) in
          rw (inner, less, above, swapped)
            (Returns-map ih
              λ h'' t. record { valid = t.valid; heap = t.heap; perm = Perm.trans t.perm s.perm })
      | inr below ↦ rw (inner, less, below) (h, refl, here (λ c p q e. ground arith))
    ]
  ]
    where
      i : ℕ
      i = parent j

      less : I.less h j i ≡ ok (ltb_ℤ (rank_at rank (view h) i) (rank_at rank (view h) j))
      less = less_rank L h j i v.inside (omega (arith, v.inside))

      here :
          ((c : ℕ)
            → 0 < c
            → c < length (view h)
            → c ≡ j
            → rank_at rank (view h) c ≤ℤ rank_at rank (view h) (parent c))
          → Sifted h h
      here last = record {
        valid = w;
        heap = λ c p q _. elim (ℕ_discrete c j) [ yes e ↦ last c p q e | no e ↦ v.edges c p q e ];
        perm = Perm.refl _;
      }

  -- `up` ends, and leaves a valid heap of the same entries.
  pub up-Sifted : (h : H) (j : ℕ) → IsValid h → UpInv (view h) j → Returns (Sifted h) (up I h j)
  unfolding up
  up-Sifted h j w v = up_loop-Sifted (suc j) h j (omega arith) w v
