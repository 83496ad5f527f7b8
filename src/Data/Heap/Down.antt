-- ===== src/Data/Heap/Down.antt =====
-- `down`, from a heap in which one entry may be too near the root.
use native.Mathlib.Decide.{ℕ_discrete}
use native.Mathlib.Nat.{le_refl}
use mathlib.Core.List.Perm
use dotproxy.Base.{
  ℕ, zero, suc, ◌+◌, ◌*◌, ◌≤◌, ◌<◌, ◌≡◌, ◌≢◌, refl, ◌⊎◌, inl, inr, ◌∙◌, Bool, false, List, Perm,
  arith, length, get_elem?, ltb, leb, Bool-cases, ltb→lt, true,
}
use dotproxy.Base.Array
use dotproxy.Base.Int.{◌≤ℤ◌, ltb_ℤ}
use dotproxy.Base.Run.{ok, Returns, Returns-map}
use dotproxy.Data.Heap.{Interface, first_child, down_loop, down}
use dotproxy.Data.Heap.Laws.{Laws, Swapped, parent, rank_at, less_rank, swap-Swapped}
use dotproxy.Data.Heap.Child.{InOrder, Best, first_child-Best}

module _ {H X E : Type 0} {I : Interface H X} (L : Laws I E) where
  open L use {IsValid, view, rank}

  -- Among the first `n` entries the edges that do not touch `i` are in order, and so are the paths
  -- past `i`. `top` is where the loop began: a later `i` is in order with its parent too.
  pub record DownInv (top lo n : ℕ) (xs : List E) (i : ℕ) : Type 0 where
    pub inside : n ≤ length xs
    pub later : top ≤ i
    pub edges : (c : ℕ) → 0 < c → c < n → lo ≤ parent c → c ≢ i → parent c ≢ i → InOrder L xs c
    pub above : 0 < i → i < n → lo ≤ parent i → top < i → InOrder L xs i
    pub bridged :
        (c : ℕ)
        → 0 < c
        → c < n
        → parent c ≡ i
        → 0 < i
        → lo ≤ parent i
        → rank_at rank xs c ≤ℤ rank_at rank xs (parent i)

  -- Where the loop stops, from `i`: all edges are in order, but perhaps for the one into `top` if
  -- nothing moved. Entries from `n` on stay.
  pub record Sunk (top lo n i : ℕ) (h : H) (r : H × ℕ) : Type 0 where
    pub valid : IsValid r.0
    pub later : i ≤ r.1
    pub edges :
        (c : ℕ) → 0 < c → c < n → lo ≤ parent c → (c ≢ top) ⊎ (top < r.1) → InOrder L (view r.0) c
    pub still : r.1 ≡ i → view r.0 ≡ view h
    pub perm : Perm (view r.0) (view h)
    pub rest : (c : ℕ) → n ≤ c → get_elem? (view r.0) c ≡ get_elem? (view h) c

  sink :
      (top lo n : ℕ) (h h' : H) (i j : ℕ)
      → DownInv top lo n (view h) i
      → lo ≤ i
      → Best L (view h) i n j
      → rank_at rank (view h) i ≤ℤ rank_at rank (view h) j
      → Swapped L h i j h'
      → DownInv top lo n (view h') j
  sink top lo n h h' i j v l b up s = record {
    inside = omega (arith, s.size, v.inside);
    later = omega (arith, v.later, b.child, b.positive);
    edges = λ c p q m t u. ground (
      arith,
      b.child,
      v.edges c,
      v.bridged c,
      v.above,
      b.best c,
      s.ranks c,
      s.ranks (parent c),
      v.bridged j,
      b.positive,
      b.below,
    );
    above = λ p q m t. ground (arith, b.child, s.ranks j, s.ranks (parent j));
    bridged = λ c p q e t m.
        ground (arith, b.child, b.positive, v.edges c, s.ranks c, s.ranks (parent j));
  }

  stopped :
      (top lo n : ℕ) (h : H) (i : ℕ)
      → IsValid h
      → DownInv top lo n (view h) i
      → ((c : ℕ) → 0 < c → c < n → parent c ≡ i → InOrder L (view h) c)
      → Sunk top lo n i h (h, i)
  stopped top lo n h i w v out = record {
    valid = w;
    later = le_refl i;
    edges = λ c p q m t. elim (ℕ_discrete (parent c) i) [
      | yes e ↦ out c p q e
      | no e ↦ elim (ℕ_discrete c i) [
        | yes here ↦ ground (arith, v.above)
        | no there ↦ v.edges c p q m there e
      ]
    ];
    still = λ _. refl;
    perm = Perm.refl _;
    rest = λ c m. refl;
  }

  Swapped-rest :
      (h h' : H) (i j n c : ℕ)
      → i < n
      → j < n
      → n ≤ length (view h)
      → n ≤ c
      → Swapped L h i j h'
      → get_elem? (view h') c ≡ get_elem? (view h) c
  Swapped-rest h h' i j n c p q m l s =
      rw (s.moved) (ground (arith, Array.get_elem?-swap (view h) i j (omega arith) (omega arith) c))

  -- One exchange before the rest of the loop.
  carry :
      (top lo n i j : ℕ) (h h' : H) (r : H × ℕ)
      → i < j
      → j < n
      → n ≤ length (view h)
      → Swapped L h i j h'
      → Sunk top lo n j h' r
      → Sunk top lo n i h r
  carry top lo n i j h h' r p q m s t = record {
    valid = t.valid;
    later = omega (arith, t.later);
    edges = t.edges;
    still = λ e. absurd (omega (arith, t.later));
    perm = Perm.trans t.perm s.perm;
    rest = λ c l. t.rest c l ∙ Swapped-rest h h' i j n c (omega arith) q m l s;
  }

  pub down_loop-Sunk :
      (k top lo n : ℕ) (h : H) (i : ℕ)
      → 0 < k
      → n < k + i
      → lo ≤ i
      → IsValid h
      → DownInv top lo n (view h) i
      → Returns (Sunk top lo n i h) (down_loop I k h i n)
  unfolding down_loop
  down_loop-Sunk zero top lo n h i g f l w v = absurd (omega arith)
  down_loop-Sunk (suc k) top lo n h i g f l w v = elim (Bool-cases (leb n (2 * i + 1))) [
    | inl leaf ↦ ((h, i), rw leaf, stopped top lo n h i w v (λ c p q e. absurd (ground arith)))
    | inr inner ↦
        let (j, chosen, b) = first_child-Best L h i n v.inside (ground arith) in
        go (down_loop-Sunk k top lo n) inner j chosen b (omega (arith, b.child, b.positive))
  ]
    where
      go :
          ((h' : H) (j : ℕ)
            → 0 < k
            → n < k + j
            → lo ≤ j
            → IsValid h'
            → DownInv top lo n (view h') j
            → Returns (Sunk top lo n j h') (down_loop I k h' j n))
          → leb n (2 * i + 1) ≡ false
          → (j : ℕ) → first_child I h (2 * i + 1) n ≡ ok j
          → Best L (view h) i n j
          → i < j
          → Returns (Sunk top lo n i h) (down_loop I (suc k) h i n)
      go rec inner j chosen b p =
          let less =
            less_rank L h j i (omega (arith, b.below, v.inside))
              (omega (arith, b.below, v.inside)) in
          elim (Bool-cases (ltb_ℤ (rank_at rank (view h) i) (rank_at rank (view h) j))) [
            | inl up ↦
                let (h', swapped, s) =
                  swap-Swapped L h i j w (omega (arith, b.below, v.inside))
                    (omega (arith, b.below, v.inside)) in
                rw (inner, chosen, less, up, swapped)
                  (Returns-map
                    (rec h' j (omega (arith, b.below)) (omega arith) (omega arith) s.valid
                      (sink top lo n h h' i j v l b (ground arith) s))
                    λ r t. carry top lo n i j h h' r p b.below v.inside s t)
            | inr least ↦ (
              (h, i),
              rw (inner, chosen, less, least),
              stopped top lo n h i w v (λ c p q e. ground (arith, b.best c)),
            )
          ]

  -- What `down` promises: it ends; the edges are in order, but perhaps for the one into `i` if the
  -- entry did not move.
  pub record Settled (lo n i : ℕ) (h : H) (r : H × Bool) : Type 0 where
    pub valid : IsValid r.0
    pub edges :
        (c : ℕ) → 0 < c → c < n → lo ≤ parent c → (c ≢ i) ⊎ (r.1 ≡ true) → InOrder L (view r.0) c
    pub still : r.1 ≡ false → view r.0 ≡ view h
    pub perm : Perm (view r.0) (view h)
    pub rest : (c : ℕ) → n ≤ c → get_elem? (view r.0) c ≡ get_elem? (view h) c

  Sunk-Settled :
      (lo n i : ℕ) (h : H) (r : H × ℕ) → Sunk i lo n i h r → Settled lo n i h (r.0, ltb i r.1)
  Sunk-Settled lo n i h r s = record {
    valid = s.valid;
    edges = λ c p q m t. s.edges c p q m (side c t);
    still = λ e. s.still (ground (arith, s.later));
    perm = s.perm;
    rest = s.rest;
  }
    where
      side : (c : ℕ) → (c ≢ i) ⊎ (ltb i r.1 ≡ true) → (c ≢ i) ⊎ (i < r.1)
      side c (inl e) = inl e
      side c (inr e) = inr (ltb→lt _ _ e)

  pub down-Settled :
      (lo n : ℕ) (h : H) (i : ℕ)
      → lo ≤ i
      → IsValid h
      → DownInv i lo n (view h) i
      → Returns (Settled lo n i h) (down I h i n)
  unfolding down
  down-Settled lo n h i l w v =
      let (r, e, s) = down_loop-Sunk (suc n) i lo n h i (omega arith) (omega arith) l w v in
      ((r.0, ltb i r.1), rw e, Sunk-Settled lo n i h r s)
