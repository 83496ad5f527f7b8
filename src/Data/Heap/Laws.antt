-- ===== src/Data/Heap/Laws.antt =====
-- What an implementation of heap.Interface owes to container/heap, and the heap order.
use dotproxy.Base.{
  ℕ, suc, ◌-◌, ◌/◌, ◌≤◌, ◌<◌, ◌≡◌, List, [], ◌∷◌, ◌++◌, All, Perm, none, some, arith, length,
  get_elem?, set, get_elem?-in, get_elem?-append, length-perm, ◌==◌, if◌then◌else◌,
}
use dotproxy.Base.Array
use dotproxy.Base.Int.{ℤ, pos, ◌≤ℤ◌, ltb_ℤ}
use dotproxy.Base.Run.{ok, Returns}
use dotproxy.Data.Heap.{Interface}

-- The collection `h` is seen as a list of entries `E`. An entry of a higher rank comes first.
pub record Laws {H X : Type 0} (I : Interface H X) (E : Type 0) : Type 1 where
  pub IsValid : H → Type 0
  pub view : H → List E
  pub entry : X → E
  pub rank : E → ℤ
  pub len_lem : (h : H) → I.len h ≡ length (view h)
  pub less_lem :
      (h : H) (i j : ℕ) {a b : E}
      → get_elem? (view h) i ≡ some a
      → get_elem? (view h) j ≡ some b
      → I.less h i j ≡ ok (ltb_ℤ (rank b) (rank a))
  pub swap_lem :
      (h : H) (i j : ℕ)
      → IsValid h
      → i < length (view h)
      → j < length (view h)
      → Returns (λ h'. IsValid h' × (view h' ≡ Array.swap (view h) i j)) (I.swap h i j)
  pub push_lem :
      (h : H) (x : X)
      → IsValid h
      → IsValid (I.push h x) × (view (I.push h x) ≡ view h ++ entry x ∷ [])
  pub pop_lem :
      (h : H) (n : ℕ)
      → IsValid h
      → length (view h) ≡ suc n
      → Returns (λ r. IsValid r.1 × (view r.1 ++ entry r.0 ∷ [] ≡ view h)) (I.pop h)

abbrev pub parent : ℕ → ℕ
parent c = (c - 1) / 2

module _ {E : Type 0} (rank : E → ℤ) where
  -- The rank of the entry at an index.
  unfoldable pub rank_at : List E → ℕ → ℤ
  rank_at xs i = elim (get_elem? xs i) [ none ↦ pos 0 | some e ↦ rank e ]

  -- Every edge among the first `n` entries whose parent is at `lo` or later is in order.
  abbrev pub IsHeapFrom : ℕ → ℕ → List E → Type 0
  IsHeapFrom lo n xs =
      (c : ℕ) → 0 < c → c < n → lo ≤ parent c → rank_at xs c ≤ℤ rank_at xs (parent c)

  abbrev pub IsHeap : List E → Type 0
  IsHeap xs = IsHeapFrom 0 (length xs) xs

  pub rank_at-some : (xs : List E) (i : ℕ) {e : E} → get_elem? xs i ≡ some e → rank_at xs i ≡ rank e
  unfolding rank_at
  rank_at-some xs i p = ground arith

  -- A bound on the ranks by position is a bound on the entries.
  pub All-of_rank_at :
      (xs : List E) (b : ℤ)
      → ((c : ℕ) → c < length xs → rank_at xs c ≤ℤ b)
      → All (λ e. rank e ≤ℤ b) xs
  unfolding rank_at
  All-of_rank_at [] b h = tt
  All-of_rank_at (x ∷ xs) b h =
      (h 0 (omega arith), All-of_rank_at xs b λ c p. h (suc c) (omega arith))

  pub rank_at-append :
      (xs ys : List E) (c : ℕ) → c < length xs → rank_at (xs ++ ys) c ≡ rank_at xs c
  unfolding rank_at
  rank_at-append xs ys c p = ground (arith, get_elem?-append xs ys c p)

  pub rank_at-set :
      (xs : List E) (i : ℕ) (e : E) (c : ℕ)
      → i < length xs
      → rank_at (set xs i e) c ≡ (if i == c then rank e else rank_at xs c)
  unfolding rank_at
  rank_at-set xs i e c p = ground (arith, Array.get_elem?-set xs i c e p)

  pub rank_at-swap :
      (xs : List E) (i j : ℕ)
      → i < length xs
      → j < length xs
      → (c : ℕ)
      → rank_at (Array.swap xs i j) c
        ≡ (if j == c then rank_at xs i else if i == c then rank_at xs j else rank_at xs c)
  unfolding rank_at
  rank_at-swap xs i j hi hj c = ground (arith, Array.get_elem?-swap xs i j hi hj c)

module _ {H X E : Type 0} {I : Interface H X} (L : Laws I E) where
  open L use {IsValid, view, rank, less_lem, swap_lem}

  pub less_rank :
      (h : H) (i j : ℕ)
      → i < length (view h)
      → j < length (view h)
      → I.less h i j ≡ ok (ltb_ℤ (rank_at rank (view h) j) (rank_at rank (view h) i))
  less_rank h i j hi hj =
      let (a, p) = get_elem?-in (view h) i hi in
      let (b, q) = get_elem?-in (view h) j hj in
      rw (rank_at-some rank (view h) i p, rank_at-some rank (view h) j q) (less_lem h i j p q)

  -- What an exchange does: the entries move, and none is lost.
  pub record Swapped (h : H) (i j : ℕ) (h' : H) : Type 0 where
    pub valid : IsValid h'
    pub moved : view h' ≡ Array.swap (view h) i j
    pub perm : Perm (view h') (view h)
    pub size : length (view h') ≡ length (view h)
    pub ranks :
        (c : ℕ)
        → rank_at rank (view h') c ≡ (
            if j == c
            then rank_at rank (view h) i
            else if i == c
            then rank_at rank (view h) j
            else rank_at rank (view h) c)

  pub swap-Swapped :
      (h : H) (i j : ℕ)
      → IsValid h
      → i < length (view h)
      → j < length (view h)
      → Returns (Swapped h i j) (I.swap h i j)
  swap-Swapped h i j v hi hj =
      let (h', e, after) = swap_lem h i j v hi hj in
      let same = Array.swap-perm (view h) i j hi hj in
      (
        h',
        e,
        record {
          valid = after.0;
          moved = after.1;
          perm = rw (after.1) same;
          size = rw (after.1) (length-perm same);
          ranks = λ c. rw (after.1) (rank_at-swap rank (view h) i j hi hj c);
        },
      )
