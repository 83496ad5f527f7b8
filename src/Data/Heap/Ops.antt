-- ===== src/Data/Heap/Ops.antt =====
-- heap.Init, Push and Pop: what they do to the heap order and to the entries.
use native.Mathlib.Nat.{le_refl}
use mathlib.Core.Path.{◌≡⟨◌⟩◌, ◌∎}
use mathlib.Core.List.Perm
use dotproxy.Base.{
  ℕ, zero, suc, ◌-◌, ◌/◌, ◌<◌, ◌≡◌, refl, inl, Bool, false, List, [], ◌∷◌, ◌++◌, Perm, some, arith,
  length, get_elem?, ◌==◌, length-perm, length-append, append_one-perm, get_elem?-append_last, sym,
  ◌∙◌, ap,
}
use dotproxy.Base.Array
use dotproxy.Base.Int.{◌≤ℤ◌}
use dotproxy.Base.Run.{Returns}
use dotproxy.Data.Heap.{Interface, init_loop, init, push, pop}
use dotproxy.Data.Heap.Laws.{
  Laws, Swapped, parent, rank_at, rank_at-some, rank_at-append, IsHeap, IsHeapFrom, swap-Swapped,
}
use dotproxy.Data.Heap.Up.{Sifted, up-Sifted}
use dotproxy.Data.Heap.Down.{DownInv, Settled, down-Settled}

module _ {H X E : Type 0} {I : Interface H X} (L : Laws I E) where
  open L use {IsValid, view, rank, entry}

  init_loop-Sifted :
      (i n : ℕ) (h : H)
      → length (view h) ≡ n
      → IsValid h
      → IsHeapFrom rank i n (view h)
      → Returns (Sifted L h) (init_loop I i h n)
  unfolding init_loop
  init_loop-Sifted zero n h size w s =
      (h, refl, record { valid = w; heap = rw size s; perm = Perm.refl _ })
  init_loop-Sifted (suc i) n h size w s =
      let (r, e, t) = down-Settled L i n h i (le_refl i) w (record {
        inside = omega arith;
        later = le_refl i;
        edges = λ c p q m x y. s c p q (omega arith);
        above = λ p q m x. absurd (omega arith);
        bridged = λ c p q x y m. absurd (omega arith);
      }) in
      let (h', e', u) =
        init_loop-Sifted i n r.0 (length-perm t.perm ∙ size) t.valid
          (λ c p q m. t.edges c p q m (inl (omega arith))) in
      rw e (h', e', record { valid = u.valid; heap = u.heap; perm = Perm.trans u.perm t.perm })

  -- Init makes a heap of any valid collection.
  pub init-Sifted : (h : H) → IsValid h → Returns (Sifted L h) (init I h)
  unfolding init
  init-Sifted h w = rw (L.len_lem h) (
      init_loop-Sifted (length (view h) / 2) (length (view h)) h refl w
        λ c p q m. absurd (omega arith))

  -- Push adds exactly the new entry.
  pub record Pushed (h : H) (x : X) (h' : H) : Type 0 where
    pub valid : IsValid h'
    pub heap : IsHeap rank (view h')
    pub perm : Perm (view h') (entry x ∷ view h)

  pub push-Pushed :
      (h : H) (x : X) → IsValid h → IsHeap rank (view h) → Returns (Pushed h x) (push I h x)
  unfolding push
  push-Pushed h x w s =
      let (w', seen) = L.push_lem h x w in
      let size = length-append (view h) (entry x ∷ []) in
      let (h', e, t) = up-Sifted L (I.push h x) (length (view h)) w' (
        rw seen (record {
          inside = omega (arith, size);
          edges = λ c p q m. ground (
            arith,
            size,
            s c,
            rank_at-append rank (view h) (entry x ∷ []) c,
            rank_at-append rank (view h) (entry x ∷ []) (parent c),
          );
          bridged = λ c p q m z. absurd (omega (arith, size));
        })) in
      let last : I.len (I.push h x) - 1 ≡ length (view h) =
        omega (arith, L.len_lem (I.push h x), ap length seen, size) in
      rw last (
        h',
        e,
        record {
          valid = t.valid;
          heap = t.heap;
          perm = Perm.trans t.perm (rw seen (append_one-perm (view h) (entry x)));
        },
      )

  root_below :
      (k : ℕ) (xs : List E) (c : ℕ)
      → IsHeap rank xs
      → c < k
      → c < length xs
      → rank_at rank xs c ≤ℤ rank_at rank xs 0
  root_below zero xs c s f p = absurd (omega arith)
  root_below (suc k) xs c s f p = ground (arith, s c, root_below k xs (parent c) s)

  -- Pop takes away one entry, from the root, and no entry has a higher rank.
  pub record Popped (h : H) (r : X × H) : Type 0 where
    pub valid : IsValid r.1
    pub heap : IsHeap rank (view r.1)
    pub perm : Perm (entry r.0 ∷ view r.1) (view h)
    pub root : get_elem? (view h) 0 ≡ some (entry r.0)
    pub highest : (c : ℕ) → c < length (view h) → rank_at rank (view h) c ≤ℤ rank (entry r.0)

  pop_start :
      (h h' : H) (n : ℕ)
      → length (view h) ≡ suc n
      → IsHeap rank (view h)
      → Swapped L h 0 n h'
      → DownInv L 0 0 n (view h') 0
  pop_start h h' n size s t = record {
    inside = omega (arith, t.size);
    later = omega arith;
    edges = λ c p q m x y. ground (arith, s c, t.ranks c, t.ranks (parent c));
    above = λ p q m x. absurd (omega arith);
    bridged = λ c p q x y m. absurd (omega arith);
  }

  pop_end :
      (h h₁ h₂ : H) (x : X) (h₃ : H) (n : ℕ) (b : Bool)
      → length (view h) ≡ suc n
      → IsHeap rank (view h)
      → Swapped L h 0 n h₁
      → Settled L 0 n 0 h₁ (h₂, b)
      → IsValid h₃ × (view h₃ ++ entry x ∷ [] ≡ view h₂)
      → Popped h (x, h₃)
  pop_end h h₁ h₂ x h₃ n b size s t u v = record {
    valid = v.0;
    heap = λ c p q m. ground (
      arith,
      left,
      u.edges c,
      rank_at-append rank (view h₃) (entry x ∷ []) c,
      rank_at-append rank (view h₃) (entry x ∷ []) (parent c),
      ap (λ xs. rank_at rank xs c) v.1,
      ap (λ xs. rank_at rank xs (parent c)) v.1,
    );
    perm =
        Perm.trans (Perm.symm (append_one-perm (view h₃) (entry x)))
          (rw (v.1) (Perm.trans u.perm t.perm));
    root = root;
    highest = λ c q.
        rw (rank_at-some rank (view h) 0 root) at (root_below (suc c) (view h) c s (omega arith) q);
  }
    where
      left : length (view h₃) ≡ n
      left = omega (
        arith,
        size,
        t.size,
        length-perm u.perm,
        ap length (v.1),
        length-append (view h₃) (entry x ∷ []),
      )

      root : get_elem? (view h) 0 ≡ some (entry x)
      root =
          get_elem? (view h) 0
          ≡⟨ ground (arith, Array.get_elem?-swap (view h) 0 n (omega arith) (omega arith) n) ⟩
            get_elem? (Array.swap (view h) 0 n) n
          ≡⟨ ap (λ xs. get_elem? xs n) (sym t.moved) ⟩ get_elem? (view h₁) n
          ≡⟨ sym (u.rest n (le_refl n)) ⟩ get_elem? (view h₂) n
          ≡⟨ ap (λ xs. get_elem? xs n) (sym (v.1)) ⟩ get_elem? (view h₃ ++ entry x ∷ []) n
          ≡⟨ get_elem?-append_last (view h₃) (entry x) n (sym left) ⟩ some (entry x) ∎

  pub pop-Popped :
      (h : H)
      → IsValid h
      → IsHeap rank (view h)
      → 0 < length (view h)
      → Returns (Popped h) (pop I h)
  unfolding pop
  pop-Popped h w s p =
      let n = length (view h) - 1 in
      let size : length (view h) ≡ suc n = omega arith in
      let (h₁, e₁, t) = swap-Swapped L h 0 n w p (omega arith) in
      let (r, e₂, u) = down-Settled L 0 n h₁ 0 (omega arith) t.valid (pop_start h h₁ n size s t) in
      let left : length (view r.0) ≡ suc n = omega (arith, length-perm u.perm, t.size) in
      let (y, e₃, v) = L.pop_lem r.0 n u.valid left in
      let some_left : (length (view h) == 0) ≡ false = ground arith in
      rw (L.len_lem h, some_left, e₁, e₂, e₃) (y, refl, pop_end h h₁ r.0 y.0 y.1 n r.1 size s t u v)
