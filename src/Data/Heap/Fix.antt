-- ===== src/Data/Heap/Fix.antt =====
-- heap.Fix: what it does to the heap order and to the entries.
use native.Mathlib.Nat.{le_refl}
use mathlib.Core.List.Perm
use dotproxy.Base.{
  ℕ, ◌<◌, ◌≡◌, ◌≢◌, refl, inl, inr, Bool, true, false, List, arith, length, length-perm,
  if◌then◌else◌,
}
use dotproxy.Base.Int.{pos, ◌≤ℤ◌}
use dotproxy.Base.Run.{ok, Returns}
use dotproxy.Data.Heap.{Interface, up, fix}
use dotproxy.Data.Heap.Laws.{Laws, parent, rank_at}
use dotproxy.Data.Heap.Up.{UpInv, Sifted, up-Sifted}
use dotproxy.Data.Heap.Down.{Settled, down-Settled}

module _ {H X E : Type 0} {I : Interface H X} (L : Laws I E) where
  open L use {IsValid, view, rank}

  -- The start of Fix: all edges that do not touch `i` are in order, and so are the paths past `i`.
  pub record FixInv (xs : List E) (i : ℕ) : Type 0 where
    pub inside : i < length xs
    pub edges :
        (c : ℕ)
        → 0 < c
        → c < length xs
        → c ≢ i
        → parent c ≢ i
        → rank_at rank xs c ≤ℤ rank_at rank xs (parent c)
    pub bridged :
        (c : ℕ)
        → 0 < c
        → c < length xs
        → parent c ≡ i
        → 0 < i
        → rank_at rank xs c ≤ℤ rank_at rank xs (parent i)

  fix_up :
      (h h' : H) (i : ℕ)
      → FixInv (view h) i
      → Settled L 0 (length (view h)) i h (h', false)
      → UpInv L (view h') i
  fix_up h h' i v s = rw (s.still refl) (record {
    inside = v.inside;
    edges = λ c p q m. rw (s.still refl) at (s.edges c p q (omega arith) (inl m));
    bridged = v.bridged;
  })

  -- Fix restores the heap around one changed entry.
  pub fix-Sifted :
      (h : H) (i : ℕ) → IsValid h → FixInv (view h) i → Returns (Sifted L h) (fix I h (pos i))
  unfolding fix
  fix-Sifted h i w v =
      let (r, e, s) = down-Settled L 0 (length (view h)) h i (omega arith) w (record {
        inside = le_refl _;
        later = le_refl i;
        edges = λ c p q m x y. v.edges c p q x y;
        above = λ p q m x. absurd (omega arith);
        bridged = λ c p q x y m. v.bridged c p q x y;
      }) in
      rw (L.len_lem h, e) (finish r.0 r.1 s)
    where
      finish :
          (h' : H) (b : Bool)
          → Settled L 0 (length (view h)) i h (h', b)
          → Returns (Sifted L h) (if b then ok h' else up I h' i)
      finish h' true s = (
        h',
        refl,
        record {
          valid = s.valid;
          heap = λ c p q m. s.edges c p (rw (length-perm s.perm) at q) m (inr refl);
          perm = s.perm;
        },
      )
      finish h' false s =
          let (h'', e, t) = up-Sifted L h' i s.valid (fix_up h h' i v s) in
          (h'', e, record { valid = t.valid; heap = t.heap; perm = Perm.trans t.perm s.perm })
