-- ===== src/Network/Sharding/RoundRobin/Round.antt =====
-- RoundRobinShardedClient: as many calls in a row as there are clients.
use native.Mathlib.Decide.{ℕ_discrete}
use dotproxy.Base.{
  ℕ, zero, suc, ◌+◌, ◌-◌, ◌<◌, ◌≤◌, ◌≡◌, refl, ap, sym, ◌∙◌, some, arith, length, get_elem?,
  get_elem?-lt, some_inj, All, leb, if◌then◌else◌,
}
use dotproxy.Base.Run.{ok, Returns}
use dotproxy.Network.World.{Outcome, World, M, pure, ◌>>=◌}
use dotproxy.Network.Pool.{PersistentConn}
use dotproxy.Network.Client.{Client, Keeps}
use dotproxy.Network.Sharding.RoundRobin.{RoundRobin, conn, Turned, conn-Turned}

module _ {C : Type 0} (I : Client C) where
  -- Client `i` was asked for a connection, which took its state from `c` to `c'`.
  abbrev pub WasAsked : C → C → Type 0
  WasAsked c c' = (w w' : World) × (o : Outcome PersistentConn) × (I.conn c w ≡ ok ((c', o), w'))

  -- `n` calls in a row.
  pub conns : ℕ → RoundRobin C → M (RoundRobin C)
  conns zero s = pure s
  conns (suc n) s = conn I s >>= λ r. conns n r.0

-- How many places lie from `start` to place `i` in a circle of `n`.
abbrev distance : ℕ → ℕ → ℕ → ℕ
distance n start i = if leb start i then i - start else i + n - start

module _ {C : Type 0} (I : Client C) (V : C → Type 0) (keeps : Keeps V I) where
  -- Of `k` calls, at most one for each of the `n` clients, with the index at `start`: the clients on the
  -- next `k` places are asked once, and the others are as they were.
  abbrev Asked : ℕ → ℕ → RoundRobin C → RoundRobin C → ℕ → Type 0
  Asked n k s s' i =
      (c : C)
      → get_elem? s.clients i ≡ some c
      → (distance n s.index i < k → (c' : C) × (get_elem? s'.clients i ≡ some c') × WasAsked I c c')
        × (k ≤ distance n s.index i → get_elem? s'.clients i ≡ some c)

  Asked-turn :
      (n k i : ℕ) (s s₁ s' : RoundRobin C) (o : Outcome PersistentConn) (w w₁ : World)
      → length s.clients ≡ n
      → s.index < n
      → i < n
      → suc k ≤ n
      → Turned I V keeps s s₁ o w w₁
      → Asked n k s₁ s' i
      → Asked n (suc k) s s' i
  Asked-turn n k i s s₁ s' o w w₁ size p q enough t later c at =
      let (c₀, c₁, at₀, called, at₁, _) = t.asked in
      elim (ℕ_discrete i s.index) [
        | yes e ↦
            let at_index : get_elem? s.clients s.index ≡ some c =
              ap (get_elem? s.clients) (sym e) ∙ at in
            let same : c₀ ≡ c = some_inj c₀ c (sym at₀ ∙ at_index) in
            let now : get_elem? s₁.clients i ≡ some c₁ = ap (get_elem? s₁.clients) e ∙ at₁ in
            let far : k ≤ distance n s₁.index i = ground (arith, t.index) in
            (
              λ h. (c₁, (later c₁ now).1 far, (w, w₁, o, rw (← same) called)),
              λ h. absurd (ground arith),
            )
        | no e ↦
            let kept : get_elem? s₁.clients i ≡ some c = t.others i e ∙ at in
            let nearer : distance n s.index i ≡ suc (distance n s₁.index i) =
              ground (arith, t.index) in
            (
              λ h. (later c kept).0 (omega (arith, nearer)),
              λ h. (later c kept).1 (omega (arith, nearer)),
            )
      ]

  conns-Asked :
      (n k : ℕ) (s : RoundRobin C) (w : World)
      → length s.clients ≡ n
      → s.index < n
      → k ≤ n
      → All V s.clients
      → Returns
          (λ r.
            (length r.0.clients ≡ n) × All V r.0.clients × ((i : ℕ) → i < n → Asked n k s r.0 i))
          (conns I k s w)
  unfolding conns
  conns-Asked n zero s w size p enough valid =
      ((s, w), refl, (size, valid, λ i q c at. (λ h. absurd (omega arith), λ h. at)))
  conns-Asked n (suc k) s w size p enough valid =
      let (((s₁, o), w₁), e, t) = conn-Turned I V keeps s w (omega arith) valid in
      let size₁ : length s₁.clients ≡ n = t.size ∙ size in
      let inside : s₁.index < n = ground (arith, t.index) in
      let ((s', w'), e', (size', valid', later)) =
        conns-Asked n k s₁ w₁ size₁ inside (omega arith) t.valid in
      (
        (s', w'),
        rw e e',
        (size', valid', λ i q. Asked-turn n k i s s₁ s' o w w₁ size p q enough t (later i q)),
      )

  -- From valid clients and an index in range, as many calls in a row as there are clients end, and
  -- ask each client for a connection exactly once, whichever client's turn it is first.
  pub conns-WasAsked :
      (s : RoundRobin C) (w : World)
      → s.index < length s.clients
      → All V s.clients
      → Returns
          (λ r.
            (i : ℕ) (c : C)
            → get_elem? s.clients i ≡ some c
            → (c' : C) × (get_elem? r.0.clients i ≡ some c') × WasAsked I c c')
          (conns I (length s.clients) s w)
  conns-WasAsked s w p valid =
      let n = length s.clients in
      let (r, e, (_, _, asked)) = conns-Asked n n s w refl p (omega arith) valid in
      (r, e, λ i c at. let q = get_elem?-lt s.clients i c at in (asked i q c at).0 (ground arith))
