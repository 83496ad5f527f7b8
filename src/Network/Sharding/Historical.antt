-- ===== src/Network/Sharding/Historical.antt =====
-- HistoricalConnectionsShardedClient: the client that has given the fewest connections.
use native.Mathlib.Decide.{ℕ_discrete}
use dotproxy.Base.{
  ℕ, zero, suc, ◌+◌, ◌<◌, ◌≤◌, ◌≡◌, refl, ap, sym, ◌∙◌, ◌⊎◌, inl, inr, Option, none, some, Bool,
  true, List, [], ◌∷◌, arith, subst, length, get_elem?, some_inj, set, All, All-set, All-get_elem?,
  ltb, Bool-cases, if◌then◌else◌,
}
use dotproxy.Base.Run.{ok, or_panic, panic, Returns}
use dotproxy.Network.World.{Outcome, World, M, pure, ◌>>=◌, lift}
use dotproxy.Network.Pool.{PersistentConn}
use dotproxy.Network.Client.{Client, Keeps}

module _ {C : Type 0} (I : Client C) where
  abbrev pub served : C → ℕ
  served c = (I.stats c).successful_connections

  -- `client == nil || candidate.Stats().… < client.Stats().…`
  abbrev pub is_better : C → Option (ℕ × C) → Bool
  is_better c none = true
  is_better c (some (i, client)) = ltb (served c) (served client)

  -- The loop over the candidates from place `i` on, with the client chosen so far.
  abbrev pub fewest_from : ℕ → List C → Option (ℕ × C) → Option (ℕ × C)
  fewest_from i [] client = client
  fewest_from i (c ∷ rest) client =
      fewest_from (suc i) rest (if is_better c client then some (i, c) else client)

  -- A nil client panics. The state of the sharded client is its list of clients.
  unfoldable pub conn : List C → M (List C × Outcome PersistentConn)
  conn clients = do
    chosen ← lift (or_panic (fewest_from 0 clients none))
    r ← I.conn chosen.1
    pure (set clients chosen.0 r.0, r.1)

  -- The best of the clients before place `n`: none has served fewer, and each before it more.
  abbrev pub IsFewest : List C → ℕ → ℕ → C → Type 0
  IsFewest clients n i client =
      (i < n)
      × (get_elem? clients i ≡ some client)
      × ((j : ℕ) (c : C)
          → get_elem? clients j ≡ some c
          → j < n
          → (served client ≤ served c) × (j < i → served client < served c))

  abbrev IsRest : List C → ℕ → List C → Type 0
  IsRest clients i rest = (j : ℕ) → get_elem? rest j ≡ get_elem? clients (i + j)

  IsRest-tail :
      (clients : List C) (i : ℕ) (c : C) (rest : List C)
      → IsRest clients i (c ∷ rest)
      → IsRest clients (suc i) rest
  IsRest-tail clients i c rest h j = h (suc j) ∙ ap (get_elem? clients) (omega arith)

  next_at :
      (clients : List C) (i : ℕ) (c : C) (rest : List C)
      → IsRest clients i (c ∷ rest)
      → get_elem? clients i ≡ some c
  next_at clients i c rest h = ap (get_elem? clients) (omega arith) ∙ sym (h 0)

  -- One step of the loop.
  IsFewest-better :
      (clients : List C) (i k : ℕ) (b c : C)
      → get_elem? clients i ≡ some c
      → IsFewest clients i k b
      → served c < served b
      → IsFewest clients (suc i) i c
  IsFewest-better clients i k b c at fewest less = (
    omega arith,
    at,
    λ j d at' p. elim (ℕ_discrete j i) [
      | yes e ↦
          let same : c ≡ d = some_inj c d (sym at ∙ ap (get_elem? clients) (sym e) ∙ at') in
          (omega (arith, ap served same), λ q. absurd (omega arith))
      | no e ↦
          let before = (fewest.2 j d at' (omega arith)).0 in
          (omega (arith, before, less), λ q. omega (arith, before, less))
    ],
  )

  IsFewest-kept :
      (clients : List C) (i k : ℕ) (b c : C)
      → get_elem? clients i ≡ some c
      → IsFewest clients i k b
      → served b ≤ served c
      → IsFewest clients (suc i) k b
  IsFewest-kept clients i k b c at fewest more = (
    omega (arith, fewest.0),
    fewest.1,
    λ j d at' p. elim (ℕ_discrete j i) [
      | yes e ↦
          let same : c ≡ d = some_inj c d (sym at ∙ ap (get_elem? clients) (sym e) ∙ at') in
          (omega (arith, ap served same), λ q. absurd (omega (arith, fewest.0)))
      | no e ↦ fewest.2 j d at' (omega arith)
    ],
  )

  fewest_from-IsFewest :
      (clients : List C) (i : ℕ) (rest : List C) (k : ℕ) (b : C)
      → IsRest clients i rest
      → IsFewest clients i k b
      → (k' : ℕ) × (b' : C) × (fewest_from i rest (some (k, b)) ≡ some (k', b'))
        × IsFewest clients (i + length rest) k' b'
  fewest_from-IsFewest clients i [] k b h fewest =
      (k, b, refl, subst (λ n. IsFewest clients n k b) (omega arith) fewest)
  fewest_from-IsFewest clients i (c ∷ rest) k b h fewest =
      let at = next_at clients i c rest h in
      let tail = IsRest-tail clients i c rest h in
      elim (Bool-cases (ltb (served c) (served b))) [
        | inl less ↦
            let (k', b', e, f) =
              fewest_from-IsFewest clients (suc i) rest i c tail
                (IsFewest-better clients i k b c at fewest (ground arith)) in
            (k', b', rw less e, subst (λ n. IsFewest clients n k' b') (omega arith) f)
        | inr more ↦
            let (k', b', e, f) =
              fewest_from-IsFewest clients (suc i) rest k b tail
                (IsFewest-kept clients i k b c at fewest (ground arith)) in
            (k', b', rw more e, subst (λ n. IsFewest clients n k' b') (omega arith) f)
      ]

  first-IsFewest : (c : C) (rest : List C) → IsFewest (c ∷ rest) 1 0 c
  first-IsFewest c rest = (omega arith, refl, at_first)
    where
      at_first :
          (j : ℕ) (d : C)
          → get_elem? (c ∷ rest) j ≡ some d
          → j < 1
          → (served c ≤ served d) × (j < 0 → served c < served d)
      at_first zero d at p = (omega (arith, ap served (some_inj c d at)), λ q. absurd (omega arith))
      at_first (suc j) d at p = absurd (omega arith)

  next_place : (c : C) (rest : List C) (j : ℕ) → get_elem? rest j ≡ get_elem? (c ∷ rest) (1 + j)
  next_place c rest j = let e : suc j ≡ 1 + j = omega arith in ap (get_elem? (c ∷ rest)) e

  -- The client that Conn asks: the first of those with the fewest successful connections. It alone
  -- changes.
  pub record Asked (clients clients' : List C) (o : Outcome PersistentConn) (w w' : World)
      : Type 0 where
    pub place : ℕ
    pub client : C
    pub asked : C
    pub fewest : IsFewest clients (length clients) place client
    pub called : I.conn client w ≡ ok ((asked, o), w')
    pub changed : clients' ≡ set clients place asked

  -- From valid clients, Conn ends and asks the first of those with the fewest successful
  -- connections, which alone changes; with no client, it panics.
  pub conn-Asked :
      (V : C → Type 0) (clients : List C) (w : World)
      → Keeps V I
      → All V clients
      → (clients ≡ []) × (conn clients w ≡ panic)
        ⊎ Returns (λ r. All V r.0.0 × Asked clients r.0.0 r.0.1 w r.1) (conn clients w)
  unfolding conn
  conn-Asked V [] w keeps valid = inl (refl, refl)
  conn-Asked V (c ∷ rest) w keeps valid =
      let first : IsFewest (c ∷ rest) 1 0 c = first-IsFewest c rest in
      let (k, b, e, fewest) =
        fewest_from-IsFewest (c ∷ rest) 1 rest 0 c (λ j. next_place c rest j) first in
      let (((b', o), w'), called, kept) =
        keeps b w (All-get_elem? V (c ∷ rest) k b valid fewest.1) in
      inr (
        ((set (c ∷ rest) k b', o), w'),
        rw e (rw called refl),
        (
          All-set V (c ∷ rest) k b' valid kept,
          record {
            place = k;
            client = b;
            asked = b';
            fewest = subst (λ n. IsFewest (c ∷ rest) n k b) (omega arith) fewest;
            called = called;
            changed = refl;
          },
        ),
      )
