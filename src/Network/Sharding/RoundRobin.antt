-- ===== src/Network/Sharding/RoundRobin.antt =====
-- RoundRobinShardedClient, and RandomShardedClient, which asks a client at random.
pub mod Round
use native.Mathlib.Nat.{mod_self, mod-eq_of_lt}
use native.Mathlib.Decide.{ℕ_discrete}
use dotproxy.Base.{
  ℕ, zero, suc, ◌+◌, ◌-◌, ◌%◌, ◌<◌, ◌≤◌, ◌≡◌, ◌≢◌, refl, ap, sym, ◌∙◌, some, false, List, ◌∷◌,
  arith, length, length-set, get_elem?, get_elem?-in, get_elem?-lt, some_inj, set, All, All-set,
  All-get_elem?, leb, ◌==◌, if◌then◌else◌,
}
use dotproxy.Base.Array.{get_elem?-set}
use dotproxy.Base.Run.{ok, or_panic, Returns}
use dotproxy.Network.World.{Outcome, Env, World, M, pure, ◌>>=◌, lift, draw, drawn}
use dotproxy.Network.Sharding.Availability.Select.{DrawsBelow}
use dotproxy.Network.Pool.{PersistentConn}
use dotproxy.Network.Client.{Client, Keeps}

pub record RoundRobin (C : Type 0) : Type 0 where
  pub clients : List C
  pub index : ℕ

abbrev pub new_round_robin : {C : Type 0} → List C → RoundRobin C
new_round_robin clients = record { clients = clients; index = 0 }

module _ {C : Type 0} (I : Client C) where
  -- `c.rrIdx = (c.rrIdx + 1) % len(c.clients)`, deferred, comes after the client's call. With no client,
  -- the index panics.
  unfoldable pub conn : RoundRobin C → M (RoundRobin C × Outcome PersistentConn)
  conn s = do
    client ← lift (or_panic (get_elem? s.clients s.index))
    r ← I.conn client
    pure (
      record { clients = set s.clients s.index r.0; index = (s.index + 1) % length s.clients },
      r.1,
    )

  -- RandomShardedClient.Conn; its state is its list of clients.
  unfoldable pub random_conn : Env → List C → M (List C × Outcome PersistentConn)
  random_conn env clients = do
    i ← draw env (length clients)
    client ← lift (or_panic (get_elem? clients i))
    r ← I.conn client
    pure (set clients i r.0, r.1)

pub advance : (i n : ℕ) → i < n → (i + 1) % n ≡ (if i + 1 == n then 0 else i + 1)
advance i n p = elim (ℕ_discrete (i + 1) n) [
  | yes e ↦ ap (λ k. k % n) e ∙ mod_self n ∙ ground arith
  | no e ↦ mod-eq_of_lt {n = i + 1} {m = n} (omega arith) ∙ ground arith
]

module _ {C : Type 0} (I : Client C) (V : C → Type 0) (keeps : Keeps V I) where
  -- One call, with the index at the place of a client: that client alone is asked, and the index moves
  -- on to the next place, from the last one to the first.
  pub record Turned (s s' : RoundRobin C) (o : Outcome PersistentConn) (w w' : World) : Type 0 where
    pub valid : All V s'.clients
    pub size : length s'.clients ≡ length s.clients
    pub index : s'.index ≡ (if s.index + 1 == length s.clients then 0 else s.index + 1)
    pub asked :
        (c : C) × (c' : C) × (get_elem? s.clients s.index ≡ some c)
        × (I.conn c w ≡ ok ((c', o), w'))
        × (get_elem? s'.clients s.index ≡ some c')
        × (s'.clients ≡ set s.clients s.index c')
    pub others : (j : ℕ) → j ≢ s.index → get_elem? s'.clients j ≡ get_elem? s.clients j

  -- From valid clients and an index in range, Conn ends: it asks the client at the index and no
  -- other, gives what that client gives, and moves the index on by one, from the last place to the
  -- first.
  pub conn-Turned :
      (s : RoundRobin C) (w : World)
      → s.index < length s.clients
      → All V s.clients
      → Returns (λ r. Turned s r.0.0 r.0.1 w r.1) (conn I s w)
  unfolding conn
  conn-Turned s w p valid =
      let (c, at) = get_elem?-in s.clients s.index p in
      let (((c', o), w'), called, kept) =
        keeps c w (All-get_elem? V s.clients s.index c valid at) in
      let clients = set s.clients s.index c' in
      (
        ((record { clients = clients; index = (s.index + 1) % length s.clients }, o), w'),
        rw at (rw called refl),
        record {
          valid = All-set V s.clients s.index c' valid kept;
          size = length-set s.clients s.index c';
          index = advance s.index (length s.clients) p;
          asked = (
            c,
            c',
            at,
            called,
            ground (arith, get_elem?-set s.clients s.index s.index c' p),
            refl,
          );
          others = λ j e. ground (arith, get_elem?-set s.clients s.index j c' p);
        },
      )

  -- The client at a place in range is asked, and it alone changes.
  pub record Drawn (clients clients' : List C) (o : Outcome PersistentConn) (w w' : World)
      : Type 0 where
    pub place : ℕ
    pub before : C
    pub after : C
    pub at : get_elem? clients place ≡ some before
    pub bound : ℕ
    pub number : ℕ
    pub asked : I.conn before (drawn bound number ∷ w) ≡ ok ((after, o), w')
    pub changed : clients' ≡ set clients place after

  -- From valid clients, at least one, with draws in range, the random policy's Conn ends, and asks
  -- one client, which alone changes.
  pub random_conn-Drawn :
      (env : Env) (clients : List C) (w : World)
      → DrawsBelow env
      → 0 < length clients
      → All V clients
      → Returns (λ r. All V r.0.0 × Drawn clients r.0.0 r.0.1 w r.1) (random_conn I env clients w)
  unfolding random_conn
  random_conn-Drawn env clients w draws p valid =
      let i = env.intn w (length clients) in
      let w₁ = drawn (length clients) i ∷ w in
      let (c, at) = get_elem?-in clients i (draws w (length clients) p) in
      let (((c', o), w'), called, kept) = keeps c w₁ (All-get_elem? V clients i c valid at) in
      let more : (length clients == 0) ≡ false = ground arith in
      (
        ((set clients i c', o), w'),
        rw more (rw at (rw called refl)),
        (
          All-set V clients i c' valid kept,
          record {
            place = i;
            before = c;
            after = c';
            at = at;
            bound = length clients;
            number = i;
            asked = called;
            changed = refl;
          },
        ),
      )
