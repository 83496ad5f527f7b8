-- ===== src/Network/Sharding/Interleaved.antt =====
-- RoundRobinShardedClient.Conn, called by many goroutines at once. It takes no lock: a call reads the index
-- to choose its client; when the client's own call is over, it reads the index again, adds one and writes
-- the index. Each of these is a step here. What the clients do in between is left out.
use native.Mathlib.Nat.{mod-lt}
use dotproxy.Base.{
  ℕ, ◌+◌, ◌%◌, ◌<◌, ◌≡◌, refl, subst, List, [], ◌∷◌, ◌++◌, arith, All, ltb, ◌==◌, if◌then◌else◌,
}
use dotproxy.Base.Run.{Run, ok, panic, Returns, Returns-at}

-- How far a call is: before its choice, with its place before the second read, with what it has read, and
-- at its end.
pub data Stage : Type 0 where
  to_choose : Stage
  to_load ended : ℕ → Stage
  to_store : ℕ → ℕ → Stage

-- The index, and all the calls.
pub record System : Type 0 where
  pub index : ℕ
  pub calls : List Stage

-- What a call does next with `n` clients: an index out of range panics, and so does a division by 0.
unfoldable pub turn : ℕ → Stage → ℕ → Run (Stage × ℕ)
turn n to_choose k = if ltb k n then ok (to_load k, k) else panic
turn n (to_load i) k = ok (to_store i k, k)
turn n (to_store i v) k = if n == 0 then panic else ok (ended i, (v + 1) % n)
turn n (ended i) k = ok (ended i, k)

-- Calls arrive and have their turns in any order.
pub data Steps (n : ℕ) : System → Type 0 where
  start : Steps n (record { index = 0; calls = [] })
  arrives : {s : System} → Steps n s → Steps n (record s { calls = to_choose ∷ s.calls })
  takes_turn :
      {s : System} (before after : List Stage) (g g' : Stage) (k : ℕ)
      → Steps n s
      → s.calls ≡ before ++ g ∷ after
      → turn n g s.index ≡ ok (g', k)
      → Steps n (record { index = k; calls = before ++ g' ∷ after })

-- The places that a call has read are those of clients.
abbrev pub IsInRange : ℕ → Stage → Type 0
IsInRange n to_choose = Unit
IsInRange n (to_load i) = i < n
IsInRange n (to_store i v) = (i < n) × (v < n)
IsInRange n (ended i) = i < n

pub record Inv (n : ℕ) (s : System) : Type 0 where
  pub index : s.index < n
  pub calls : All (IsInRange n) s.calls

turn-IsInRange :
    (n : ℕ) (g : Stage) (k : ℕ)
    → k < n
    → IsInRange n g
    → Returns (λ r. IsInRange n r.0 × (r.1 < n)) (turn n g k)
unfolding turn
turn-IsInRange n to_choose k p h = ((to_load k, k), ground arith, (p, p))
turn-IsInRange n (to_load i) k p h = ((to_store i k, k), refl, ((h, p), p))
turn-IsInRange n (to_store i v) k p h =
    ((ended i, (v + 1) % n), ground arith, (h.0, mod-lt (v + 1) (omega (arith, p))))
turn-IsInRange n (ended i) k p h = ((ended i, k), refl, (h, p))

All-replace :
    (n : ℕ) (before after : List Stage) (g g' : Stage)
    → All (IsInRange n) (before ++ g ∷ after)
    → IsInRange n g'
    → All (IsInRange n) (before ++ g' ∷ after)
All-replace n [] after g g' all p = (p, all.1)
All-replace n (b ∷ before) after g g' all p = (all.0, All-replace n before after g g' all.1 p)

All-at :
    (n : ℕ) (before after : List Stage) (g : Stage)
    → All (IsInRange n) (before ++ g ∷ after)
    → IsInRange n g
All-at n [] after g all = all.0
All-at n (b ∷ before) after g all = All-at n before after g all.1

Steps-Inv : (n : ℕ) {s : System} → 0 < n → Steps n s → Inv n s
Steps-Inv n p Steps.start = record { index = p; calls = tt }
Steps-Inv n p (Steps.arrives {s} steps) =
    let inv = Steps-Inv n p steps in record { index = inv.index; calls = (tt, inv.calls) }
Steps-Inv n p (Steps.takes_turn {s} before after g g' k steps e turned) =
    let inv = Steps-Inv n p steps in
    let all = subst (All (IsInRange n)) e inv.calls in
    let (fits, small) =
      Returns-at _ (turn-IsInRange n g s.index inv.index (All-at n before after g all)) turned in
    record { index = small; calls = All-replace n before after g g' all fits }

-- With one client at least, calls of Conn may read and write the shared index in any order: in every state
-- that they reach, the index is the place of a client, every place that a call has read is one, and the
-- next turn of any call does not panic and keeps it so.
pub Steps-IsInRange :
    (n : ℕ) (before after : List Stage) (g : Stage) {s : System}
    → 0 < n
    → Steps n s
    → s.calls ≡ before ++ g ∷ after
    → Inv n s × Returns (λ r. IsInRange n r.0 × (r.1 < n)) (turn n g s.index)
Steps-IsInRange n before after g {s} p steps e =
    let inv = Steps-Inv n p steps in
    let fits = All-at n before after g (subst (All (IsInRange n)) e inv.calls) in
    (inv, turn-IsInRange n g s.index inv.index fits)
