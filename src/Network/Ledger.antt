-- ===== src/Network/Ledger.antt =====
-- The accounting for connections across the components: one is held by a client, carried by a caller,
-- closed, or handed to a goroutine that will destroy or close it.
pub mod Tls
pub mod Sharded
pub mod Child
pub mod Availability
pub mod Ended
use dotproxy.Base.{ℕ, ◌+◌, ◌≡◌, List, [], ◌++◌, arith}
use dotproxy.Base.Run.{Returns, Returns-at, ok}
use dotproxy.Network.World.{NetConn, World, Outcome}
use dotproxy.Network.Trace.{count, opens, closes, marks}
use dotproxy.Network.Pool.{PersistentConn}
use dotproxy.Network.Pool.Ownership.{lent}
use dotproxy.Network.Client.{Client}

-- From the trace `w` to `w'`, the connections of the list `xs` become those of `ys`: those opened
-- meanwhile come to it, and those closed or handed over leave it.
abbrev pub Accounts : List NetConn → List NetConn → World → World → Type 0
Accounts xs ys w w' =
    (x : NetConn)
    → count x ys + closes x w' + marks x w' + opens x w
      ≡ count x xs + closes x w + marks x w + opens x w'

-- A client with a valid state accounts for the connections that it holds and lends.
abbrev pub IsAccounted : {C : Type 0} → (C → Type 0) → (C → List NetConn) → Client C → Type 0
IsAccounted {C} V held I =
    (c : C) (w : World)
    → V c
    → Returns (λ r. V r.0.0 × Accounts (held c) (lent r.0.1 ++ held r.0.0) w r.1) (I.conn c w)
