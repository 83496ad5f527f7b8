-- ===== src/Network/Ledger/Child.antt =====
-- A client of a sharded client, whose state changes between the calls of Conn.
use dotproxy.Base.{
  ℕ, ◌+◌, ◌≡◌, refl, some, ap, ◌∙◌, List, arith, All, All-set, get_elem?, set, length-set,
}
use dotproxy.Network.World.{NetConn, Env}
use dotproxy.Network.Trace.{count}
use dotproxy.Network.Client.{Client}
use dotproxy.Network.Ledger.Sharded.{held_all, held_by, count-held_all-set}
use dotproxy.Network.Sharding.Policy.{
  ShardedClient, round_robin, random, historical, failover, availability, clients_of, IsReady,
}

-- The sharded client, in which the client at place `i` has the state `c`.
abbrev pub set_client : {C : Type 0} → ShardedClient C → ℕ → C → ShardedClient C
set_client (round_robin s) i c = round_robin (record s { clients = set s.clients i c })
set_client (random clients) i c = random (set clients i c)
set_client (historical clients) i c = historical (set clients i c)
set_client (failover clients) i c = failover (set clients i c)
set_client (availability s) i c = availability (record s { clients = set s.clients i c })

clients_of-set_client :
    {C : Type 0} (s : ShardedClient C) (i : ℕ) (c : C)
    → clients_of (set_client s i c) ≡ set (clients_of s) i c
clients_of-set_client (round_robin s) i c = refl
clients_of-set_client (random clients) i c = refl
clients_of-set_client (historical clients) i c = refl
clients_of-set_client (failover clients) i c = refl
clients_of-set_client (availability s) i c = refl

-- What the clients hold changes by what that client holds.
pub count-set_client :
    {C : Type 0} (V : C → Type 0) (held : C → List NetConn) (s : ShardedClient C) (i : ℕ) (c c' : C)
    (x : NetConn)
    → get_elem? (clients_of s) i ≡ some c
    → count x (held_by V held (set_client s i c')) + count x (held c)
      ≡ count x (held_by V held s) + count x (held c')
count-set_client V held s i c c' x at =
    ap (λ cs. count x (held_all V held cs) + count x (held c)) (clients_of-set_client s i c')
    ∙ count-held_all-set V held (clients_of s) i c c' x at

-- A sharded client stays ready.
pub IsReady-set_client :
    {C : Type 0} (I : Client C) (env : Env) (V : C → Type 0) (s : ShardedClient C) (i : ℕ) (c : C)
    → IsReady I env V s
    → V c
    → IsReady I env V (set_client s i c)
IsReady-set_client I env V (round_robin s) i c (all, p) v =
    (All-set V s.clients i c all v, omega (arith, p, length-set s.clients i c))
IsReady-set_client I env V (random cs) i c (all, p) v =
    (All-set V cs i c all v, omega (arith, p, length-set cs i c))
IsReady-set_client I env V (historical cs) i c (all, p) v =
    (All-set V cs i c all v, omega (arith, p, length-set cs i c))
IsReady-set_client I env V (failover cs) i c (all, p) v =
    (All-set V cs i c all v, omega (arith, p, length-set cs i c))
IsReady-set_client I env V (availability s) i c all v = All-set V s.clients i c all v

pub IsReady-All :
    {C : Type 0} (I : Client C) (env : Env) (V : C → Type 0) (s : ShardedClient C)
    → IsReady I env V s
    → All V (clients_of s)
IsReady-All I env V (round_robin s) (all, p) = all
IsReady-All I env V (random cs) (all, p) = all
IsReady-All I env V (historical cs) (all, p) = all
IsReady-All I env V (failover cs) (all, p) = all
IsReady-All I env V (availability s) all = all
