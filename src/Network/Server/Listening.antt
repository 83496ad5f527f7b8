-- ===== src/Network/Server/Listening.antt =====
-- internal/network/server.go: ListenAndServe. The program's goroutines are values: a server that is still
-- to be listened on, one of its loops, or an accepted connection. What binds an address is a record.
use Prim.Native.String.{String}
use mathlib.Core.List.{append_assoc}
use dotproxy.Base.{
  All, refl, ℕ, zero, suc, ◌+◌, ◌≡◌, List, [], ◌∷◌, ◌++◌, Option, none, some, arith,
}
use dotproxy.Base.Int.{pos_part}
use dotproxy.Network.World.{NetConn, Error, Outcome, done, fail, listen_udp, listen_tcp}
use dotproxy.Network.Server.{UdpServer, TcpServer}

-- net.ListenPacket("udp", …) and net.Listen("tcp", …), for the error.
pub record Binder : Type 0 where
  pub listen_packet : String → Option Error
  pub listen : String → Option Error

-- `go func() { if err := server.ListenAndServe(h); err != nil { panic(err) } }()` of main, for a UDP or a
-- TCP server; a loop of either; and the goroutine of an accepted connection.
pub data Goroutine (K : Type 0) : Type 0 where
  starting_udp udp_loop : UdpServer → Goroutine K
  starting_tcp tcp_loop : TcpServer K → Goroutine K
  connection : NetConn → Goroutine K

abbrev pub Goroutines : Type 0 → Type 0
Goroutines K = List (Goroutine K)

-- The loops of a UDP server.
abbrev pub width : UdpServer → ℕ
width s = pos_part s.opts.max_concurrent_connections

module _ {K : Type 0} where
  -- `for i := 0; i < n; i++ { go func() { … }() }`
  abbrev pub go_loops : ℕ → UdpServer → Goroutines K
  go_loops zero s = []
  go_loops (suc n) s = udp_loop s ∷ go_loops n s

  -- Of a UDP server it returns, and the loops go on.
  unfoldable pub udp_listen_and_serve : Binder → UdpServer → Outcome (Goroutines K)
  udp_listen_and_serve binder s = elim (binder.listen_packet s.addr) [
    | some e ↦ fail (listen_udp e)
    | none ↦ done (go_loops (width s) s)
  ]

  -- Of a TCP server it goes on as the loop, unless it fails.
  unfoldable pub tcp_listen_and_serve : Binder → TcpServer K → Outcome (Goroutines K)
  tcp_listen_and_serve binder s = elim (binder.listen s.addr) [
    | some e ↦ fail (listen_tcp e)
    | none ↦ done (tcp_loop s ∷ [])
  ]

  -- The accepted connections whose goroutines have not run.
  abbrev pub connection_of : Goroutine K → List NetConn
  connection_of (starting_udp s) = []
  connection_of (udp_loop s) = []
  connection_of (starting_tcp s) = []
  connection_of (tcp_loop s) = []
  connection_of (connection c) = c ∷ []

  abbrev pub connections : Goroutines K → List NetConn
  connections [] = []
  connections (g ∷ gs) = connection_of g ++ connections gs

  -- A loop; a loop or an accepted connection.
  abbrev pub IsLoop : Goroutine K → Type 0
  IsLoop (starting_udp s) = ⊥
  IsLoop (udp_loop s) = Unit
  IsLoop (starting_tcp s) = ⊥
  IsLoop (tcp_loop s) = Unit
  IsLoop (connection c) = ⊥

  abbrev pub IsBegun : Goroutine K → Type 0
  IsBegun (starting_udp s) = ⊥
  IsBegun (udp_loop s) = Unit
  IsBegun (starting_tcp s) = ⊥
  IsBegun (tcp_loop s) = Unit
  IsBegun (connection c) = Unit

  pub IsBegun-loop : (g : Goroutine K) → IsLoop g → IsBegun g
  IsBegun-loop (starting_udp s) l = l
  IsBegun-loop (starting_tcp s) l = l
  IsBegun-loop (udp_loop s) l = tt
  IsBegun-loop (tcp_loop s) l = tt
  IsBegun-loop (connection c) l = absurd l

  -- What a goroutine can become: only that of the TCP loop starts connections.
  abbrev pub IsNext : Goroutine K → Goroutine K → Type 0
  IsNext (tcp_loop s) g = IsBegun g
  IsNext (starting_udp s) g = IsLoop g
  IsNext (udp_loop s) g = IsLoop g
  IsNext (starting_tcp s) g = IsLoop g
  IsNext (connection c) g = IsLoop g

  -- How many loops there are, or will be once the servers listen.
  abbrev pub udp_loops_of : Goroutine K → ℕ
  udp_loops_of (starting_udp s) = width s
  udp_loops_of (udp_loop s) = 1
  udp_loops_of (starting_tcp s) = 0
  udp_loops_of (tcp_loop s) = 0
  udp_loops_of (connection c) = 0

  abbrev pub tcp_loops_of : Goroutine K → ℕ
  tcp_loops_of (starting_tcp s) = 1
  tcp_loops_of (tcp_loop s) = 1
  tcp_loops_of (starting_udp s) = 0
  tcp_loops_of (udp_loop s) = 0
  tcp_loops_of (connection c) = 0

  abbrev pub total : (Goroutine K → ℕ) → Goroutines K → ℕ
  total f [] = 0
  total f (g ∷ gs) = f g + total f gs

  pub connections-append :
      (xs ys : Goroutines K) → connections (xs ++ ys) ≡ connections xs ++ connections ys
  connections-append [] ys = refl
  connections-append (g ∷ xs) ys = simp (connections-append xs ys, append_assoc)

  pub total-append :
      (f : Goroutine K → ℕ) (xs ys : Goroutines K) → total f (xs ++ ys) ≡ total f xs + total f ys
  total-append f [] ys = omega arith
  total-append f (x ∷ xs) ys = omega (arith, total-append f xs ys)

module _ (K : Type 0) where
  pub total-go_loops : (n : ℕ) (s : UdpServer) → total udp_loops_of (go_loops {K = K} n s) ≡ n
  total-go_loops zero s = refl
  total-go_loops (suc n) s = omega (arith, total-go_loops n s)

  pub tcp-go_loops : (n : ℕ) (s : UdpServer) → total tcp_loops_of (go_loops {K = K} n s) ≡ 0
  tcp-go_loops zero s = refl
  tcp-go_loops (suc n) s = omega (arith, tcp-go_loops n s)

  pub connections-go_loops : (n : ℕ) (s : UdpServer) → connections (go_loops {K = K} n s) ≡ []
  connections-go_loops zero s = refl
  connections-go_loops (suc n) s = connections-go_loops n s

  pub All-go_loops : (n : ℕ) (s : UdpServer) → All IsLoop (go_loops {K = K} n s)
  All-go_loops zero s = tt
  All-go_loops (suc n) s = (tt, All-go_loops n s)
