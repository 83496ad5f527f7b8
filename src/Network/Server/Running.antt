-- ===== src/Network/Server/Running.antt =====
-- internal/network/server.go: the servers among the program's goroutines, over any handler. Each turn of
-- a goroutine is a step of the program, in any order; an error of ListenAndServe is a panic, which ends it.
pub mod Steps
pub mod Progress
pub mod Ends
pub mod Settling
pub mod Approximation
use dotproxy.Base.{ℕ, ◌≡◌, List, [], ◌∷◌, ◌++◌, Option, none, some}
use dotproxy.Base.Run.{ok, panic}
use dotproxy.Network.World.{NetConn, Error, Outcome, done, fail, Env, World, M, pure, ◌>>=◌}
use dotproxy.Network.Server.{ServerHandler, udp_turn, tcp_turn, tcp_connection}
use dotproxy.Network.Server.Listening.{
  Binder, Goroutine, Goroutines, starting_udp, starting_tcp, udp_loop, tcp_loop, connection,
  udp_listen_and_serve, tcp_listen_and_serve,
}

pub record Running (H K : Type 0) : Type 0 where
  pub handler : H
  pub goroutines : Goroutines K
  pub world : World

-- `stopped_by` is panic(err) of a goroutine of main, and `faulted` a run-time panic in any of them.
pub data Program (H K : Type 0) : Type 0 where
  running : Running H K → Program H K
  stopped_by : Error → Program H K
  faulted : Program H K

-- `go func() { … }()` of the TCP loop.
abbrev pub go_serve : {K : Type 0} → Option NetConn → Goroutines K
go_serve none = []
go_serve (some conn) = connection conn ∷ []

module _ {H K : Type 0} (S : ServerHandler H) (env : Env) (binder : Binder) where
  -- The goroutines of one that listens, or the error with which it panics.
  abbrev pub listening : H → Outcome (Goroutines K) → M (Outcome (H × Goroutines K))
  listening h (done gs) = pure (done (h, gs))
  listening h (fail e) = pure (fail e)

  -- A turn of a goroutine: what it becomes, with those that it starts. `fresh` is the connection that a
  -- turn of a UDP loop makes.
  unfoldable pub turn : NetConn → Goroutine K → H → M (Outcome (H × Goroutines K))
  turn fresh (starting_udp s) h = listening h (udp_listen_and_serve binder s)
  turn fresh (starting_tcp s) h = listening h (tcp_listen_and_serve binder s)
  turn fresh (udp_loop s) h = do h' ← udp_turn S fresh h; pure (done (h', udp_loop s ∷ []))
  turn fresh (tcp_loop s) h = do
    accepted ← tcp_turn S env
    pure (done (h, tcp_loop s ∷ go_serve accepted))
  turn fresh (connection conn) h = do h' ← tcp_connection S env conn h; pure (done (h', []))

  -- Any goroutine has its turn.
  pub data Step (s : Running H K) : Program H K → Type 0 where
    runs :
        (fresh : NetConn) (before after : Goroutines K) (g : Goroutine K) {h : H}
        {gs : Goroutines K} {w : World}
        → s.goroutines ≡ before ++ g ∷ after
        → turn fresh g s.handler s.world ≡ ok (done (h, gs), w)
        → Step s (running (record { handler = h; goroutines = gs ++ before ++ after; world = w }))
    stops :
        (fresh : NetConn) (before after : Goroutines K) (g : Goroutine K) {e : Error} {w : World}
        → s.goroutines ≡ before ++ g ∷ after
        → turn fresh g s.handler s.world ≡ ok (fail e, w)
        → Step s (stopped_by e)
    faults :
        (fresh : NetConn) (before after : Goroutines K) (g : Goroutine K)
        → s.goroutines ≡ before ++ g ∷ after
        → turn fresh g s.handler s.world ≡ panic
        → Step s faulted

  -- What the program reaches from the handler's state `h` and the goroutines `gs`.
  pub data Reach (h : H) (gs : Goroutines K) : Program H K → Type 0 where
    start : Reach h gs (running (record { handler = h; goroutines = gs; world = [] }))
    later : {s : Running H K} {p : Program H K} → Reach h gs (running s) → Step s p → Reach h gs p
