-- ===== src/Network/Server/System.antt =====
-- A server among its goroutines: turns of the loops and accepted connections, in any order.
use dotproxy.Base.{◌≡◌, refl, inl, inr, List, [], ◌∷◌, ◌++◌, Perm, Option, none, some, arith}
use dotproxy.Base.Run.{ok, Returns, Returns-at}
use dotproxy.Network.World.{
  NetConn, Error, World, done, fail, Outcome-cases, Env, emitted, accepted, closed, connection_open,
  connection_close, connection_error,
}
use dotproxy.Network.Trace.{count-append, count-perm}
use dotproxy.Network.Ledger.{Accounts}
use dotproxy.Network.Server.{
  Transport, tcp, udp, ServerHandler, serve, udp_turn, tcp_connection, tcp_turn,
}

-- A handler accounts for connections: from a valid state it ends in one, with every connection that it
-- held or opened held, closed or handed over. An error is consumed without touching a connection.
pub record IsAccounted {H : Type 0} (V : H → Type 0) (held : H → List NetConn) (S : ServerHandler H)
    : Type 0 where
  pub handles :
      (t : Transport) (conn : NetConn) (h : H) (w : World)
      → V h
      → Returns (λ r. V r.0.0 × Accounts (held h) (held r.0.0) w r.1) (S.handle t conn h w)
  pub consumes : (e : Error) (w : World) → Returns (λ r. Accounts [] [] w r.1) (S.consume_error e w)

-- The handler's state, the accepted connections whose goroutines have not run, and the trace.
pub record System (H : Type 0) : Type 0 where
  pub handler : H
  pub serving : List NetConn
  pub world : World

abbrev pub started : Option NetConn → List NetConn
started none = []
started (some conn) = conn ∷ []

-- A turn of a UDP loop; a turn of the TCP loop; or the goroutine of an accepted connection, in any order.
pub data Step {H : Type 0} (S : ServerHandler H) (env : Env) (s : System H)
    : System H → Type 0 where
  by_udp :
      (conn : NetConn) {h : H} {w : World}
      → udp_turn S conn s.handler s.world ≡ ok (h, w)
      → Step S env s (record s { handler = h; world = w })
  by_tcp :
      {o : Option NetConn} {w : World}
      → tcp_turn S env s.world ≡ ok (o, w)
      → Step S env s (record s { serving = started o ++ s.serving; world = w })
  serves :
      (conn : NetConn) (rest : List NetConn) {h : H} {w : World}
      → Perm s.serving (conn ∷ rest)
      → tcp_connection S env conn s.handler s.world ≡ ok (h, w)
      → Step S env s (record { handler = h; serving = rest; world = w })

pub data Reach {H : Type 0} (S : ServerHandler H) (env : Env) (h : H) : System H → Type 0 where
  start : Reach S env h (record { handler = h; serving = []; world = [] })
  later : {s t : System H} → Reach S env h s → Step S env s t → Reach S env h t

module _ {H : Type 0} (V : H → Type 0) (held : H → List NetConn) (S : ServerHandler H)
    (accounted : IsAccounted V held S) where
  -- A request is served to its end, whatever the handler returns.
  pub serve-Accounts :
      (t : Transport) (conn : NetConn) (h : H) (w : World)
      → V h
      → Returns (λ r. V r.0 × Accounts (held h) (held r.0) w r.1) (serve S t conn h w)
  unfolding serve
  serve-Accounts t conn h w v =
      let (((h', o), w₁), e, (v', a)) = accounted.handles t conn h w v in
      elim (Outcome-cases o) [
        | inl (u, p) ↦ ((h', w₁), rw (e, p) refl, (v', a))
        | inr (x, p) ↦
            let ((u, w₂), e', b) = accounted.consumes x w₁ in
            ((h', w₂), rw (e, p) (rw e' refl), (v', λ c. omega (arith, a c, b c)))
      ]

  module _ (env : Env) where
    -- The goroutine of a connection closes it.
    pub tcp_connection-Accounts :
        (conn : NetConn) (h : H) (w : World)
        → V h
        → Returns
            (λ r. V r.0 × Accounts (conn ∷ held h) (held r.0) w r.1)
            (tcp_connection S env conn h w)
    unfolding tcp_connection
    tcp_connection-Accounts conn h w v =
        let ((h', w₁), e, (v', a)) = serve-Accounts tcp conn h w v in
        (
          (h', closed conn ∷ emitted (connection_close conn) ∷ w₁),
          rw e refl,
          (v', λ c. omega (arith, a c)),
        )

    pub tcp_turn-Accounts :
        (w : World) → Returns (λ r. Accounts [] (started r.0) w r.1) (tcp_turn S env w)
    unfolding tcp_turn
    tcp_turn-Accounts w = elim (Outcome-cases (env.accept w)) [
      | inl (conn, p) ↦ (
        (some conn, emitted (connection_open conn) ∷ accepted (done conn) ∷ w),
        rw p refl,
        λ c. omega arith,
      )
      | inr (x, p) ↦
          let ((u, w'), e, a) =
            accounted.consumes x (emitted connection_error ∷ accepted (fail x) ∷ w) in
          ((none, w'), rw p (rw e refl), λ c. omega (arith, a c))
    ]

    -- A step keeps the handler's state valid, and moves each connection to a place that is known.
    pub Step-Accounts :
        {s t : System H}
        → Step S env s t
        → V s.handler
        → V t.handler
          × Accounts (s.serving ++ held s.handler) (t.serving ++ held t.handler) s.world t.world
    unfolding udp_turn
    Step-Accounts {s} (by_udp conn {h = h'} e) v =
        let (v', a) = Returns-at _ (serve-Accounts udp conn s.handler s.world v) e in
        (
          v',
          λ c. omega (
            arith,
            a c,
            count-append c s.serving (held s.handler),
            count-append c s.serving (held h'),
          ),
        )
    Step-Accounts {s} (by_tcp {o} e) v =
        let a = Returns-at _ (tcp_turn-Accounts s.world) e in
        (
          v,
          λ c. omega (
            arith,
            a c,
            count-append c s.serving (held s.handler),
            count-append c (started o) s.serving,
            count-append c (started o ++ s.serving) (held s.handler),
          ),
        )
    Step-Accounts {s} (serves conn rest {h = h'} same e) v =
        let (v', a) = Returns-at _ (tcp_connection-Accounts conn s.handler s.world v) e in
        (
          v',
          λ c. omega (
            arith,
            a c,
            count-perm c same,
            count-append c s.serving (held s.handler),
            count-append c rest (held h'),
          ),
        )

    -- With the handler in the state `h` at the start.
    pub record Inv (h : H) (s : System H) : Type 0 where
      pub valid : V s.handler
      pub accounted_for : Accounts (held h) (s.serving ++ held s.handler) [] s.world

    Step-Inv : (h : H) {s t : System H} → Step S env s t → Inv h s → Inv h t
    Step-Inv h step inv =
        let (v, a) = Step-Accounts step inv.valid in
        record { valid = v; accounted_for = λ c. omega (arith, a c, inv.accounted_for c) }

    -- In every state that turns of the loops and goroutines of connections reach, in any order, the
    -- handler's state is valid, and each connection that it held at the start or that was opened since is
    -- held by it, awaits its goroutine, is closed, or is handed over.
    pub Server-Inv : (h : H) {s : System H} → V h → Reach S env h s → Inv h s
    Server-Inv h v start = record { valid = v; accounted_for = λ c. omega arith }
    Server-Inv h v (later r step) = Step-Inv h step (Server-Inv h v r)
