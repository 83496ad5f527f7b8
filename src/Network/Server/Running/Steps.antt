-- ===== src/Network/Server/Running/Steps.antt =====
-- What a turn of a goroutine does, and what it means for the turns of the servers' loops.
use mathlib.Core.List.{append_assoc, perm_middle}
use dotproxy.Base.{
  All, ◌≡◌, refl, inl, inr, List, [], ◌∷◌, ◌++◌, Option, none, some, arith, Option-cases,
}
use dotproxy.Base.Run.{Returns}
use dotproxy.Network.World.{NetConn, Error, Outcome, done, fail, Env, World, listen_udp, listen_tcp}
use dotproxy.Network.Server.{ServerHandler, udp, udp_turn}
use dotproxy.Network.Server.System.{
  IsAccounted, System, started, Inv, serve-Accounts, tcp_turn-Accounts, tcp_connection-Accounts,
  Server-Inv,
}
use dotproxy.Network.Server.System
use dotproxy.Network.Server.Listening.{
  Binder, Goroutine, Goroutines, starting_udp, starting_tcp, udp_loop, tcp_loop, connection, width,
  go_loops, udp_listen_and_serve, tcp_listen_and_serve, connection_of, connections, udp_loops_of,
  tcp_loops_of, total, IsBegun, IsNext, All-go_loops, total-go_loops, tcp-go_loops,
  connections-go_loops,
}
use dotproxy.Network.Server.Running.{Running, go_serve, turn}

-- The server's address is not bound, for the reason that `e` names.
abbrev pub IsUnbound : {K : Type 0} → Binder → Error → Goroutine K → Type 0
IsUnbound binder e (starting_udp s) =
    (x : Error) × (binder.listen_packet s.addr ≡ some x) × (e ≡ listen_udp x)
IsUnbound binder e (starting_tcp s) =
    (x : Error) × (binder.listen s.addr ≡ some x) × (e ≡ listen_tcp x)
IsUnbound binder e (udp_loop s) = ⊥
IsUnbound binder e (tcp_loop s) = ⊥
IsUnbound binder e (connection c) = ⊥

-- The servers' state that a program stands for.
abbrev pub servers_of : {H K : Type 0} → Running H K → System H
servers_of s = record { handler = s.handler; serving = connections s.goroutines; world = s.world }

module _ (K : Type 0) where
  go_serve-udp : (o : Option NetConn) → total udp_loops_of (go_serve {K = K} o) ≡ 0
  go_serve-udp none = refl
  go_serve-udp (some c) = refl

  go_serve-tcp : (o : Option NetConn) → total tcp_loops_of (go_serve {K = K} o) ≡ 0
  go_serve-tcp none = refl
  go_serve-tcp (some c) = refl

  go_serve-connections : (o : Option NetConn) → connections (go_serve {K = K} o) ≡ started o
  go_serve-connections none = refl
  go_serve-connections (some c) = refl

  All-go_serve : (o : Option NetConn) → All IsBegun (go_serve {K = K} o)
  All-go_serve none = tt
  All-go_serve (some c) = (tt, tt)

-- `P` is any property of the servers' state that the turns of their loops keep.
module _ {H : Type 0} (K : Type 0) (V : H → Type 0) (held : H → List NetConn) (S : ServerHandler H)
    (accounted : IsAccounted V held S) (env : Env) (binder : Binder) (P : System H → Type 0)
    (closed : (s t : System H) → System.Step S env s t → P s → P t) where
  abbrev pub Serving : H → List NetConn → World → Type 0
  Serving h conns w = P (record { handler = h; serving = conns; world = w })

  -- The goroutine becomes as many loops as it is or stands for, as a step of the servers or none; or its
  -- server's address is not bound.
  abbrev pub Turned : Goroutine K → H → World → Outcome (H × Goroutines K) × World → Type 0
  Turned g h w (done (h', gs), w') =
      (total udp_loops_of gs ≡ udp_loops_of g)
      × (total tcp_loops_of gs ≡ tcp_loops_of g)
      × All (IsNext g) gs
      × ((before after : List NetConn)
          → Serving h (before ++ (connection_of g ++ after)) w
          → Serving h' (connections gs ++ before ++ after) w')
  Turned g h w (fail e, w') = IsUnbound binder e g

  pub turn-Turned :
      (fresh : NetConn) (g : Goroutine K) (h : H) (w : World)
      → V h
      → Returns (Turned g h w) (turn S env binder fresh g h w)
  unfolding turn udp_turn udp_listen_and_serve tcp_listen_and_serve
  turn-Turned fresh (starting_udp s) h w v = elim (Option-cases (binder.listen_packet s.addr)) [
    | inl free ↦ (
      (done (h, go_loops (width s) s), w),
      rw (turn, udp_listen_and_serve, free) refl,
      (
        total-go_loops K (width s) s,
        tcp-go_loops K (width s) s,
        All-go_loops K (width s) s,
        λ before after r. rw (connections-go_loops K (width s) s) r,
      ),
    )
    | inr (x, taken) ↦
        ((fail (listen_udp x), w), rw (turn, udp_listen_and_serve, taken) refl, (x, taken, refl))
  ]
  turn-Turned fresh (starting_tcp s) h w v = elim (Option-cases (binder.listen s.addr)) [
    | inl free ↦ (
      (done (h, tcp_loop s ∷ []), w),
      rw (turn, tcp_listen_and_serve, free) refl,
      (refl, refl, (tt, tt), λ before after r. r),
    )
    | inr (x, taken) ↦
        ((fail (listen_tcp x), w), rw (turn, tcp_listen_and_serve, taken) refl, (x, taken, refl))
  ]
  turn-Turned fresh (udp_loop s) h w v =
      let ((h', w'), e, _) = serve-Accounts V held S accounted udp fresh h w v in
      (
        (done (h', udp_loop s ∷ []), w'),
        rw e refl,
        (refl, refl, (tt, tt), λ before after r. closed _ _ (System.Step.by_udp fresh e) r),
      )
  turn-Turned fresh (tcp_loop s) h w v =
      let ((o, w'), e, _) = tcp_turn-Accounts V held S accounted env w in
      (
        (done (h, tcp_loop s ∷ go_serve o), w'),
        rw e refl,
        (
          omega (arith, go_serve-udp K o),
          omega (arith, go_serve-tcp K o),
          (tt, All-go_serve K o),
          λ before after r.
              rw (go_serve-connections K o, append_assoc) (closed _ _ (System.Step.by_tcp e) r),
        ),
      )
  turn-Turned fresh (connection c) h w v =
      let ((h', w'), e, _) = tcp_connection-Accounts V held S accounted env c h w v in
      (
        (done (h', []), w'),
        rw e refl,
        (
          refl,
          refl,
          tt,
          λ before after r.
              closed _ _ (System.Step.serves c (before ++ after) (perm_middle before after) e) r,
        ),
      )
