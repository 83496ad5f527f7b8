-- ===== src/Network/Server/Running/Approximation.antt =====
-- The program over two handlers, of which the second does what the first does, unless the first is out
-- of fuel: what the one reaches, so does the other.
use dotproxy.Base.{◌≡◌, refl, inl, inr}
use dotproxy.Base.Run.{◌⊑◌, ⊑-ok, ⊑-panic, Run-cases}
use dotproxy.Network.World.{Outcome-cases, NetConn, World, Env}
use dotproxy.Network.Server.{
  Transport, ServerHandler, udp, tcp, serve, udp_turn, tcp_turn, tcp_connection,
}
use dotproxy.Network.Server.Listening.{
  Binder, Goroutine, Goroutines, starting_udp, starting_tcp, udp_loop, tcp_loop, connection,
}
use dotproxy.Network.Server.Running.{
  Running, Program, turn, Step, runs, stops, faults, Reach, start, later,
}

-- Both consume an error alike.
pub record IsBelow {H : Type 0} (S T : ServerHandler H) : Type 0 where
  pub handles :
      (t : Transport) (conn : NetConn) (h : H) (w : World)
      → S.handle t conn h w ⊑ T.handle t conn h w
  pub consumes : S.consume_error ≡ T.consume_error

module _ {H : Type 0} (S T : ServerHandler H) (below : IsBelow S T) where
  serve-⊑ :
      (t : Transport) (conn : NetConn) (h : H) (w : World) → serve S t conn h w ⊑ serve T t conn h w
  unfolding serve
  serve-⊑ t conn h w = elim (below.handles t conn h w) [
    | inl e ↦ inl (rw e refl)
    | inr same ↦ elim (Run-cases (T.handle t conn h w)) [
      | inr (inl e) ↦ inr (rw (same, e) refl)
      | inr (inr e) ↦ inr (rw (same, e) refl)
      | inl (((h', o), w'), e) ↦ elim (Outcome-cases o) [
        | inl (u, good) ↦ inr (rw (same, e, good) refl)
        | inr (x, bad) ↦ inr (rw (same, e, bad, below.consumes) refl)
      ]
    ]
  ]

  tcp_turn-same : (env : Env) (w : World) → tcp_turn S env w ≡ tcp_turn T env w
  unfolding tcp_turn
  tcp_turn-same env w = elim (Outcome-cases (env.accept w)) [
    | inl (conn, e) ↦ rw e refl
    | inr (x, e) ↦ rw (e, below.consumes) refl
  ]

module _ {H K : Type 0} (S T : ServerHandler H) (below : IsBelow S T) (env : Env)
    (binder : Binder) where
  turn-⊑ :
      (fresh : NetConn) (g : Goroutine K) (h : H) (w : World)
      → turn S env binder fresh g h w ⊑ turn T env binder fresh g h w
  unfolding turn udp_turn tcp_connection
  turn-⊑ fresh (starting_udp s) h w = inr refl
  turn-⊑ fresh (starting_tcp s) h w = inr refl
  turn-⊑ fresh (udp_loop s) h w = elim (serve-⊑ S T below udp fresh h w) [
    | inl e ↦ inl (rw e refl)
    | inr same ↦ inr (rw same refl)
  ]
  turn-⊑ fresh (tcp_loop s) h w = inr (rw (tcp_turn-same S T below env w) refl)
  turn-⊑ fresh (connection conn) h w = elim (serve-⊑ S T below tcp conn h w) [
    | inl e ↦ inl (rw e refl)
    | inr same ↦ inr (rw same refl)
  ]

  pub Step-below :
      {s : Running H K} {p : Program H K} → Step S env binder s p → Step T env binder s p
  Step-below {s} (runs fresh before after g at_g e) =
      runs fresh before after g at_g (⊑-ok (turn-⊑ fresh g s.handler s.world) e)
  Step-below {s} (stops fresh before after g at_g e) =
      stops fresh before after g at_g (⊑-ok (turn-⊑ fresh g s.handler s.world) e)
  Step-below {s} (faults fresh before after g at_g e) =
      faults fresh before after g at_g (⊑-panic (turn-⊑ fresh g s.handler s.world) e)

  pub Reach-below :
      {h : H} {gs : Goroutines K} {p : Program H K}
      → Reach S env binder h gs p
      → Reach T env binder h gs p
  Reach-below start = start
  Reach-below (later r step) = later (Reach-below r) (Step-below step)
