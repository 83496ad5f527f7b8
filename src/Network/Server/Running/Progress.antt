-- ===== src/Network/Server/Running/Progress.antt =====
-- The program among its goroutines: why it ends, and that while it runs its servers serve.
use dotproxy.Base.{
  ℕ, ◌≡◌, refl, sym, ap, subst, ◌∙◌, List, [], ◌∷◌, ◌++◌, All, All-append, append-All, All-imp,
  arith,
}
use dotproxy.Base.Run.{Returns, Returns-at}
use dotproxy.Network.World.{NetConn, Env}
use dotproxy.Network.Server.{ServerHandler, UdpServer, TcpServer}
use dotproxy.Network.Server.System
use dotproxy.Network.Server.System.{IsAccounted, System, Server-Inv}
use dotproxy.Network.Server.Listening.{
  Binder, Goroutine, Goroutines, starting_udp, starting_tcp, udp_loop, tcp_loop, connection,
  connections, IsBegun, IsNext, IsBegun-loop, udp_loops_of, tcp_loops_of, total, connections-append,
  total-append,
}
use dotproxy.Network.Server.Running.{Running, running, turn, Step, runs, Reach, start, later}
use dotproxy.Network.Server.Running.Steps.{servers_of, Serving, Turned, turn-Turned}

module _ {K : Type 0} (P : UdpServer → Type 0) (Q : TcpServer K → Type 0) where
  -- Of the servers that are still to listen.
  abbrev pub IsOf : Goroutine K → Type 0
  IsOf (starting_udp s) = P s
  IsOf (starting_tcp s) = Q s
  IsOf (udp_loop s) = Unit
  IsOf (tcp_loop s) = Unit
  IsOf (connection c) = Unit

  IsOf-begun : (g : Goroutine K) → IsBegun g → IsOf g
  IsOf-begun (starting_udp s) b = absurd b
  IsOf-begun (starting_tcp s) b = absurd b
  IsOf-begun (udp_loop s) b = tt
  IsOf-begun (tcp_loop s) b = tt
  IsOf-begun (connection c) b = tt

  IsOf-next : (g n : Goroutine K) → IsNext g n → IsOf n
  IsOf-next (tcp_loop s) n b = IsOf-begun n b
  IsOf-next (starting_udp s) n b = IsOf-begun n (IsBegun-loop n b)
  IsOf-next (starting_tcp s) n b = IsOf-begun n (IsBegun-loop n b)
  IsOf-next (udp_loop s) n b = IsOf-begun n (IsBegun-loop n b)
  IsOf-next (connection c) n b = IsOf-begun n (IsBegun-loop n b)

split_total :
    {K : Type 0} (f : Goroutine K → ℕ) (before after news : Goroutines K) (g : Goroutine K)
    → total f news ≡ f g
    → total f (news ++ before ++ after) ≡ total f (before ++ g ∷ after)
split_total f before after news g same = omega (
  arith,
  same,
  total-append f (news ++ before) after,
  total-append f news before,
  total-append f before (g ∷ after),
)

-- One step of the program, from a state in which the servers' state has the property `P`, which the turns
-- of their loops keep.
module _ {H K : Type 0} (V : H → Type 0) (held : H → List NetConn) (S : ServerHandler H)
    (accounted : IsAccounted V held S) (env : Env) (binder : Binder) (P : System H → Type 0)
    (closed : (s t : System H) → System.Step S env s t → P s → P t) where
  pub Turned-at :
      (s : Running H K) (fresh : NetConn) (g : Goroutine K)
      → V s.handler
      → Returns
          (Turned K V held S accounted env binder P closed g s.handler s.world)
          (turn S env binder fresh g s.handler s.world)
  Turned-at s fresh g =
      turn-Turned K V held S accounted env binder P closed fresh g s.handler s.world

  -- The property is kept, and so is the number of loops.
  pub Step-kept :
      {s t : Running H K}
      → V s.handler
      → P (servers_of s)
      → Step S env binder s (running t)
      → P (servers_of t)
        × (total udp_loops_of t.goroutines ≡ total udp_loops_of s.goroutines)
        × (total tcp_loops_of t.goroutines ≡ total tcp_loops_of s.goroutines)
  Step-kept {s} v p (runs fresh before after g {h = h'} {gs = news} {w} at_g e) =
      let (udp, tcp, _, reach) = Returns-at _ (Turned-at s fresh g v) e in
      (
        subst (λ l. Serving K V held S accounted env binder P closed h' l w)
            (sym (
              connections-append (news ++ before) after
              ∙ ap (λ l. l ++ connections after) (connections-append news before)))
            (reach (connections before) (connections after) (
              subst (λ l. Serving K V held S accounted env binder P closed s.handler l s.world)
                (ap connections at_g ∙ connections-append before (g ∷ after)) p)),
        split_total udp_loops_of before after news g udp ∙ ap (total udp_loops_of) (sym at_g),
        split_total tcp_loops_of before after news g tcp ∙ ap (total tcp_loops_of) (sym at_g),
      )

  -- The servers that are still to listen are of those before.
  pub Step-IsOf :
      (Q : UdpServer → Type 0) (R : TcpServer K → Type 0) {s t : Running H K}
      → V s.handler
      → All (IsOf Q R) s.goroutines
      → Step S env binder s (running t)
      → All (IsOf Q R) t.goroutines
  Step-IsOf Q R {s} v all (runs fresh before after g {gs = news} at_g e) =
      let (_, _, next, _) = Returns-at _ (Turned-at s fresh g v) e in
      let (p, q) = append-All (IsOf Q R) before (g ∷ after) (subst (All (IsOf Q R)) at_g all) in
      All-append (IsOf Q R) (news ++ before) after
        (All-append (IsOf Q R) news before
          (All-imp (IsNext g) (IsOf Q R) (IsOf-next Q R g) news next) p)
        q.1

module _ {H K : Type 0} (V : H → Type 0) (held : H → List NetConn) (S : ServerHandler H)
    (accounted : IsAccounted V held S) (env : Env) (binder : Binder) (h : H) (gs : Goroutines K)
    (none_accepted : connections gs ≡ []) where
  -- While it runs: its servers are in a state that turns of their loops reach, and it has the loops, or
  -- the servers that will start them, that it had at the start.
  pub record Runs (s : Running H K) : Type 0 where
    pub serves : System.Reach S env h (servers_of s)
    pub udp_loops : total udp_loops_of s.goroutines ≡ total udp_loops_of gs
    pub tcp_loops : total tcp_loops_of s.goroutines ≡ total tcp_loops_of gs

  pub valid_at : {s : Running H K} → V h → Runs s → V s.handler
  valid_at v r = (Server-Inv V held S accounted env h v r.serves).valid

  pub Reached-later :
      (s t : System H) → System.Step S env s t → System.Reach S env h s → System.Reach S env h t
  Reached-later s t step r = System.Reach.later r step

  Step-Runs : {s t : Running H K} → V h → Runs s → Step S env binder s (running t) → Runs t
  Step-Runs {s} v r step =
      let (p, udp, tcp) =
        Step-kept V held S accounted env binder (System.Reach S env h) Reached-later (valid_at v r)
          r.serves step in
      record { serves = p; udp_loops = udp ∙ r.udp_loops; tcp_loops = tcp ∙ r.tcp_loops }

  pub Reach-Runs : {s : Running H K} → V h → Reach S env binder h gs (running s) → Runs s
  Reach-Runs v start = record {
    serves =
        subst (λ l. System.Reach S env h (record { handler = h; serving = l; world = [] }))
          (sym none_accepted) System.Reach.start;
    udp_loops = refl;
    tcp_loops = refl;
  }
  Reach-Runs v (later r step) = Step-Runs v (Reach-Runs v r) step

  -- The servers that are still to listen are of those at the start.
  pub Reach-IsOf :
      (P : UdpServer → Type 0) (Q : TcpServer K → Type 0) {s : Running H K}
      → V h
      → All (IsOf P Q) gs
      → Reach S env binder h gs (running s)
      → All (IsOf P Q) s.goroutines
  Reach-IsOf P Q v all start = all
  Reach-IsOf P Q v all (later r step) =
      Step-IsOf V held S accounted env binder (System.Reach S env h) Reached-later P Q
        (valid_at v (Reach-Runs v r)) (Reach-IsOf P Q v all r) step
