-- ===== src/Network/Server/Running/Ends.antt =====
-- How the program ends.
use mathlib.Core.List.{mem-cons_self, mem-cons_of_mem}
use dotproxy.Base.{◌≡◌, subst, List, [], ◌∷◌, ◌++◌, Mem, All, append-All}
use dotproxy.Base.Run.{Returns, Returns-at}
use dotproxy.Network.World.{NetConn, Error, Env}
use dotproxy.Network.Server.{ServerHandler}
use dotproxy.Network.Server.System
use dotproxy.Network.Server.System.{IsAccounted, Server-Inv}
use dotproxy.Network.Server.Listening.{
  Binder, Goroutine, Goroutines, starting_udp, starting_tcp, udp_loop, tcp_loop, connection,
  connections,
}
use dotproxy.Network.Server.Running.{
  Running, Program, running, stopped_by, faulted, turn, runs, stops, faults, Reach, start, later,
}
use dotproxy.Network.Server.Running.Steps.{IsUnbound, Turned, turn-Turned}
use dotproxy.Network.Server.Running.Progress.{
  Reached-later, Runs, valid_at, Reach-Runs, IsOf, Reach-IsOf,
}

module _ {H K : Type 0} (V : H → Type 0) (held : H → List NetConn) (S : ServerHandler H)
    (accounted : IsAccounted V held S) (env : Env) (binder : Binder) (h : H) (gs : Goroutines K)
    (none_accepted : connections gs ≡ []) where
  -- A program that runs serves; one that is stopped by an error had a server whose address is not bound;
  -- none faults.
  abbrev pub IsSound : Program H K → Type 0
  IsSound (running s) = Runs V held S accounted env binder h gs none_accepted s
  IsSound (stopped_by e) = (g : Goroutine K) × Mem g gs × IsUnbound binder e g
  IsSound faulted = ⊥

  abbrev pub OfGiven : Goroutine K → Type 0
  OfGiven = IsOf (λ s. Mem (starting_udp s) gs) (λ s. Mem (starting_tcp s) gs)

  given : (g : Goroutine K) → Mem g gs → OfGiven g
  given (starting_udp s) m = m
  given (starting_tcp s) m = m
  given (udp_loop s) m = tt
  given (tcp_loop s) m = tt
  given (connection c) m = tt

  pub unbound-given : (e : Error) (g : Goroutine K) → IsUnbound binder e g → OfGiven g → Mem g gs
  unbound-given e (starting_udp s) bad m = m
  unbound-given e (starting_tcp s) bad m = m
  unbound-given e (udp_loop s) bad m = absurd bad
  unbound-given e (tcp_loop s) bad m = absurd bad
  unbound-given e (connection c) bad m = absurd bad

  pub all_given : (xs : Goroutines K) → ((g : Goroutine K) → Mem g xs → Mem g gs) → All OfGiven xs
  all_given [] sub = tt
  all_given (x ∷ xs) sub =
      (given x (sub x (mem-cons_self)), all_given xs (λ g m. sub g (mem-cons_of_mem x m)))

  last_given :
      {s : Running H K} (before after : Goroutines K) (g : Goroutine K)
      → V h
      → Reach S env binder h gs (running s)
      → s.goroutines ≡ before ++ g ∷ after
      → OfGiven g
  last_given before after g v r at_g =
      (append-All OfGiven before (g ∷ after) (
        subst (All OfGiven) at_g (
          Reach-IsOf V held S accounted env binder h gs none_accepted (λ s. Mem (starting_udp s) gs)
            (λ s. Mem (starting_tcp s) gs) v (all_given gs (λ g m. m)) r))).1.0

  Turned-at :
      (fresh : NetConn) {s : Running H K} (g : Goroutine K)
      → V h
      → Reach S env binder h gs (running s)
      → Returns
          (Turned K V held S accounted env binder
            (System.Reach S env h)
            (Reached-later V held S accounted env binder h gs none_accepted)
            g
            s.handler
            s.world)
          (turn S env binder fresh g s.handler s.world)
  Turned-at fresh {s = s} g v r =
      turn-Turned K V held S accounted env binder (System.Reach S env h)
        (Reached-later V held S accounted env binder h gs none_accepted) fresh g s.handler s.world
        (valid_at V held S accounted env binder h gs none_accepted v
          (Reach-Runs V held S accounted env binder h gs none_accepted v r))

  Runs-still :
      {s : Running H K}
      → V h
      → Reach S env binder h gs (running s)
      → Runs V held S accounted env binder h gs none_accepted s
  Runs-still = Reach-Runs V held S accounted env binder h gs none_accepted

  -- From any servers, over a handler that accounts for its connections and from a valid state of it,
  -- whatever the goroutines do, in any order: while the program runs, its servers are in a state that
  -- turns of their loops reach, and it has as many UDP and TCP loops, or servers that will start them, as
  -- it was given; if an error stops it, that is the error of binding the address of one of the servers it
  -- was given; and it never faults.
  pub Reach-IsSound : {p : Program H K} → V h → Reach S env binder h gs p → IsSound p
  Reach-IsSound v start = Runs-still v start
  Reach-IsSound v (later r (runs fresh before after g at_g e)) =
      Runs-still v (later r (runs fresh before after g at_g e))
  Reach-IsSound v (later {s} r (stops fresh before after g {e} at_g out)) =
      let bad =
        Returns-at
          (Turned K V held S accounted env binder (System.Reach S env h)
            (Reached-later V held S accounted env binder h gs none_accepted) g s.handler s.world)
          (Turned-at fresh g v r) out in
      (g, unbound-given e g bad (last_given before after g v r at_g), bad)
  Reach-IsSound v (later {s} r (faults fresh before after g at_g out)) =
      let (_, ends, _) = Turned-at fresh {s = s} g v r in cc
