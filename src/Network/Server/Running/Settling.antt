-- ===== src/Network/Server/Running/Settling.antt =====
-- The goroutines that are no loops take their turns, until only loops are left.
use mathlib.Core.List.{append_assoc, append-nil}
use dotproxy.Base.{
  ◌≡◌, refl, sym, subst, ◌∙◌, ◌⊎◌, inl, inr, List, [], ◌∷◌, ◌++◌, none, All, All-append, All-imp,
}
use dotproxy.Base.Run.{Run, ok, Returns}
use dotproxy.Network.World.{Outcome, NetConn, Error, done, fail, Env, World}
use dotproxy.Network.Server.{ServerHandler}
use dotproxy.Network.Server.System
use dotproxy.Network.Server.System.{IsAccounted, System, Step-Accounts}
use dotproxy.Network.Server.Listening.{
  Binder, Goroutine, Goroutines, starting_udp, starting_tcp, udp_loop, tcp_loop, connection,
  connections, IsLoop, IsNext,
}
use dotproxy.Network.Server.Running.{Running, running, Step, runs}
use dotproxy.Network.Server.Running.Steps.{IsUnbound, Turned}
use dotproxy.Network.Server.Running.Progress.{IsOf, Turned-at, Step-kept}

-- A server's address can be bound.
abbrev pub IsBound : {K : Type 0} → Binder → Goroutine K → Type 0
IsBound binder = IsOf (λ s. binder.listen_packet s.addr ≡ none) (λ s. binder.listen s.addr ≡ none)

module _ {K : Type 0} where
  IsLoop-cases : (g : Goroutine K) → IsLoop g ⊎ (¬ IsLoop g)
  IsLoop-cases (starting_udp s) = inr (λ l. l)
  IsLoop-cases (starting_tcp s) = inr (λ l. l)
  IsLoop-cases (udp_loop s) = inl tt
  IsLoop-cases (tcp_loop s) = inl tt
  IsLoop-cases (connection c) = inr (λ l. l)

  IsLoop-next : (g n : Goroutine K) → ¬ IsLoop g → IsNext g n → IsLoop n
  IsLoop-next (starting_udp s) n w b = b
  IsLoop-next (starting_tcp s) n w b = b
  IsLoop-next (udp_loop s) n w b = b
  IsLoop-next (tcp_loop s) n w b = absurd (w tt)
  IsLoop-next (connection c) n w b = b

  pub connections-loops : (gs : Goroutines K) → All IsLoop gs → connections gs ≡ []
  connections-loops [] all = refl
  connections-loops (starting_udp s ∷ gs) all = absurd all.0
  connections-loops (starting_tcp s ∷ gs) all = absurd all.0
  connections-loops (udp_loop s ∷ gs) all = connections-loops gs all.1
  connections-loops (tcp_loop s ∷ gs) all = connections-loops gs all.1
  connections-loops (connection c ∷ gs) all = absurd all.0

  bound_or_not :
      (binder : Binder) (e : Error) (g : Goroutine K) → IsBound binder g → ¬ IsUnbound binder e g
  bound_or_not binder e (starting_udp s) free (x, taken, _) = cc
  bound_or_not binder e (starting_tcp s) free (x, taken, _) = cc
  bound_or_not binder e (udp_loop s) free bad = bad
  bound_or_not binder e (tcp_loop s) free bad = bad
  bound_or_not binder e (connection c) free bad = bad

-- Some turns, one after the other.
pub data Leads {H K : Type 0} (S : ServerHandler H) (env : Env) (binder : Binder)
    : Running H K → Running H K → Type 0 where
  here : {s : Running H K} → Leads S env binder s s
  onward :
      {s t u : Running H K}
      → Step S env binder s (running t)
      → Leads S env binder t u
      → Leads S env binder s u

module _ {H : Type 0} (V : H → Type 0) (held : H → List NetConn) (S : ServerHandler H)
    (accounted : IsAccounted V held S) (env : Env) where
  abbrev pub IsValid : System H → Type 0
  IsValid sys = V sys.handler

  pub IsValid-step : (a b : System H) → System.Step S env a b → IsValid a → IsValid b
  IsValid-step a b step v = (Step-Accounts V held S accounted env step v).0

module _ {H K : Type 0} (V : H → Type 0) (held : H → List NetConn) (S : ServerHandler H)
    (accounted : IsAccounted V held S) (env : Env) (binder : Binder) where
  -- A goroutine that is not a loop, and whose server's address can be bound, becomes loops.
  next_of :
      (g : Goroutine K) (h₀ : H) (w₀ : World) {r : Run (Outcome (H × Goroutines K) × World)}
      → IsBound binder g
      → ¬ IsLoop g
      → Returns
          (Turned K V held S accounted env binder
            (IsValid V held S accounted env)
            (IsValid-step V held S accounted env)
            g
            h₀
            w₀)
          r
      → (h' : H) × (news : Goroutines K) × (w' : World) × (r ≡ ok (done (h', news), w'))
        × All IsLoop news
  next_of g h₀ w₀ free waits ((done (h', news), w'), e, (_, _, next, _)) =
      (h', news, w', e, All-imp (IsNext g) IsLoop (λ n. IsLoop-next g n waits) news next)
  next_of g h₀ w₀ free waits ((fail x, w'), e, bad) = absurd (bound_or_not binder x g free bad)

  pub settle :
      (before after : Goroutines K) (s : Running H K)
      → s.goroutines ≡ before ++ after
      → All IsLoop before
      → All (IsBound binder) after
      → V s.handler
      → (t : Running H K) × Leads S env binder s t × All IsLoop t.goroutines
  settle before [] s at_end loops bound v =
      (s, here, subst (All IsLoop) (sym (at_end ∙ append-nil before)) loops)
  settle before (g ∷ after) s at_g loops bound v = elim (IsLoop-cases g) [
    | inl loop ↦
        settle (before ++ g ∷ []) after s (at_g ∙ sym (append_assoc before (g ∷ []) after))
          (All-append IsLoop before (g ∷ []) loops (loop, tt)) bound.1 v
    | inr waits ↦
        let (h', news, w', e, only_loops) = next_of g s.handler s.world bound.0 waits (
          Turned-at V held S accounted env binder (IsValid V held S accounted env)
            (IsValid-step V held S accounted env) s 0 g v) in
        let step = runs 0 before after g at_g e in
        let (t, leads, all) =
          settle (news ++ before) after
            (record { handler = h'; goroutines = news ++ before ++ after; world = w' }) refl
            (All-append IsLoop news before only_loops loops) bound.1
            (Step-kept V held S accounted env binder (IsValid V held S accounted env)
              (IsValid-step V held S accounted env) v v step).0 in
        (t, onward step leads, all)
  ]
