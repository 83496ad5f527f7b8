-- ===== src/Protocol/DnsProxy/Asked.antt =====
-- internal/protocol/dns_proxy.go: the connections to which ProxyUpstream writes the request.
use mathlib.Core.List.{append_assoc}
use dotproxy.Base.{
  ℕ, suc, ◌≤◌, ◌≡◌, refl, sym, ap, ◌∙◌, List, [], ◌∷◌, ◌++◌, length, length-append, arith,
}
use dotproxy.Base.Run.{ok}
use dotproxy.Network.World.{
  NetConn, Bytes, Error, World, Outcome, done, fail, Env, emitted, retried, destroying,
}
use dotproxy.Network.Pool.{PersistentConn}
use dotproxy.Network.Client.{Client}
use dotproxy.Network.Server.{udp}
use dotproxy.Network.Silence.{writes, IsUnwritten, IsSilent}
use dotproxy.Base.Run.{IfEnds-at}
use dotproxy.Protocol.DnsProxy.{frame}
use dotproxy.Protocol.DnsProxy.Transact.{Exchanged, Broken}
use dotproxy.Protocol.DnsProxy.Upstream.{Answer, Tries, Last, Proxied}

-- The request, written to each of the connections.
abbrev pub asks : Bytes → List NetConn → List (NetConn × Bytes)
asks req [] = []
asks req (u ∷ us) = (u, req) ∷ asks req us

asks-append :
    (req : Bytes) (us vs : List NetConn) → asks req (us ++ vs) ≡ asks req us ++ asks req vs
asks-append req [] vs = refl
asks-append req (u ∷ us) vs = ap (λ l. (u, req) ∷ l) (asks-append req us vs)

module _ (env : Env) (client upstream : NetConn) (req : Bytes) where
  Broken-writes :
      (w w' : World) (e : Error)
      → Broken env client upstream req w e w'
      → writes w' ≡ (upstream, req) ∷ writes w
  Broken-writes w _ _ (Broken.unwritten _) = refl
  Broken-writes w _ _ (Broken.headless _ _) = refl
  Broken-writes w _ _ (Broken.bodiless n _ _ _ _) = refl

  Exchanged-writes :
      (resp : Bytes) (w w' : World)
      → Exchanged env client upstream req resp w w'
      → writes w' ≡ (upstream, req) ∷ writes w
  Exchanged-writes resp w w' e = ap writes e.trace

module _ {C : Type 0} (I : Client C) (env : Env) (client : NetConn) (silent : IsSilent I)
    (req : Bytes) where
  opened :
      (c : C) (w : World) {r : (C × Outcome PersistentConn) × World}
      → I.conn c w ≡ ok r
      → writes r.1 ≡ writes w
  opened c w e = IfEnds-at (IsUnwritten w) (silent c w) e

  -- The request went to so many connections, the latest first.
  abbrev Asked : ℕ → World → World → Type 0
  Asked n w w' = (us : List NetConn) × (length us ≡ n) × (writes w' ≡ asks req us ++ writes w)

  Tries-Asked :
      (n : ℕ) (c c' : C) (w w' : World) → Tries I env client req n c w c' w' → Asked n w w'
  Tries-Asked _ c _ w _ (Tries.start _ _) = ([], refl, refl)
  Tries-Asked _ c c' w w' (Tries.again n _ c₁ _ _ w₁ w₂ _ upstream e got broken rest) =
      let (us, size, trace) =
        Tries-Asked n c₁ c' (emitted (retried upstream.conn) ∷ destroying upstream.conn ∷ w₂) w'
          rest in
      let wrote = Broken-writes env client upstream.conn req w₁ w₂ e broken in
      (
        us ++ upstream.conn ∷ [],
        omega (arith, size, length-append us (upstream.conn ∷ [])),
        trace
            ∙ ap (λ l. asks req us ++ l)
                (wrote ∙ ap (λ l. (upstream.conn, req) ∷ l) (opened c w got))
            ∙ sym (
                ap (λ l. l ++ writes w) (asks-append req us (upstream.conn ∷ []))
                ∙ append_assoc (asks req us) ((upstream.conn, req) ∷ []) (writes w)),
      )

  -- A response is the frame of what a Read of the connection that was asked last has stored.
  abbrev pub IsFrom : List NetConn → Outcome (Bytes × PersistentConn) → Type 0
  IsFrom us (fail e) = Unit
  IsFrom us (done (resp, upstream)) =
      (before : List NetConn) × (v : World) × (body : Bytes) × (us ≡ upstream.conn ∷ before)
      × (resp ≡ frame udp body)
      × (body ≡ (env.read v upstream.conn (length body)).bytes)

  -- What the last attempt writes.
  Last-Asked :
      (left : ℕ) (c : C) (w : World) (a : Answer I env client req) (us : List NetConn) (w₀ : World)
      → writes w ≡ asks req us ++ writes w₀
      → Last I env client req left c w a
      → (vs : List NetConn) × (length vs ≤ suc (length us))
        × (writes a.1 ≡ asks req vs ++ writes w₀)
        × IsFrom vs a.0.1
  Last-Asked left c w _ us w₀ trace (Last.refused c₁ w₁ e got) =
      (us, omega arith, opened c w got ∙ trace, tt)
  Last-Asked left c w _ us w₀ trace (Last.served c₁ w₁ w₂ upstream resp got x) = (
    upstream.conn ∷ us,
    omega arith,
    Exchanged-writes env client upstream.conn req resp w₁ w₂ x
        ∙ ap (λ l. (upstream.conn, req) ∷ l) (opened c w got ∙ trace),
    (us, _, x.body, refl, x.framed, x.stored),
  )
  Last-Asked left c w _ us w₀ trace (Last.exhausted c₁ w₁ w₂ upstream e _ got broken) = (
    upstream.conn ∷ us,
    omega arith,
    Broken-writes env client upstream.conn req w₁ w₂ e broken
        ∙ ap (λ l. (upstream.conn, req) ∷ l) (opened c w got ∙ trace),
    tt,
  )

  pub Proxied-Asked :
      (retries : ℕ) (c : C) (w : World) (a : Answer I env client req)
      → Proxied I env client req retries c w a
      → (us : List NetConn) × (length us ≤ suc retries)
        × (writes a.1 ≡ asks req us ++ writes w)
        × IsFrom us a.0.1
  Proxied-Asked retries c w a p =
      let (us, size, trace) = Tries-Asked p.tries c p.c_last w p.w_last p.before in
      let (vs, few, trace', from) = Last-Asked p.left p.c_last p.w_last a us w trace p.last in
      (vs, omega (arith, few, size, p.budget), trace', from)
