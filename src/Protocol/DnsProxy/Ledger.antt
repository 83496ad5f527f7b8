-- ===== src/Protocol/DnsProxy/Ledger.antt =====
-- internal/protocol/dns_proxy.go: what becomes of the upstream connections that a request obtains.
use dotproxy.Base.{ℕ, ◌≡◌, refl, ap, ◌∙◌, List, ◌∷◌, ◌++◌, arith}
use dotproxy.Base.Int.{ℤ}
use dotproxy.Base.Run.{Returns, Returns-at, ok}
use dotproxy.Network.World.{
  NetConn, Bytes, Error, World, Outcome, done, fail, Env, emitted, retried, destroying,
}
use dotproxy.Network.Trace.{opens, closes, marks}
use dotproxy.Network.Pool.{PersistentConn}
use dotproxy.Network.Pool.Ownership.{lent}
use dotproxy.Network.Client.{Client, Keeps}
use dotproxy.Network.Ledger.{Accounts, IsAccounted}
use dotproxy.Network.Server.{Transport}
use dotproxy.Protocol.DnsProxy.{frame, max_retries, handle}
use dotproxy.Protocol.DnsProxy.Transact.{ReadsBytes, Exchanged, Broken}
use dotproxy.Protocol.DnsProxy.Upstream.{Answer, Tries, Last, Proxied}
use dotproxy.Protocol.DnsProxy.Respond.{Served, read_world}
use dotproxy.Protocol.DnsProxy.Handle.{Handled, handle-Handled}

-- Between the two traces no connection is opened, closed or handed over.
abbrev Untouched : World → World → Type 0
Untouched w w' =
    (x : NetConn) → (opens x w' ≡ opens x w) × (closes x w' ≡ closes x w) × (marks x w' ≡ marks x w)

module _ (env : Env) (client upstream : NetConn) (req : Bytes) where
  Broken-Untouched :
      (w w' : World) (e : Error) → Broken env client upstream req w e w' → Untouched w w'
  Broken-Untouched w _ _ (Broken.unwritten _) x = (omega arith, omega arith, omega arith)
  Broken-Untouched w _ _ (Broken.headless _ _) x = (omega arith, omega arith, omega arith)
  Broken-Untouched w _ _ (Broken.bodiless n _ _ _ _) x = (omega arith, omega arith, omega arith)

  Exchanged-Untouched :
      (resp : Bytes) (w w' : World) → Exchanged env client upstream req resp w w' → Untouched w w'
  Exchanged-Untouched resp w w' e x = (
    ap (opens x) e.trace ∙ omega arith,
    ap (closes x) e.trace ∙ omega arith,
    ap (marks x) e.trace ∙ omega arith,
  )

module _ {C : Type 0} (V : C → Type 0) (held : C → List NetConn) (I : Client C) (env : Env)
    (client : NetConn) (accounted : IsAccounted V held I) where
  -- What a call of the upstream client's Conn leaves.
  lends :
      (c c₁ : C) (o : Outcome PersistentConn) (w w₁ : World)
      → V c
      → I.conn c w ≡ ok ((c₁, o), w₁)
      → V c₁ × Accounts (held c) (lent o ++ held c₁) w w₁
  lends c c₁ o w w₁ v e = Returns-at _ (accounted c w v) e

  Tries-Accounts :
      (req : Bytes) (n : ℕ) (c c' : C) (w w' : World)
      → V c
      → Tries I env client req n c w c' w'
      → V c' × Accounts (held c) (held c') w w'
  Tries-Accounts req _ c _ w _ v (Tries.start _ _) = (v, λ x. refl)
  Tries-Accounts req _ c c' w w' v (Tries.again n _ c₁ _ _ w₁ w₂ _ upstream e opened broken rest) =
      let (v₁, a) = lends c c₁ (done upstream) w w₁ v opened in
      let same = Broken-Untouched env client upstream.conn req w₁ w₂ e broken in
      let (v', b) =
        Tries-Accounts req n c₁ c' (emitted (retried upstream.conn) ∷ destroying upstream.conn ∷ w₂)
          w' v₁ rest in
      (v', λ x. omega (arith, a x, same x, b x))

  Last-Accounts :
      (req : Bytes) (left : ℕ) (c : C) (w : World) (a : Answer I env client req)
      → V c
      → Last I env client req left c w a
      → V a.0.0 × Accounts (held c) (held a.0.0) w a.1
  Last-Accounts req left c w _ v (Last.refused c₁ w₁ e opened) = lends c c₁ (fail e) w w₁ v opened
  Last-Accounts req left c w _ v (Last.served c₁ w₁ w₂ upstream resp opened exchanged) =
      let (v₁, a) = lends c c₁ (done upstream) w w₁ v opened in
      let same = Exchanged-Untouched env client upstream.conn req resp w₁ w₂ exchanged in
      (v₁, λ x. omega (arith, a x, same x))
  Last-Accounts req left c w _ v (Last.exhausted c₁ w₁ w₂ upstream e _ opened broken) =
      let (v₁, a) = lends c c₁ (done upstream) w w₁ v opened in
      let same = Broken-Untouched env client upstream.conn req w₁ w₂ e broken in
      (v₁, λ x. omega (arith, a x, same x))

  Proxied-Accounts :
      (req : Bytes) (retries : ℕ) (c : C) (w : World) (a : Answer I env client req)
      → V c
      → Proxied I env client req retries c w a
      → V a.0.0 × Accounts (held c) (held a.0.0) w a.1
  Proxied-Accounts req retries c w a v p =
      let (v₁, before) = Tries-Accounts req p.tries c p.c_last w p.w_last v p.before in
      let (v₂, last) = Last-Accounts req p.left p.c_last p.w_last a v₁ p.last in
      (v₂, λ x. omega (arith, before x, last x))

  Served-Accounts :
      (t : Transport) (retries : ℕ) (bytes : Bytes) (c : C) (w : World)
      (r : (C × Outcome (Unit {0})) × World)
      → V c
      → Served I env client t retries bytes c w r
      → Accounts (held c) (held r.0.0) w r.1
  Served-Accounts t retries bytes c w _ v (Served.unproxied c₁ w₁ e p) =
      (Proxied-Accounts (frame t bytes) retries c w ((c₁, fail e), w₁) v p).1
  Served-Accounts t retries bytes c w _ v (Served.unsent c₁ w₁ resp body upstream e p _ _) =
      let (_, a) =
        Proxied-Accounts (frame t bytes) retries c w ((c₁, done (resp, upstream)), w₁) v p in
      λ x. omega (arith, a x)
  Served-Accounts t retries bytes c w _ v (Served.replied c₁ w₁ resp body upstream p _ _) =
      let (_, a) =
        Proxied-Accounts (frame t bytes) retries c w ((c₁, done (resp, upstream)), w₁) v p in
      λ x. omega (arith, a x)

  Handled-Accounts :
      (t : Transport) (retries : ℕ) (c : C) (w : World) (r : (C × Outcome (Unit {0})) × World)
      → V c
      → Handled I env client t retries c w r
      → Accounts (held c) (held r.0.0) w r.1
  Handled-Accounts t retries c w _ v (Handled.unread e _) = λ x. omega arith
  Handled-Accounts t retries c w _ v (Handled.served r _ s) =
      let a = Served-Accounts t retries _ c (read_world env client w) r v s in
      λ x. omega (arith, a x)

  keeps : Keeps V I
  keeps c w v = let (r, e, both) = accounted c w v in (r, e, both.0)

  -- If the upstream client accounts for its connections and a Read stores bytes, Handle ends, and each
  -- connection that the client held or opened is then held by it, closed, or handed over to be destroyed
  -- or closed: a request leaks none, on any of its paths.
  pub handle-Accounts :
      (t : Transport) (retries : ℤ) (c : C) (w : World)
      → ReadsBytes env
      → V c
      → Returns
          (λ r. V r.0.0 × Accounts (held c) (held r.0.0) w r.1)
          (handle I env retries t client c w)
  handle-Accounts t retries c w bytes v =
      let (r, e, (v', h)) = handle-Handled I env client V t retries c w keeps bytes v in
      (r, e, (v', Handled-Accounts t (max_retries retries) c w r v h))
