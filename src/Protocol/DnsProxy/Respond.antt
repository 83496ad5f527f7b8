-- ===== src/Protocol/DnsProxy/Respond.antt =====
-- internal/protocol/dns_proxy.go: a request that has been read, until the reply.
use dotproxy.Base.{
  ℕ, ◌≡◌, refl, inl, inr, false, ◌∷◌, some, arith, length, subst, Option-cases, Bool-cases, ◌==◌,
}
use dotproxy.Base.Run.{ok, Returns}
use dotproxy.Network.World.{
  NetConn, Bytes, Error, short_write, Outcome, done, fail, Outcome-cases, read_done, write_done,
  write_error, processed, request_size, response_size, round_trip, emitted, read_from, wrote_to,
  World, Env,
}
use dotproxy.Network.Pool.{PersistentConn}
use dotproxy.Network.Client.{Client}
use dotproxy.Network.Server.{Transport, tcp, udp}
use dotproxy.Protocol.DnsProxy.{frame, unframe, client_write, respond}
use dotproxy.Protocol.DnsProxy.Framing.{unframe-frame}
use dotproxy.Protocol.DnsProxy.Transact.{IsWhole}
use dotproxy.Protocol.DnsProxy.Upstream
use dotproxy.Protocol.DnsProxy.Upstream.{Answer, Last, Proxied, proxy_upstream-Proxied}

-- The trace once the request has been read.
abbrev pub read_world : Env → NetConn → World → World
read_world env client w =
    emitted (read_done client) ∷ read_from client 1024 (env.read w client 1024) ∷ w

abbrev pub write_world : Env → NetConn → Bytes → World → World
write_world env client body w = wrote_to client body (env.write w client body) ∷ w

abbrev pub reply_world : Env → NetConn → NetConn → ℕ → Bytes → World → World
reply_world env client upstream size body w =
    emitted (round_trip client upstream)
    ∷ emitted (response_size (length body) upstream)
    ∷ emitted (request_size size client)
    ∷ emitted (processed client upstream)
    ∷ emitted (write_done client)
    ∷ write_world env client body w

module _ {C : Type 0} (I : Client C) (env : Env) (client : NetConn) where
  -- A response is the frame of a body.
  abbrev HasFrame : Outcome (Bytes × PersistentConn) → Type 0
  HasFrame (done (resp, upstream)) = (body : Bytes) × (resp ≡ frame udp body)
  HasFrame (fail e) = Unit

  Last-HasFrame :
      (req : Bytes) (left : ℕ) (c : C) (w : World) (a : Answer I env client req)
      → Last I env client req left c w a
      → HasFrame a.0.1
  Last-HasFrame req left c w a l = elim l as (λ a _. HasFrame a.0.1) [
    | Upstream.Last.refused c₁ w₁ e _ ↦ tt
    | Upstream.Last.served c₁ w₁ w₂ upstream resp _ x ↦ (x.body, x.framed)
    | Upstream.Last.exhausted c₁ w₁ w₂ upstream e _ _ _ ↦ tt
  ]

  -- How a request of `bytes` is done with, after it has been read in the trace `w`.
  pub data Served (t : Transport) (retries : ℕ) (bytes : Bytes) (c : C) (w : World)
      : (C × Outcome (Unit {0})) × World → Type 0 where
    -- No upstream gives a response: the client gets nothing.
    unproxied :
        (c₁ : C) (w₁ : World) (e : Error)
        → Proxied I env client (frame t bytes) retries c w ((c₁, fail e), w₁)
        → Served t retries bytes c w ((c₁, fail e), w₁)
    -- The body of the response does not reach the client whole.
    unsent :
        (c₁ : C) (w₁ : World) (resp body : Bytes) (upstream : PersistentConn) (e : Error)
        → Proxied I env client (frame t bytes) retries c w ((c₁, done (resp, upstream)), w₁)
        → unframe t resp ≡ some body
        → ¬ IsWhole (env.write w₁ client body).error (env.write w₁ client body).count (length body)
        → Served t retries bytes c w
            ((c₁, fail e), emitted (write_error client) ∷ write_world env client body w₁)
    -- The body reaches the client whole.
    replied :
        (c₁ : C) (w₁ : World) (resp body : Bytes) (upstream : PersistentConn)
        → Proxied I env client (frame t bytes) retries c w ((c₁, done (resp, upstream)), w₁)
        → unframe t resp ≡ some body
        → IsWhole (env.write w₁ client body).error (env.write w₁ client body).count (length body)
        → Served t retries bytes c w
            ((c₁, done tt), reply_world env client upstream.conn (length (frame t bytes)) body w₁)

  body_of :
      (t : Transport) (resp : Bytes)
      → HasFrame (done (resp, record { conn = 0; destroyed = false }))
      → (body : Bytes) × (unframe t resp ≡ some body)
  body_of tcp resp framed = (resp, refl)
  body_of udp resp (body, e) = (body, rw e (unframe-frame udp body).0)

  -- What becomes of a write to the client.
  abbrev Written : Bytes → World → Outcome (Unit {0}) × World → Type 0
  Written body w (done _, w') =
      IsWhole (env.write w client body).error (env.write w client body).count (length body)
      × (w' ≡ emitted (write_done client) ∷ write_world env client body w)
  Written body w (fail e, w') =
      (¬ IsWhole (env.write w client body).error (env.write w client body).count (length body))
      × (w' ≡ emitted (write_error client) ∷ write_world env client body w)

  client_write-Written :
      (body : Bytes) (w : World) → Returns (Written body w) (client_write env client body w)
  unfolding client_write
  client_write-Written body w =
      let r = env.write w client body in
      elim (Option-cases r.error) [
        | inr (e, p) ↦ (
          (fail e, emitted (write_error client) ∷ write_world env client body w),
          rw p,
          ((λ h. absurd (cc)), refl),
        )
        | inl p ↦ elim (Bool-cases (r.count == length body)) [
          | inl q ↦ (
            (done tt, emitted (write_done client) ∷ write_world env client body w),
            rw p (rw q),
            ((p, ground arith), refl),
          )
          | inr q ↦ (
            (fail short_write, emitted (write_error client) ∷ write_world env client body w),
            rw p (rw q),
            ((λ h. ground arith), refl),
          )
        ]
      ]

  module _ (t : Transport) (req resp body : Bytes) (upstream : NetConn) (o : Outcome (Unit {0}))
      (w w' : World) (at : unframe t resp ≡ some body)
      (wrote : client_write env client body w ≡ ok (o, w')) where
    respond_replied :
        o ≡ done tt
        → w' ≡ emitted (write_done client) ∷ write_world env client body w
        → respond env t client req resp upstream w
          ≡ ok (done tt, reply_world env client upstream (length req) body w)
    unfolding respond
    respond_replied q trace = rw at (rw (wrote, q, trace) refl)

    respond_unsent :
        (e : Error)
        → o ≡ fail e
        → w' ≡ emitted (write_error client) ∷ write_world env client body w
        → respond env t client req resp upstream w
          ≡ ok (fail e, emitted (write_error client) ∷ write_world env client body w)
    unfolding respond
    respond_unsent e q trace = rw at (rw (wrote, q, trace) refl)

  pub respond-Served :
      (t : Transport) (retries : ℕ) (bytes resp : Bytes) (upstream : PersistentConn) (c c₁ : C)
      (w w₁ : World)
      → Proxied I env client (frame t bytes) retries c w ((c₁, done (resp, upstream)), w₁)
      → Returns
          (λ r. Served t retries bytes c w ((c₁, r.0), r.1))
          (respond env t client (frame t bytes) resp upstream.conn w₁)
  respond-Served t retries bytes resp upstream c c₁ w w₁ p =
      let (body, at) =
        body_of t resp (Last-HasFrame (frame t bytes) p.left p.c_last p.w_last _ p.last) in
      let ((o, w₂), wrote, how) = client_write-Written body w₁ in
      elim (Outcome-cases o) [
        | inl (u, q) ↦
            let (whole, trace) = subst (λ o. Written body w₁ (o, w₂)) q how in
            (
              (done tt, reply_world env client upstream.conn (length (frame t bytes)) body w₁),
              respond_replied t (frame t bytes) resp body upstream.conn o w₁ w₂ at wrote q trace,
              Served.replied c₁ w₁ resp body upstream p at whole,
            )
        | inr (e, q) ↦
            let (short, trace) = subst (λ o. Written body w₁ (o, w₂)) q how in
            (
              (fail e, emitted (write_error client) ∷ write_world env client body w₁),
              respond_unsent t (frame t bytes) resp body upstream.conn o w₁ w₂ at wrote e q trace,
              Served.unsent c₁ w₁ resp body upstream e p at short,
            )
      ]
