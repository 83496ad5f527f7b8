-- ===== src/Protocol/DnsProxy/Handle.antt =====
-- internal/protocol/dns_proxy.go: a request from its arrival to the reply.
use dotproxy.Base.{ℕ, ◌≡◌, refl, inl, inr, ◌∷◌, none, some, subst, Option-cases}
use dotproxy.Base.Int.{ℤ}
use dotproxy.Base.Run.{ok, Returns}
use dotproxy.Network.World.{
  NetConn, Bytes, Error, read_request, Outcome, done, fail, Outcome-cases, read_error, emitted,
  read_from, World, Env,
}
use dotproxy.Network.Pool.{PersistentConn}
use dotproxy.Network.Client.{Client, Keeps}
use dotproxy.Network.Server.{Transport}
use dotproxy.Protocol.DnsProxy.{frame, max_retries, client_read, respond, handle, proxy_upstream}
use dotproxy.Protocol.DnsProxy.Transact.{ReadsBytes}
use dotproxy.Protocol.DnsProxy.Upstream.{Proxied, proxy_upstream-Proxied}
use dotproxy.Protocol.DnsProxy.Respond.{Served, respond-Served, read_world}

module _ {C : Type 0} (I : Client C) (env : Env) (client : NetConn) where
  pub data Handled (t : Transport) (retries : ℕ) (c : C) (w : World)
      : (C × Outcome (Unit {0})) × World → Type 0 where
    unread :
        (e : Error)
        → (env.read w client 1024).error ≡ some e
        → Handled t retries c w (
          (c, fail read_request),
          emitted (read_error client) ∷ read_from client 1024 (env.read w client 1024) ∷ w,
        )
    served :
        (a : (C × Outcome (Unit {0})) × World)
        → (env.read w client 1024).error ≡ none
        → Served I env client t retries (env.read w client 1024).bytes c (read_world env client w) a
        → Handled t retries c w a

  client_read_failed :
      (w : World) (e : Error)
      → (env.read w client 1024).error ≡ some e
      → client_read env client w
        ≡ ok (
          fail read_request,
          emitted (read_error client) ∷ read_from client 1024 (env.read w client 1024) ∷ w,
        )
  unfolding client_read
  client_read_failed w e p = rw p refl

  client_read_done :
      (w : World)
      → (env.read w client 1024).error ≡ none
      → client_read env client w ≡ ok (done (env.read w client 1024).bytes, read_world env client w)
  unfolding client_read
  client_read_done w p = rw p refl

  module _ (t : Transport) (retries : ℤ) (c c₁ : C) (o : Outcome (Bytes × PersistentConn))
      (w w₁ : World) (no_error : (env.read w client 1024).error ≡ none)
      (proxied : proxy_upstream I env client
          (frame t (env.read w client 1024).bytes)
          (max_retries retries)
          c
          (read_world env client w)
        ≡ ok ((c₁, o), w₁)) where
    handle_unproxied :
        (e : Error) → o ≡ fail e → handle I env retries t client c w ≡ ok ((c₁, fail e), w₁)
    unfolding handle
    handle_unproxied e p = rw (client_read_done w no_error) (rw (proxied, p) refl)

    handle_proxied :
        (resp : Bytes) (upstream : PersistentConn) (r : Outcome (Unit {0}) × World)
        → o ≡ done (resp, upstream)
        → respond env t client (frame t (env.read w client 1024).bytes) resp upstream.conn w₁ ≡ ok r
        → handle I env retries t client c w ≡ ok ((c₁, r.0), r.1)
    unfolding handle
    handle_proxied resp upstream r p q =
        rw (client_read_done w no_error) (rw (proxied, p) (rw q refl))

  handle_unread :
      (t : Transport) (retries : ℤ) (c : C) (w : World) (e : Error)
      → (env.read w client 1024).error ≡ some e
      → handle I env retries t client c w
        ≡ ok (
          (c, fail read_request),
          emitted (read_error client) ∷ read_from client 1024 (env.read w client 1024) ∷ w,
        )
  unfolding handle
  handle_unread t retries c w e p = rw (client_read_failed w e p) refl

  -- From a valid upstream client that keeps its contract, if a Read stores bytes, Handle ends, with
  -- a valid client, in one of these ways: the request could not be read; or no upstream answered
  -- the framed request within the retries; or the body of the answer was written to the client not
  -- whole, which is an error; or it was written whole, and counted in the metrics.
  pub handle-Handled :
      (V : C → Type 0) (t : Transport) (retries : ℤ) (c : C) (w : World)
      → Keeps V I
      → ReadsBytes env
      → V c
      → Returns
          (λ r. V r.0.0 × Handled t (max_retries retries) c w r)
          (handle I env retries t client c w)
  handle-Handled V t retries c w keeps bytes valid =
      let read = env.read w client 1024 in
      let proxied_with : C → World → Outcome (Bytes × PersistentConn) → Type 0 = λ c₁ w₁ o.
        Proxied I env client (frame t read.bytes) (max_retries retries) c (read_world env client w)
          ((c₁, o), w₁) in
      elim (Option-cases read.error) [
        | inr (e, p) ↦ (
          ((c, fail read_request), emitted (read_error client) ∷ read_from client 1024 read ∷ w),
          handle_unread t retries c w e p,
          (valid, Handled.unread e p),
        )
        | inl p ↦
            let (((c₁, o), w₁), e, (valid', how)) =
              proxy_upstream-Proxied I env client (frame t read.bytes) V keeps bytes
                (max_retries retries) c (read_world env client w) valid in
            elim (Outcome-cases o) [
              | inr (why, q) ↦
                  let how' = subst (proxied_with c₁ w₁) q how in
                  (
                    ((c₁, fail why), w₁),
                    handle_unproxied t retries c c₁ o w w₁ p e why q,
                    (valid', Handled.served _ p (Served.unproxied c₁ w₁ why how')),
                  )
              | inl ((resp, upstream), q) ↦
                  let how' = subst (proxied_with c₁ w₁) q how in
                  let (r, e', s) =
                    respond-Served I env client t (max_retries retries) read.bytes resp upstream c
                      c₁ (read_world env client w) w₁ how' in
                  (
                    ((c₁, r.0), r.1),
                    handle_proxied t retries c c₁ o w w₁ p e resp upstream r q e',
                    (valid', Handled.served _ p s),
                  )
            ]
      ]
