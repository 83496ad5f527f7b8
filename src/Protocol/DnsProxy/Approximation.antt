-- ===== src/Protocol/DnsProxy/Approximation.antt =====
-- internal/protocol/dns_proxy.go: the handler over two clients, of which the second does what the first
-- does, unless the first is out of fuel.
use dotproxy.Base.{ℕ, zero, suc, refl, inl, inr, ◌∷◌}
use dotproxy.Base.Int.{ℤ}
use dotproxy.Base.Run.{◌⊑◌, Run-cases}
use dotproxy.Network.World.{
  NetConn, Bytes, Error, World, Outcome, Outcome-cases, Env, M, emitted, retried, destroying,
}
use dotproxy.Network.Pool.{PersistentConn}
use dotproxy.Network.Client.{Client}
use dotproxy.Network.Server.{Transport}
use dotproxy.Protocol.DnsProxy.{
  client_read, frame, max_retries, upstream_transact, attempt, proxy_upstream, handle,
}

module _ {C : Type 0} (I J : Client C) (env : Env)
    (below : (c : C) (w : World) → I.conn c w ⊑ J.conn c w) (client : NetConn) where
  attempt-⊑ :
      (req : Bytes) (f g : NetConn → Error → C → M (C × Outcome (Bytes × PersistentConn))) (c : C)
      (w : World)
      → ((upstream : NetConn) (e : Error) (c : C) (w : World) → f upstream e c w ⊑ g upstream e c w)
      → attempt I env client req f c w ⊑ attempt J env client req g c w
  unfolding attempt
  attempt-⊑ req f g c w rest = elim (below c w) [
    | inl e ↦ inl (rw e refl)
    | inr same ↦ elim (Run-cases (J.conn c w)) [
      | inr (inl e) ↦ inr (rw (same, e) refl)
      | inr (inr e) ↦ inr (rw (same, e) refl)
      | inl (((c₁, o), w₁), e) ↦ elim (Outcome-cases o) [
        | inr (x, failed) ↦ inr (rw (same, e, failed) refl)
        | inl (u, opened) ↦ elim (Run-cases (upstream_transact env client u.conn req w₁)) [
          | inr (inl t) ↦ inr (rw (same, e, opened, t) refl)
          | inr (inr t) ↦ inr (rw (same, e, opened, t) refl)
          | inl ((resp, w₂), t) ↦ elim (Outcome-cases resp) [
            | inl (bytes, good) ↦ inr (rw (same, e, opened, t, good) refl)
            | inr (x, bad) ↦
                rw (same, e, opened, t, bad) (rest u.conn x c₁ (destroying u.conn ∷ w₂))
          ]
        ]
      ]
    ]
  ]

  proxy_upstream-⊑ :
      (req : Bytes) (n : ℕ) (c : C) (w : World)
      → proxy_upstream I env client req n c w ⊑ proxy_upstream J env client req n c w
  unfolding proxy_upstream
  proxy_upstream-⊑ req zero c w = attempt-⊑ req _ _ c w (λ upstream e c' w'. inr refl)
  proxy_upstream-⊑ req (suc n) c w =
      attempt-⊑ req _ _ c w
        (λ upstream e c' w'. proxy_upstream-⊑ req n c' (emitted (retried upstream) ∷ w'))

  pub handle-⊑ :
      (retries : ℤ) (t : Transport) (c : C) (w : World)
      → handle I env retries t client c w ⊑ handle J env retries t client c w
  unfolding handle
  handle-⊑ retries t c w = elim (Run-cases (client_read env client w)) [
    | inr (inl e) ↦ inr (rw e refl)
    | inr (inr e) ↦ inr (rw e refl)
    | inl ((o, w₁), e) ↦ elim (Outcome-cases o) [
      | inr (x, unread) ↦ inr (rw (e, unread) refl)
      | inl (bytes, read) ↦ elim (proxy_upstream-⊑ (frame t bytes) (max_retries retries) c w₁) [
        | inl lost ↦ inl (rw (e, read, lost) refl)
        | inr same ↦ inr (rw (e, read, same) refl)
      ]
    ]
  ]
