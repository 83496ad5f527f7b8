-- ===== src/Protocol/DnsProxy/Upstream.antt =====
-- internal/protocol/dns_proxy.go: the retries of a request on one upstream connection after another.
use dotproxy.Base.{ℕ, zero, suc, ◌+◌, ◌≡◌, refl, ap, ◌∙◌, inl, inr, ◌∷◌, arith, subst}
use dotproxy.Base.Run.{Run, ok, Returns}
use dotproxy.Network.World.{
  NetConn, Bytes, Error, open_upstream, Outcome, done, fail, Outcome-cases, retried, emitted,
  destroying, releasing, World, Env,
}
use dotproxy.Network.Pool.{PersistentConn}
use dotproxy.Network.Client.{Client, Keeps}
use dotproxy.Protocol.DnsProxy.{upstream_transact, attempt, proxy_upstream}
use dotproxy.Protocol.DnsProxy.Transact.{
  ReadsBytes, Exchanged, Broken, Transacted, upstream_transact-Transacted,
}

module _ {C : Type 0} (I : Client C) (env : Env) (client : NetConn) (req : Bytes) where
  abbrev pub Answer : Type 0
  Answer = (C × Outcome (Bytes × PersistentConn)) × World

  -- So many attempts in a row each had a connection whose transaction broke. The connection is given
  -- up for destruction, and a retry is counted.
  pub data Tries : ℕ → C → World → C → World → Type 0 where
    start : (c : C) (w : World) → Tries 0 c w c w
    again :
        (n : ℕ) (c c₁ c' : C) (w w₁ w₂ w' : World) (upstream : PersistentConn) (e : Error)
        → I.conn c w ≡ ok ((c₁, done upstream), w₁)
        → Broken env client upstream.conn req w₁ e w₂
        → Tries n c₁ (emitted (retried upstream.conn) ∷ destroying upstream.conn ∷ w₂) c' w'
        → Tries (suc n) c w c' w'

  -- The last attempt: the upstream refuses a connection; or the transaction succeeds, and the
  -- connection goes back to its pool; or, with no retry `left`, it breaks too.
  pub data Last (left : ℕ) (c : C) (w : World) : Answer → Type 0 where
    refused :
        (c₁ : C) (w₁ : World) (e : Error)
        → I.conn c w ≡ ok ((c₁, fail e), w₁)
        → Last left c w ((c₁, fail (open_upstream e)), w₁)
    served :
        (c₁ : C) (w₁ w₂ : World) (upstream : PersistentConn) (resp : Bytes)
        → I.conn c w ≡ ok ((c₁, done upstream), w₁)
        → Exchanged env client upstream.conn req resp w₁ w₂
        → Last left c w ((c₁, done (resp, upstream)), releasing upstream.conn ∷ w₂)
    exhausted :
        (c₁ : C) (w₁ w₂ : World) (upstream : PersistentConn) (e : Error)
        → left ≡ 0
        → I.conn c w ≡ ok ((c₁, done upstream), w₁)
        → Broken env client upstream.conn req w₁ e w₂
        → Last left c w ((c₁, fail e), destroying upstream.conn ∷ w₂)

  pub record Proxied (retries : ℕ) (c : C) (w : World) (a : Answer) : Type 0 where
    pub tries : ℕ
    pub left : ℕ
    pub budget : tries + left ≡ retries
    pub c_last : C
    pub w_last : World
    pub before : Tries tries c w c_last w_last
    pub last : Last left c_last w_last a

  Proxied-now :
      (retries : ℕ) (c : C) (w : World) (a : Answer) → Last retries c w a → Proxied retries c w a
  Proxied-now retries c w a l = record {
    tries = 0;
    left = retries;
    budget = omega arith;
    c_last = c;
    w_last = w;
    before = Tries.start c w;
    last = l;
  }

  Proxied-again :
      (retries : ℕ) (c c₁ : C) (w w₁ w₂ : World) (upstream : PersistentConn) (e : Error)
      (a : Answer)
      → I.conn c w ≡ ok ((c₁, done upstream), w₁)
      → Broken env client upstream.conn req w₁ e w₂
      → Proxied retries c₁ (emitted (retried upstream.conn) ∷ destroying upstream.conn ∷ w₂) a
      → Proxied (suc retries) c w a
  Proxied-again retries c c₁ w w₁ w₂ upstream e a opened broken p = record {
    tries = suc p.tries;
    left = p.left;
    budget = omega (arith, p.budget);
    c_last = p.c_last;
    w_last = p.w_last;
    before = Tries.again p.tries c c₁ p.c_last w w₁ w₂ p.w_last upstream e opened broken p.before;
    last = p.last;
  }

  module _ (spent : NetConn → Error → C → World → Run Answer) (c c₁ : C)
      (o : Outcome PersistentConn) (w w₁ : World) (opened : I.conn c w ≡ ok ((c₁, o), w₁)) where
    attempt_refused :
        (e : Error)
        → o ≡ fail e
        → attempt I env client req spent c w ≡ ok ((c₁, fail (open_upstream e)), w₁)
    unfolding attempt
    attempt_refused e p = rw (opened, p)

    module _ (upstream : PersistentConn) (t : Outcome Bytes) (w₂ : World) (p : o ≡ done upstream)
        (transacted : upstream_transact env client upstream.conn req w₁ ≡ ok (t, w₂)) where
      attempt_served :
          (resp : Bytes)
          → t ≡ done resp
          → attempt I env client req spent c w
            ≡ ok ((c₁, done (resp, upstream)), releasing upstream.conn ∷ w₂)
      unfolding attempt
      attempt_served resp q = rw (opened, p) (rw (transacted, q))

      attempt_broken :
          (e : Error)
          → t ≡ fail e
          → attempt I env client req spent c w
            ≡ spent upstream.conn e c₁ (destroying upstream.conn ∷ w₂)
      unfolding attempt
      attempt_broken e q = rw (opened, p) (rw (transacted, q))

  -- How an attempt ends: for good, or with `spent`.
  data Attempted (V : C → Type 0) (spent : NetConn → Error → C → World → Run Answer) (c : C)
      (w : World) : Type 0 where
    ended :
        (a : Answer)
        → attempt I env client req spent c w ≡ ok a
        → V a.0.0
        → ((left : ℕ) → Last left c w a)
        → Attempted V spent c w
    broke :
        (c₁ : C) (w₁ w₂ : World) (upstream : PersistentConn) (e : Error)
        → I.conn c w ≡ ok ((c₁, done upstream), w₁)
        → Broken env client upstream.conn req w₁ e w₂
        → V c₁
        → attempt I env client req spent c w
          ≡ spent upstream.conn e c₁ (destroying upstream.conn ∷ w₂)
        → Attempted V spent c w

  module _ (V : C → Type 0) (keeps : Keeps V I) (bytes : ReadsBytes env) where
    attempt-Attempted :
        (spent : NetConn → Error → C → World → Run Answer) (c : C) (w : World)
        → V c
        → Attempted V spent c w
    attempt-Attempted spent c w valid =
        let (((c₁, o), w₁), opened, valid₁) = keeps c w valid in
        elim (Outcome-cases o) [
          | inr (e, p) ↦
              let refusal = opened ∙ ap (λ o. ok ((c₁, o), w₁)) p in
              Attempted.ended ((c₁, fail (open_upstream e)), w₁)
                (attempt_refused spent c c₁ o w w₁ opened e p) valid₁
                (λ left. Last.refused c₁ w₁ e refusal)
          | inl (upstream, p) ↦
              let opened' = opened ∙ ap (λ o. ok ((c₁, o), w₁)) p in
              let ((t, w₂), transacted, how) =
                upstream_transact-Transacted env client upstream.conn req w₁ bytes in
              elim (Outcome-cases t) [
                | inl (resp, q) ↦
                    let exchanged =
                      subst (λ t. Transacted env client upstream.conn req w₁ (t, w₂)) q how in
                    Attempted.ended ((c₁, done (resp, upstream)), releasing upstream.conn ∷ w₂)
                      (attempt_served spent c c₁ o w w₁ opened upstream t w₂ p transacted resp q)
                      valid₁ (λ left. Last.served c₁ w₁ w₂ upstream resp opened' exchanged)
                | inr (e, q) ↦
                    let broken =
                      subst (λ t. Transacted env client upstream.conn req w₁ (t, w₂)) q how in
                    Attempted.broke c₁ w₁ w₂ upstream e opened' broken valid₁
                      (attempt_broken spent c c₁ o w w₁ opened upstream t w₂ p transacted e q)
              ]
        ]

    -- From a valid client that keeps its contract, if a Read stores bytes, proxyUpstream ends. At
    -- most `retries` attempts break, each connection of which is given up for destruction; then a
    -- last one is refused a connection, or is answered and gives its connection back, or breaks
    -- with no retry left.
    pub proxy_upstream-Proxied :
        (retries : ℕ) (c : C) (w : World)
        → V c
        → Returns
            (λ a. V a.0.0 × Proxied retries c w a)
            (proxy_upstream I env client req retries c w)
    unfolding proxy_upstream
    proxy_upstream-Proxied zero c w valid = elim (attempt-Attempted _ c w valid) [
      | ended a e v l ↦ (a, e, (v, Proxied-now 0 c w a (l 0)))
      | broke c₁ w₁ w₂ upstream e opened broken v eq ↦
          let a : Answer = ((c₁, fail e), destroying upstream.conn ∷ w₂) in
          (a, eq, (v, Proxied-now 0 c w a (Last.exhausted c₁ w₁ w₂ upstream e refl opened broken)))
    ]
    proxy_upstream-Proxied (suc n) c w valid = elim (attempt-Attempted _ c w valid) [
      | ended a e v l ↦ (a, e, (v, Proxied-now (suc n) c w a (l (suc n))))
      | broke c₁ w₁ w₂ upstream e opened broken v eq ↦
          let (a, eq', (v', p)) =
            proxy_upstream-Proxied n c₁
              (emitted (retried upstream.conn) ∷ destroying upstream.conn ∷ w₂) v in
          (a, eq ∙ eq', (v', Proxied-again n c c₁ w w₁ w₂ upstream e a opened broken p))
    ]
