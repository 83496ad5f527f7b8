-- ===== src/Protocol/DnsProxy/Written.antt =====
-- internal/protocol/dns_proxy.go: what Handle writes, and to whom.
use dotproxy.Base.{
  ℕ, suc, ◌≤◌, ◌≡◌, refl, sym, ap, ◌∙◌, ◌⊎◌, inl, inr, List, [], ◌∷◌, ◌++◌, some, some_inj, length,
  arith,
}
use dotproxy.Base.Int.{ℤ}
use dotproxy.Base.Run.{Returns}
use dotproxy.Network.World.{NetConn, Bytes, World, Outcome, done, fail, Env}
use dotproxy.Network.Pool.{PersistentConn}
use dotproxy.Network.Client.{Client, Keeps}
use dotproxy.Network.Server.{Transport, tcp, udp}
use dotproxy.Network.Silence.{writes, IsSilent}
use dotproxy.Protocol.DnsProxy.{frame, unframe, max_retries, handle}
use dotproxy.Protocol.DnsProxy.Framing.{unframe-frame}
use dotproxy.Protocol.DnsProxy.Transact.{ReadsBytes}
use dotproxy.Protocol.DnsProxy.Respond.{Served, read_world}
use dotproxy.Protocol.DnsProxy.Handle.{Handled, handle-Handled}
use dotproxy.Protocol.DnsProxy.Asked.{asks, IsFrom, Proxied-Asked}

-- What a client is given of the body of a response: over TCP its frame.
abbrev pub delivered : Transport → Bytes → Bytes
delivered tcp body = frame udp body
delivered udp body = body

delivered-frame :
    (t : Transport) (resp b body : Bytes)
    → unframe t resp ≡ some b
    → resp ≡ frame udp body
    → b ≡ delivered t body
delivered-frame tcp resp b body at framed = sym (some_inj resp b at) ∙ framed
delivered-frame udp resp b body at framed =
    some_inj b body (sym at ∙ ap (unframe udp) framed ∙ (unframe-frame udp body).0)

module _ {C : Type 0} (I : Client C) (env : Env) (client : NetConn) (silent : IsSilent I) where
  -- One write, to the client, of what a Read of the connection that was asked last has stored.
  abbrev pub OneReply : Transport → List NetConn → List (NetConn × Bytes) → Type 0
  OneReply t us l =
      (u : NetConn) × (before : List NetConn) × (v : World) × (body : Bytes) × (us ≡ u ∷ before)
      × (l ≡ (client, delivered t body) ∷ [])
      × (body ≡ (env.read v u (length body)).bytes)

  abbrev pub Replies :
      Transport → List NetConn → Outcome (Unit {0}) → List (NetConn × Bytes) → Type 0
  Replies t us (done _) l = OneReply t us l
  Replies t us (fail e) l = (l ≡ []) ⊎ OneReply t us l

  -- From the trace `w₀`, with a request of `bytes`.
  pub record Wrote (t : Transport) (retries : ℕ) (bytes : Bytes) (w₀ : World)
      (r : (C × Outcome (Unit {0})) × World) : Type 0 where
    pub asked : List NetConn
    pub few : length asked ≤ suc retries
    pub replies : List (NetConn × Bytes)
    pub replied : Replies t asked r.0.1 replies
    pub trace : writes r.1 ≡ replies ++ asks (frame t bytes) asked ++ writes w₀

  reply-of :
      (t : Transport) (us : List NetConn) (resp b : Bytes) (upstream : PersistentConn)
      → unframe t resp ≡ some b
      → IsFrom I env client silent (frame t b) us (done (resp, upstream))
      → OneReply t us ((client, b) ∷ [])
  reply-of t us resp b upstream at (before, v, body, same, framed, stored) = (
    upstream.conn,
    before,
    v,
    body,
    same,
    ap (λ x. (client, x) ∷ []) (delivered-frame t resp b body at framed),
    stored,
  )

  Served-Wrote :
      (t : Transport) (retries : ℕ) (bytes : Bytes) (c : C) (w : World)
      (r : (C × Outcome (Unit {0})) × World)
      → Served I env client t retries bytes c w r
      → Wrote t retries bytes w r
  Served-Wrote t retries bytes c w _ (Served.unproxied c₁ w₁ e p) =
      let (us, few, trace, _) =
        Proxied-Asked I env client silent (frame t bytes) retries c w ((c₁, fail e), w₁) p in
      record { asked = us; few = few; replies = []; replied = inl refl; trace = trace }
  Served-Wrote t retries bytes c w _ (Served.unsent c₁ w₁ resp body upstream e p at _) =
      let (us, few, trace, from) =
        Proxied-Asked I env client silent (frame t bytes) retries c w
          ((c₁, done (resp, upstream)), w₁) p in
      record {
        asked = us;
        few = few;
        replies = (client, body) ∷ [];
        replied = inr (reply-of t us resp body upstream at from);
        trace = ap (λ l. (client, body) ∷ l) trace;
      }
  Served-Wrote t retries bytes c w _ (Served.replied c₁ w₁ resp body upstream p at _) =
      let (us, few, trace, from) =
        Proxied-Asked I env client silent (frame t bytes) retries c w
          ((c₁, done (resp, upstream)), w₁) p in
      record {
        asked = us;
        few = few;
        replies = (client, body) ∷ [];
        replied = reply-of t us resp body upstream at from;
        trace = ap (λ l. (client, body) ∷ l) trace;
      }

  Handled-Wrote :
      (t : Transport) (retries : ℕ) (c : C) (w : World) (r : (C × Outcome (Unit {0})) × World)
      → Handled I env client t retries c w r
      → Wrote t retries (env.read w client 1024).bytes w r
  Handled-Wrote t retries c w _ (Handled.unread e _) = record {
    asked = [];
    few = omega arith;
    replies = [];
    replied = inl refl;
    trace = refl;
  }
  Handled-Wrote t retries c w _ (Handled.served r _ s) =
      let wrote =
        Served-Wrote t retries (env.read w client 1024).bytes c (read_world env client w) r s in
      record {
        asked = wrote.asked;
        few = wrote.few;
        replies = wrote.replies;
        replied = wrote.replied;
        trace = wrote.trace;
      }

  -- If the upstream client keeps its contract and writes nothing when it is asked for a connection, and a
  -- Read stores bytes, then Handle ends, and all that it writes is this. The request that it has read
  -- from the client, framed, goes to one connection per attempt, of which there is at most one more
  -- than the retries. Then at most one write goes to the client, exactly one if Handle succeeds: what a
  -- Read of the connection that was asked last stores, over TCP with its size.
  pub handle-Wrote :
      (V : C → Type 0) (t : Transport) (retries : ℤ) (c : C) (w : World)
      → Keeps V I
      → ReadsBytes env
      → V c
      → Returns
          (Wrote t (max_retries retries) (env.read w client 1024).bytes w)
          (handle I env retries t client c w)
  handle-Wrote V t retries c w keeps bytes v =
      let (r, e, (_, h)) = handle-Handled I env client V t retries c w keeps bytes v in
      (r, e, Handled-Wrote t (max_retries retries) c w r h)
