-- ===== src/Network/Ledger/Tls.antt =====
-- The accounting of the client of one upstream server.
use dotproxy.Base.{◌≡◌, ap, ◌∙◌, inl, inr, List, ◌∷◌, arith}
use dotproxy.Base.Run.{Returns-at}
use dotproxy.Network.World.{NetConn, World, Outcome, done, fail, Env}
use dotproxy.Network.Trace.{count-append, marks}
use dotproxy.Network.Pool.{Pool, PersistentConn}
use dotproxy.Network.Pool.Ownership.{idle, IsValid, lent, conn-Lent}
use dotproxy.Network.Pool.Source.{Source, dial_result, conn-Source}
use dotproxy.Network.Client.{TlsClient, succeeded, tls_conn, tls_client}
use dotproxy.Network.Ledger.{IsAccounted}

dial-marks :
    (o : Outcome NetConn) (w : World) (x : NetConn) → marks x (dial_result w o).1 ≡ marks x w
dial-marks (done c) w x = omega arith
dial-marks (fail e) w x = omega arith

Source-marks :
    (env : Env) (p : Pool) (w : World) (r : (Pool × Outcome PersistentConn) × World) (x : NetConn)
    → Source env p w r
    → marks x r.1 ≡ marks x w
Source-marks env p w r x (inl (_, dials)) =
    ap (λ q. marks x q.1) dials ∙ dial-marks (env.dial w) w x
Source-marks env p w r x (inr (c, s, _, inl (_, inl (_, same)))) = ap (marks x) same
Source-marks env p w r x (inr (c, s, _, inl (_, inr (_, read)))) = ap (marks x) read ∙ omega arith
Source-marks env p w r x (inr (c, s, _, inr (_, _, dials))) =
    ap (λ q. marks x q.1) dials ∙ dial-marks _ _ x ∙ omega arith

abbrev pub HasPool : TlsClient → Type 0
HasPool c = IsValid c.pool

abbrev pub idle_of : TlsClient → List NetConn
idle_of c = idle c.pool

-- From a valid pool, TLSClient.Conn ends with a valid pool, and each connection that its pool held or
-- that it dialed is then in the pool, lent, or closed.
pub tls_client-IsAccounted : (env : Env) → IsAccounted HasPool idle_of (tls_client env)
unfolding tls_client tls_conn
tls_client-IsAccounted env c w v =
    let (((p, o), w'), e, (valid, balanced)) = conn-Lent env c.pool w v in
    let source = Returns-at _ (conn-Source env c.pool w v) e in
    (
      ((record c { pool = p; pending = succeeded o ∷ c.pending }, o), w'),
      rw e,
      (
        valid,
        λ x. omega (
          arith,
          balanced x,
          Source-marks env c.pool w ((p, o), w') x source,
          count-append x (lent o) (idle p),
        ),
      ),
    )
