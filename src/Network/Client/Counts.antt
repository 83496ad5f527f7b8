-- ===== src/Network/Client/Counts.antt =====
-- The counting of the calls of TLSClient.Conn.
use dotproxy.Base.{◌+◌, ◌≡◌, refl, ap, Bool, true, false, List, [], ◌∷◌, arith, length}
use dotproxy.Base.Run.{Returns, Returns-map}
use dotproxy.Network.World.{Outcome, Env, World}
use dotproxy.Network.Pool.{PersistentConn}
use dotproxy.Network.Pool.Ownership.{IsValid, Balanced, lent, conn-Lent}
use dotproxy.Network.Client.{
  TlsClient, Keeps, tls_client, succeeded, tls_conn, settle, settle_from, total_calls,
}

-- Conn adds one call, and leaves the connections accounted for.
abbrev pub Called : TlsClient → World → (TlsClient × Outcome PersistentConn) × World → Type 0
Called c w r =
    IsValid r.0.0.pool
    × (total_calls r.0.0 ≡ total_calls c + 1)
    × (r.0.0.stats ≡ c.stats)
    × Balanced [] (lent r.0.1) c.pool r.0.0.pool w r.1

-- From a valid pool, TLSClient.Conn ends with a valid pool and one more call to count, with the
-- counts so far as they were and every connection accounted for.
pub tls_conn-Called :
    (env : Env) (c : TlsClient) (w : World)
    → IsValid c.pool
    → Returns (Called c w) (tls_conn env c w)
unfolding tls_conn total_calls
tls_conn-Called env c w v =
    let (((p, o), w'), e, both) = conn-Lent env c.pool w v in
    (
      ((record c { pool = p; pending = succeeded o ∷ c.pending }, o), w'),
      rw e,
      (both.0, omega arith, refl, both.1),
    )

settled :
    (bs : List Bool) (c : TlsClient)
    → c.pending ≡ bs
    → total_calls (settle_from bs c) ≡ total_calls c
unfolding total_calls
settled [] c e = refl
settled (true ∷ bs) c e = omega (arith, ap length e)
settled (false ∷ bs) c e = omega (arith, ap length e)

pool_kept : (bs : List Bool) (c : TlsClient) → (settle_from bs c).pool ≡ c.pool
pool_kept [] c = refl
pool_kept (b ∷ bs) c = refl

pub pool-settle : (c : TlsClient) → (settle c).pool ≡ c.pool
unfolding settle
pool-settle c = pool_kept c.pending c

-- The turn of a goroutine that counts a finished call keeps the number of calls, counted or yet to
-- be.
pub total_calls-settle : (c : TlsClient) → total_calls (settle c) ≡ total_calls c
unfolding settle
total_calls-settle c = settled c.pending c refl

-- The client of one upstream server keeps the contract of a client: from a valid pool, Conn ends,
-- and leaves a valid pool.
pub tls_client-Keeps : (env : Env) → Keeps (λ c. IsValid c.pool) (tls_client env)
unfolding tls_client
tls_client-Keeps env c w v = Returns-map (tls_conn-Called env c w v) (λ r h. h.0)
