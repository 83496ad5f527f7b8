-- ===== src/Network/Client.antt =====
-- internal/network/client.go: the interface of a client, and the client of one upstream server.
-- Conn counts its outcome in a goroutine of its own, so a count waits in
-- `pending` until the goroutine has its turn: `settle` is that turn.
pub mod Counts
use dotproxy.Base.{ℕ, zero, suc, ◌+◌, Bool, true, false, List, [], ◌∷◌, length}
use dotproxy.Base.Run.{Returns}
use dotproxy.Network.World.{Outcome, done, fail, Env, World, M, pure, ◌>>=◌}
use dotproxy.Network.Pool
use dotproxy.Network.Pool.{Pool, PoolOpts, PersistentConn}

pub record Stats : Type 0 where
  pub successful_connections : ℕ
  pub failed_connections : ℕ

-- The interface Client, for a client with state `C`.
pub record Client (C : Type 0) : Type 0 where
  pub conn : C → M (C × Outcome PersistentConn)
  pub stats : C → Stats

-- The interface's contract: from a state that satisfies `V`, Conn ends, with a connection or an error,
-- in a state that satisfies `V`.
abbrev pub Keeps : {C : Type 0} → (C → Type 0) → Client C → Type 0
Keeps {C} V I = (c : C) (w : World) → V c → Returns (λ r. V r.0.0) (I.conn c w)

pub record TlsClient : Type 0 where
  pub pool : Pool
  pub stats : Stats
  pub pending : List Bool

abbrev pub succeeded : Outcome PersistentConn → Bool
succeeded (done pc) = true
succeeded (fail e) = false

-- The rest of NewTLSClient sets up the dialer: here it is the environment's, and Network.Dialer has it.
unfoldable pub new_tls_client : PoolOpts → M TlsClient
new_tls_client opts = do
  pool ← Pool.new_pool opts
  pure (record {
    pool = pool;
    stats = record { successful_connections = 0; failed_connections = 0 };
    pending = [];
  })

unfoldable pub tls_conn : Env → TlsClient → M (TlsClient × Outcome PersistentConn)
tls_conn env c = do
  r ← Pool.conn env c.pool
  pure (record c { pool = r.0; pending = succeeded r.1 ∷ c.pending }, r.1)

abbrev counted : Bool → Stats → Stats
counted true s = record s { successful_connections = s.successful_connections + 1 }
counted false s = record s { failed_connections = s.failed_connections + 1 }

-- The goroutine of one finished call counts it.
abbrev settle_from : List Bool → TlsClient → TlsClient
settle_from [] c = c
settle_from (b ∷ rest) c = record c { stats = counted b c.stats; pending = rest }

unfoldable pub settle : TlsClient → TlsClient
settle c = settle_from c.pending c

unfoldable pub tls_stats : TlsClient → Stats
tls_stats c = c.stats

unfoldable pub tls_client : Env → Client TlsClient
tls_client env = record { conn = tls_conn env; stats = tls_stats }

-- The calls that have ended, counted or not yet.
unfoldable pub total_calls : TlsClient → ℕ
total_calls c = c.stats.successful_connections + c.stats.failed_connections + length c.pending
