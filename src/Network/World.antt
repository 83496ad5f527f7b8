-- ===== src/Network/World.antt =====
-- What the network code meets outside itself: the clock, randomness, sockets and metrics hooks.
-- A world is the trace of all that was asked and done, the latest first. An environment answers each
-- question from the trace, so any behaviour of the clock and of the peers is an environment.
use dotproxy.Base.{ℕ, ◌≡◌, refl, ◌⊎◌, inl, inr, List, ◌∷◌, Option, ◌==◌, if◌then◌else◌}
use dotproxy.Base.Run.{Run, ok, panic, ◌>>=◌ as run_bind}
use dotproxy.Base.Time.{Time}

-- A connection object, net.Conn, by its identity; a byte; an error, by the call that made it.
abbrev pub NetConn : Type 0
NetConn = ℕ

abbrev pub Bytes : Type 0
Bytes = List ℕ

pub data Error : Type 0 where
  connect_failed handshake_failed no_live_clients all_clients_failed unknown_policy : Error
  read_request write_upstream read_header read_response short_write : Error
  open_upstream listen_udp listen_tcp : Error → Error
  io : ℕ → Error

-- A Go result of a value and an error, of which one is set.
pub data Outcome {ℓ} (A : Type ℓ) : Type ℓ where
  done : A → Outcome A
  fail : Error → Outcome A

pub Outcome-cases {ℓ} :
    {A : Type ℓ} (o : Outcome A) → ((a : A) × (o ≡ done a)) ⊎ ((e : Error) × (o ≡ fail e))
Outcome-cases (done a) = inl (a, refl)
Outcome-cases (fail e) = inr (e, refl)

pub done_inj {ℓ} : {A : Type ℓ} (a b : A) → ◌≡◌ {A = Outcome A} (done a) (done b) → a ≡ b
done_inj a b e = cc

-- What Read gives: the bytes that it stored, and perhaps an error.
pub record ReadResult : Type 0 where
  pub bytes : Bytes
  pub error : Option Error

-- What Write gives: the count of bytes written, and perhaps an error.
pub record WriteResult : Type 0 where
  pub count : ℕ
  pub error : Option Error

-- The hooks of internal/metrics, less the latencies.
pub data Metric : Type 0 where
  connection_open connection_close : NetConn → Metric
  connection_error : Metric
  read_done read_error write_done write_error retried : NetConn → Metric
  processed upstream_latency round_trip : NetConn → NetConn → Metric
  request_size response_size : ℕ → NetConn → Metric
  proxy_error : Metric

pub data Event : Type 0 where
  clock_read : Time → Event
  drawn : ℕ → ℕ → Event
  dialed accepted : Outcome NetConn → Event
  closed : NetConn → Event
  closing : NetConn → Event
  read_from : NetConn → ℕ → ReadResult → Event
  wrote_to : NetConn → Bytes → WriteResult → Event
  destroying releasing : NetConn → Event
  emitted : Metric → Event

abbrev pub World : Type 0
World = List Event

-- The answers: time.Now, rand.Intn, the dialer, Close, Read of at most so many bytes, and Write.
pub record Env : Type 0 where
  pub clock : World → Time
  pub intn : World → ℕ → ℕ
  pub dial : World → Outcome NetConn
  pub accept : World → Outcome NetConn
  pub close : World → NetConn → Option Error
  pub read : World → NetConn → ℕ → ReadResult
  pub write : World → NetConn → Bytes → WriteResult

-- Code that runs in a world. It may panic.
abbrev pub M : Type 0 → Type 0
M A = World → Run (A × World)

abbrev pub pure : {A : Type 0} → A → M A
pure a w = ok (a, w)

infixl 5 ◌>>=◌ ◌>>◌
abbrev pub ◌>>=◌ : {A B : Type 0} → M A → (A → M B) → M B
◌>>=◌ m f w = run_bind (m w) λ r. f r.0 r.1

abbrev pub ◌>>◌ : {B : Type 0} → M (Unit {0}) → M B → M B
m >> k = m >>= λ _. k

abbrev pub lift : {A : Type 0} → Run A → M A
lift r w = run_bind r λ a. ok (a, w)

abbrev pub record_event : Event → M (Unit {0})
record_event e w = ok (tt, e ∷ w)

abbrev pub emit : Metric → M (Unit {0})
emit m = record_event (emitted m)

module _ (env : Env) where
  abbrev pub now : M Time
  now w = ok (env.clock w, clock_read (env.clock w) ∷ w)

  -- rand.Intn panics at 0.
  abbrev pub draw : ℕ → M ℕ
  draw n w = if n == 0 then panic else ok (env.intn w n, drawn n (env.intn w n) ∷ w)

  abbrev pub dial : M (Outcome NetConn)
  dial w = ok (env.dial w, dialed (env.dial w) ∷ w)

  abbrev pub accept : M (Outcome NetConn)
  accept w = ok (env.accept w, accepted (env.accept w) ∷ w)

  abbrev pub close_conn : NetConn → M (Option Error)
  close_conn c w = ok (env.close w c, closed c ∷ w)

  abbrev pub read_conn : NetConn → ℕ → M ReadResult
  read_conn c n w = ok (env.read w c n, read_from c n (env.read w c n) ∷ w)

  abbrev pub write_conn : NetConn → Bytes → M WriteResult
  write_conn c bs w = ok (env.write w c bs, wrote_to c bs (env.write w c bs) ∷ w)

-- `go conn.Close()`: the close is on its way.
abbrev pub go_close : NetConn → M (Unit {0})
go_close c = record_event (closing c)
