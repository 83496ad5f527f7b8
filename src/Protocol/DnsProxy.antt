-- ===== src/Protocol/DnsProxy.antt =====
-- internal/protocol/dns_proxy.go. The upstream is any client: `I` with its state. A connection that
-- `go upstream.Destroy()` or `go upstream.Close()` gives back is marked in the trace; when those
-- goroutines run is the matter of Network.Pool.System and of Command.Wiring.Goroutines.
pub mod Framing
pub mod Transact
pub mod Upstream
pub mod Respond
pub mod Handle
pub mod Ledger
pub mod Asked
pub mod Written
pub mod Approximation
pub mod Service
use dotproxy.Base.{
  ℕ, zero, suc, ◌+◌, ◌*◌, ◌/◌, ◌%◌, ◌^◌, Bool, true, false, not, ◌||◌, List, [], ◌∷◌, ◌++◌, Option,
  none, some, length, ◌==◌, if◌then◌else◌,
}
use dotproxy.Base.Int.{ℤ, pos, negsuc}
use dotproxy.Base.Run.{Run, or_panic}
use dotproxy.Network.World.{
  NetConn, Bytes, Error, read_request, write_upstream, read_header, read_response, short_write,
  open_upstream, io, Outcome, done, fail, read_done, read_error, write_done, write_error, retried,
  processed, upstream_latency, round_trip, request_size, response_size, proxy_error, destroying,
  releasing, Env, M, pure, ◌>>=◌, ◌>>◌, lift, record_event, emit, read_conn, write_conn,
}
use dotproxy.Network.Pool.{PersistentConn}
use dotproxy.Network.Client.{Client}
use dotproxy.Network.Server.{Transport, tcp, udp, ServerHandler}

-- binary.BigEndian.PutUint16, of uint16(n)
abbrev pub put_uint16 : ℕ → Bytes
put_uint16 n = n % 2 ^ 16 / 256 ∷ n % 2 ^ 16 % 256 ∷ []

-- binary.BigEndian.Uint16, which panics on less than two bytes
abbrev pub get_uint16 : Bytes → Option ℕ
get_uint16 (a ∷ b ∷ rest) = some (256 * a + b)
get_uint16 (a ∷ []) = none
get_uint16 [] = none

abbrev pub is_error : Option Error → Bool
is_error none = false
is_error (some e) = true

-- The request with its size header, if it came in by UDP.
abbrev pub frame : Transport → Bytes → Bytes
frame tcp req = req
frame udp req = put_uint16 (length req) ++ req

-- `upstreamResp[2:]`, which panics on less than two bytes
abbrev pub from_third : Bytes → Option Bytes
from_third (a ∷ b ∷ rest) = some rest
from_third (a ∷ []) = none
from_third [] = none

abbrev pub unframe : Transport → Bytes → Option Bytes
unframe tcp resp = some resp
unframe udp resp = from_third resp

-- MaxUpstreamRetries, an int, or 16 when it is not positive
abbrev pub max_retries : ℤ → ℕ
max_retries (pos zero) = 16
max_retries (pos (suc n)) = suc n
max_retries (negsuc n) = 16

module _ (env : Env) where
  unfoldable pub client_read : NetConn → M (Outcome Bytes)
  client_read conn = read_conn env conn 1024 >>= λ r. elim r.error [
    | some e ↦ emit (read_error conn) >> pure (fail read_request)
    | none ↦ emit (read_done conn) >> pure (done r.bytes)
  ]

  -- The second Read: the rest of the response, after its header.
  unfoldable pub read_rest : NetConn → NetConn → Bytes → M (Outcome Bytes)
  read_rest client upstream header = do
    size ← lift (or_panic (get_uint16 header))
    r ← read_conn env upstream size
    if is_error r.error || not (length r.bytes == size)
        then emit (read_error upstream) >> pure (fail read_response)
        else emit (read_done upstream)
          >> emit (upstream_latency client upstream)
          >> pure (done (header ++ r.bytes))

  unfoldable pub read_upstream : NetConn → NetConn → M (Outcome Bytes)
  read_upstream client upstream = do
    r ← read_conn env upstream 2
    if is_error r.error || not (length r.bytes == 2)
        then emit (read_error upstream) >> pure (fail read_header)
        else read_rest client upstream r.bytes

  unfoldable pub upstream_transact : NetConn → NetConn → Bytes → M (Outcome Bytes)
  upstream_transact client upstream req = do
    r ← write_conn env upstream req
    if is_error r.error || not (r.count == length req)
        then emit (write_error upstream) >> pure (fail write_upstream)
        else emit (write_done upstream) >> read_upstream client upstream

  unfoldable pub client_write : NetConn → Bytes → M (Outcome (Unit {0}))
  client_write conn resp = write_conn env conn resp >>= λ r. elim r.error [
    | some e ↦ emit (write_error conn) >> pure (fail e)
    | none ↦
        if not (r.count == length resp)
        then emit (write_error conn) >> pure (fail short_write)
        else emit (write_done conn) >> pure (done tt)
  ]

  -- What Handle does with a response.
  unfoldable pub respond : Transport → NetConn → Bytes → Bytes → NetConn → M (Outcome (Unit {0}))
  respond transport client req resp upstream = do
    body ← lift (or_panic (unframe transport resp))
    sent ← client_write client body
    elim sent [
      | fail e ↦ pure (fail e)
      | done _ ↦
          emit (processed client upstream)
          >> emit (request_size (length req) client)
          >> emit (response_size (length body) upstream)
          >> emit (round_trip client upstream)
          >> pure (done tt)
    ]

module _ {C : Type 0} (I : Client C) (env : Env) where
  -- One attempt. When the transaction fails, `spent` goes on.
  unfoldable pub attempt :
      NetConn
      → Bytes
      → (NetConn → Error → C → M (C × Outcome (Bytes × PersistentConn)))
      → C
      → M (C × Outcome (Bytes × PersistentConn))
  attempt client req spent c = I.conn c >>= λ opened. elim opened.1 [
    | fail e ↦ pure (opened.0, fail (open_upstream e))
    | done upstream ↦ upstream_transact env client upstream.conn req >>= λ resp. elim resp [
      | done bytes ↦
          record_event (releasing upstream.conn) >> pure (opened.0, done (bytes, upstream))
      | fail e ↦ record_event (destroying upstream.conn) >> spent upstream.conn e opened.0
    ]
  ]

  unfoldable pub proxy_upstream : NetConn → Bytes → ℕ → C → M (C × Outcome (Bytes × PersistentConn))
  proxy_upstream client req zero = attempt client req (λ upstream e c. pure (c, fail e))
  proxy_upstream client req (suc n) =
      attempt client req (λ upstream e c. emit (retried upstream) >> proxy_upstream client req n c)

  unfoldable pub handle : ℤ → Transport → NetConn → C → M (C × Outcome (Unit {0}))
  handle retries transport client c = client_read env client >>= λ read. elim read [
    | fail e ↦ pure (c, fail e)
    | done bytes ↦
        let req = frame transport bytes in
        proxy_upstream client req (max_retries retries) c >>= λ r. elim r.1 [
          | fail e ↦ pure (r.0, fail e)
          | done (resp, upstream) ↦
              respond env transport client req resp upstream.conn >>= λ sent. pure (r.0, sent)
        ]
  ]

-- ConsumeError counts the error; the log and the error reporter are not modelled.
unfoldable pub consume_error : Error → M (Unit {0})
consume_error e = emit proxy_error

-- DNSProxyHandler as a ServerHandler, with its upstream client and MaxUpstreamRetries.
unfoldable pub dns_handler : {C : Type 0} → Client C → Env → ℤ → ServerHandler C
dns_handler I env retries = record {
  handle = λ transport client c. handle I env retries transport client c;
  consume_error = consume_error;
}
