-- ===== src/Tests/Protocol.antt =====
-- A UDP request through one upstream client, on which the theorems of `Protocol` are run.
use dotproxy.Base.{◌<◌, ◌≡◌, [], ◌∷◌, some}
use dotproxy.Base.Int.{pos}
use dotproxy.Base.Run.{Returns}
use dotproxy.Network.World.{Bytes}
use dotproxy.Network.Client.{TlsClient, Client, tls_client}
use dotproxy.Network.Client.Counts.{tls_client-Keeps}
use dotproxy.Network.Pool.Ownership.{IsValid}
use dotproxy.Network.Server.{udp}
use dotproxy.Protocol.DnsProxy.{
  frame, unframe, get_uint16, upstream_transact, proxy_upstream, handle,
}
use dotproxy.Protocol.DnsProxy.Framing.{unframe-frame}
use dotproxy.Protocol.DnsProxy.Transact.{Transacted, upstream_transact-Transacted}
use dotproxy.Protocol.DnsProxy.Upstream.{Proxied, proxy_upstream-Proxied}
use dotproxy.Protocol.DnsProxy.Handle.{Handled, handle-Handled}
use dotproxy.Protocol.DnsProxy.Written.{Wrote, handle-Wrote}
use dotproxy.Network.Silence.Clients.{tls_client-IsSilent}
use dotproxy.Protocol.DnsProxy.Ledger.{handle-Accounts}
use dotproxy.Network.Ledger.{Accounts}
use dotproxy.Network.Ledger.Tls.{HasPool, idle_of, tls_client-IsAccounted}
use dotproxy.Tests.Peers.{peers, peers-ReadsBytes}
use dotproxy.Tests.Pool.{one_client, one_conn-IsValid}

abbrev request : Bytes
request = 0 ∷ 3 ∷ 9 ∷ 8 ∷ 7 ∷ []

abbrev upstream : Client TlsClient
upstream = tls_client peers

unframe-frame_example :
    (unframe udp (frame udp (9 ∷ 8 ∷ 7 ∷ [])) ≡ some (9 ∷ 8 ∷ 7 ∷ []))
    × (3 < 65_536 → get_uint16 (frame udp (9 ∷ 8 ∷ 7 ∷ [])) ≡ some 3)
unframe-frame_example = unframe-frame udp (9 ∷ 8 ∷ 7 ∷ [])

upstream_transact-Transacted_example :
    Returns (Transacted peers 1 5 request []) (upstream_transact peers 1 5 request [])
upstream_transact-Transacted_example =
    upstream_transact-Transacted peers 1 5 request [] peers-ReadsBytes

proxy_upstream-Proxied_example :
    Returns
      (λ a. IsValid a.0.0.pool × Proxied upstream peers 1 request 2 one_client [] a)
      (proxy_upstream upstream peers 1 request 2 one_client [])
proxy_upstream-Proxied_example =
    proxy_upstream-Proxied upstream peers 1 request (λ c. IsValid c.pool) (tls_client-Keeps peers)
      peers-ReadsBytes 2 one_client [] one_conn-IsValid

handle-Handled_example :
    Returns
      (λ r. IsValid r.0.0.pool × Handled upstream peers 1 udp 16 one_client [] r)
      (handle upstream peers (pos 0) udp 1 one_client [])
handle-Handled_example =
    handle-Handled upstream peers 1 (λ c. IsValid c.pool) udp (pos 0) one_client []
      (tls_client-Keeps peers) peers-ReadsBytes one_conn-IsValid

handle-Accounts_example :
    Returns
      (λ r. HasPool r.0.0 × Accounts (5 ∷ []) (idle_of r.0.0) [] r.1)
      (handle upstream peers (pos 0) udp 1 one_client [])
handle-Accounts_example =
    handle-Accounts HasPool idle_of upstream peers 1 (tls_client-IsAccounted peers) udp (pos 0)
      one_client [] peers-ReadsBytes one_conn-IsValid

handle-Wrote_example :
    Returns
      (Wrote upstream peers 1 (tls_client-IsSilent peers) udp 16 (9 ∷ 8 ∷ 7 ∷ []) [])
      (handle upstream peers (pos 0) udp 1 one_client [])
handle-Wrote_example =
    handle-Wrote upstream peers 1 (tls_client-IsSilent peers) (λ c. IsValid c.pool) udp (pos 0)
      one_client [] (tls_client-Keeps peers) peers-ReadsBytes one_conn-IsValid
