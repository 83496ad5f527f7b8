-- ===== src/Protocol/DnsProxy/Service.antt =====
-- The servers over the DNS proxy, and the proxy over a sharded client of TLS clients.
use dotproxy.Base.{ℕ, refl, List, ◌∷◌, arith}
use dotproxy.Base.Int.{ℤ}
use dotproxy.Network.World.{NetConn, Env, emitted, proxy_error}
use dotproxy.Network.Client.{Client}
use dotproxy.Network.Ledger
use dotproxy.Network.Ledger.{Accounts}
use dotproxy.Network.Ledger.Sharded.{held_by, sharded_client-IsAccounted}
use dotproxy.Network.Server.System
use dotproxy.Network.Server.{ServerHandler}
use dotproxy.Network.Server.Running.Approximation.{IsBelow}
use dotproxy.Network.Ledger.Ended.{ended, ended-⊑, ended-IsAccounted, sharded_client-Soundly}
use dotproxy.Protocol.DnsProxy.Approximation.{handle-⊑}
use dotproxy.Network.Sharding.Policy.{ShardedClient, IsServing, IsReady, sharded_client}
use dotproxy.Network.Sharding.Availability.Select.{DrawsBelow}
use dotproxy.Protocol.DnsProxy.{dns_handler, consume_error}
use dotproxy.Protocol.DnsProxy.Transact.{ReadsBytes}
use dotproxy.Protocol.DnsProxy.Ledger.{handle-Accounts}

-- If a Read stores bytes, a DNS proxy over a client that accounts for its connections accounts for
-- them as a handler: it ends on every request, and touches none when it consumes an error.
pub dns_handler-IsAccounted :
    {C : Type 0} (V : C → Type 0) (held : C → List NetConn) (I : Client C) (env : Env) (retries : ℤ)
    → Ledger.IsAccounted V held I
    → ReadsBytes env
    → System.IsAccounted V held (dns_handler I env retries)
unfolding dns_handler consume_error
dns_handler-IsAccounted V held I env retries accounted bytes = record {
  handles = λ t conn c w v. handle-Accounts V held I env conn accounted t retries c w bytes v;
  consumes = λ e w. ((tt, emitted proxy_error ∷ w), refl, λ x. omega arith);
}

-- The proxy over a sharded client, with an error in place of a Conn that runs out of fuel.
module _ {C : Type 0} (V : C → Type 0) (held : C → List NetConn) (I : Client C)
    (accounted : Ledger.IsAccounted V held I) (env : Env) (fuel : ℕ) (retries : ℤ)
    (draws : DrawsBelow env) (bytes : ReadsBytes env) where
  abbrev pub ended_proxy : ServerHandler (ShardedClient C)
  ended_proxy = dns_handler (ended (sharded_client I env fuel)) env retries

  pub ended_proxy-IsAccounted : System.IsAccounted (IsReady I env V) (held_by V held) ended_proxy
  ended_proxy-IsAccounted =
      dns_handler-IsAccounted (IsReady I env V) (held_by V held) (ended (sharded_client I env fuel))
        env retries
        (ended-IsAccounted (IsReady I env V) (held_by V held) (sharded_client I env fuel)
          (sharded_client-Soundly V held I accounted env fuel draws))
        bytes

  pub ended_proxy-IsBelow :
      IsBelow (dns_handler (sharded_client I env fuel) env retries) ended_proxy
  unfolding dns_handler
  ended_proxy-IsBelow = record {
    handles = λ t conn c w.
        handle-⊑ (sharded_client I env fuel) (ended (sharded_client I env fuel)) env
          (ended-⊑ (sharded_client I env fuel)) conn retries t c w;
    consumes = refl;
  }

  -- Under a policy other than Availability no Conn runs out of fuel.
  pub sharded_proxy-IsAccounted :
      System.IsAccounted
        (IsServing I env V)
        (held_by V held)
        (dns_handler (sharded_client I env fuel) env retries)
  sharded_proxy-IsAccounted =
      dns_handler-IsAccounted (IsServing I env V) (held_by V held) (sharded_client I env fuel) env
        retries (sharded_client-IsAccounted V held I accounted env fuel draws) bytes
