-- ===== src/Tests/Peers.antt =====
-- The environment of the tests: a clock that stands still, a dialer that gives the connection 7, and
-- peers that answer a request of three bytes with a response of two.
use dotproxy.Base.{◌<◌, Bool, true, false, [], ◌∷◌, none, arith, length, All, ◌==◌}
use dotproxy.Base.Int.{pos}
use dotproxy.Base.Time.{Time, of_unix}
use dotproxy.Network.World.{Bytes, Env, done}
use dotproxy.Network.Sharding.Availability.Select.{DrawsBelow}
use dotproxy.Protocol.DnsProxy.Transact.{ReadsBytes}

abbrev pub start_time : Time
start_time = of_unix (pos 1_000)

-- A request of three bytes is read at once; of a response, the header, then the body.
abbrev pub stored : Bool → Bytes
stored true = 9 ∷ 8 ∷ 7 ∷ []
stored false = 0 ∷ 2 ∷ []

abbrev pub peers : Env
peers = record {
  clock = λ w. start_time;
  intn = λ w n. 0;
  dial = λ w. done 7;
  accept = λ w. done 3;
  close = λ w c. none;
  read = λ w c n. record { bytes = stored (n == 1024); error = none };
  write = λ w c bs. record { count = length bs; error = none };
}

pub peers-DrawsBelow : DrawsBelow peers
peers-DrawsBelow w n p = p

pub peers-ReadsBytes : ReadsBytes peers
peers-ReadsBytes w c n = by_size (n == 1024)
  where
    by_size : (b : Bool) → All (λ k. k < 256) (stored b)
    by_size true = (omega arith, (omega arith, (omega arith, tt)))
    by_size false = (omega arith, (omega arith, tt))
