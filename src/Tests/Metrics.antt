-- ===== src/Tests/Metrics.antt =====
-- Hooks with a statsd client that is a number, on which the theorems of `Metrics` are run.
use Prim.Native.String.{String}
use dotproxy.Base.{ℕ, ◌≡◌, List, [], ◌∷◌, refl}
use dotproxy.Network.World.{Bytes}
use dotproxy.Metrics.{NetAddr, udp_addr, tcp_addr, AsyncStatsdHook}
use dotproxy.Metrics.Sequence.{
  ProcessHook, to_count, new_process_hook, emit_process, turn, Steps, Inv, int64_of,
}
use dotproxy.Metrics.Sequence.Counter.{Steps-Inv}
use dotproxy.Metrics.Sequence.Order.{gauged, two_emissions_one_id}

abbrev ip_text : Bytes → String
ip_text ip = "127.0.0.1"

abbrev hook : AsyncStatsdHook ℕ
hook = record { client = 1; source = "upstream" }

abbrev client : NetAddr
client = udp_addr (127 ∷ 0 ∷ 0 ∷ 1 ∷ [])

abbrev server : NetAddr
server = tcp_addr (127 ∷ 0 ∷ 0 ∷ 1 ∷ [])

-- One emission, whose goroutine has had its first turn.
abbrev emitted_once : ProcessHook
emitted_once = emit_process ip_text client server new_process_hook

abbrev tags : List (String × String)
tags = ("client", "127.0.0.1") ∷ ("upstream", "127.0.0.1") ∷ []

abbrev counted_once : ProcessHook
counted_once = turn [] (tags, to_count) [] emitted_once

counted_once-Steps : Steps ip_text new_process_hook counted_once
unfolding emit_process
counted_once-Steps =
    Steps.takes_turn [] [] (tags, to_count) (Steps.emits client server Steps.none_yet) refl

Steps-Inv_example : Inv counted_once
Steps-Inv_example = Steps-Inv ip_text counted_once counted_once-Steps

abbrev two_requests : List (NetAddr × NetAddr)
two_requests = (client, server) ∷ (client, server) ∷ []

two_emissions_one_id_example :
    (k : ProcessHook) × Steps ip_text counted_once k
    × (gauged k.calls
        ≡ int64_of counted_once.sequence_id
          ∷ int64_of counted_once.sequence_id
          ∷ gauged counted_once.calls)
two_emissions_one_id_example = two_emissions_one_id ip_text client server client server counted_once
