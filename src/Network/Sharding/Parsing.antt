-- ===== src/Network/Sharding/Parsing.antt =====
-- internal/network/sharding.go: ParseLoadBalancingPolicy. The names of the policies stand in a generated
-- file, so the text of a policy is a parameter, like strings.ToLower.
use Prim.Native.String.{String}
use dotproxy.Base.{◌≡◌, ◌≢◌, Bool, true, List, [], ◌∷◌, ◌<◌, ◌++◌, inl, inr, All, length, arith}
use dotproxy.Base.Int.{ℤ, pos}
use dotproxy.Base.Names.{find_named}
use dotproxy.Network.World.{Env, done}
use dotproxy.Network.Client.{Client}
use dotproxy.Network.Sharding.Constants
use dotproxy.Network.Sharding.Constants.{LoadBalancingPolicy}
use dotproxy.Network.Sharding.Policy.{
  ShardedClient, new_sharded_client, new_sharded_client-IsServing, clients_of, IsKnown, IsServing,
}
use dotproxy.Base.Names.{Found, named, unnamed, find_named-Found}

abbrev pub known_policies : List LoadBalancingPolicy
known_policies =
    pos Constants.round_robin
    ∷ pos Constants.random
    ∷ pos Constants.historical_connections
    ∷ pos Constants.availability
    ∷ pos Constants.failover
    ∷ []

unfoldable pub parse_load_balancing_policy :
    (String → String) → (LoadBalancingPolicy → String) → String → LoadBalancingPolicy × Bool
parse_load_balancing_policy to_lower name =
    find_named to_lower name known_policies (pos Constants.round_robin)

module _ (to_lower : String → String) (name : ℤ → String) where
  -- ParseLoadBalancingPolicy gives the first of the five policies, in the order of their constants, that
  -- the text names when the case of letters is left aside, or RoundRobin with false when it names none.
  pub parse_load_balancing_policy-Found :
      (text : String)
      → Found to_lower name
          (pos 0)
          text
          known_policies
          (parse_load_balancing_policy to_lower name text)
  unfolding parse_load_balancing_policy
  parse_load_balancing_policy-Found text =
      find_named-Found to_lower name (pos 0) text known_policies

  from_IsKnown :
      (policies : List ℤ) (r : ℤ × Bool) (text : String)
      → All IsKnown policies
      → Found to_lower name (pos 0) text policies r
      → IsKnown r.0
  from_IsKnown _ _ text all (named [] after a others same) = all.0
  from_IsKnown _ _ text all (named (b ∷ before) after a others same) =
      from_IsKnown (before ++ a ∷ after) (a, true) text all.1 (named before after a others.1 same)
  from_IsKnown _ _ text all (unnamed known others) = omega arith

  -- Whatever the text, NewShardedClient with the policy that is parsed makes a client over all the given
  -- clients, ready to serve unless the policy is Availability: its error is not possible after the parser.
  pub parsed_policy-IsServing :
      {C : Type 0} (I : Client C) (env : Env) (V : C → Type 0) (clients : List C) (text : String)
      → All V clients
      → 0 < length clients
      → let policy = (parse_load_balancing_policy to_lower name text).0 in
        (s : ShardedClient C) × (new_sharded_client clients policy ≡ done s)
        × (clients_of s ≡ clients)
        × (policy ≢ pos 3 → IsServing I env V s)
  parsed_policy-IsServing I env V clients text valid p =
      let policy = (parse_load_balancing_policy to_lower name text).0 in
      let known =
        from_IsKnown known_policies (parse_load_balancing_policy to_lower name text) text
          (omega arith, (omega arith, (omega arith, (omega arith, (omega arith, tt)))))
          (parse_load_balancing_policy-Found text) in
      elim (new_sharded_client-IsServing I env V clients policy valid p) [
        | inl (never, _) ↦ absurd (never known)
        | inr (_, made) ↦ made
      ]
