-- ===== src/Meta/Config/Validation/Upstream.antt =====
-- internal/meta/config.go: the block of the upstream and its servers.
use Prim.Native.String.{String}
use mathlib.Core.Logic.{◌↔◌}
use dotproxy.Base.{
  ℕ, suc, ◌≡◌, ◌≢◌, refl, ◌⊎◌, inl, inr, Bool, true, false, ◌&&◌, List, [], ◌∷◌, Option, none, some,
  All, not, subst, sym, some_inj,
}
use dotproxy.Meta.Config.{
  Text, UpstreamServer, UpstreamConfig, ConfigError, is_empty, unless, servers_error,
  upstream_error, is_none_given,
}
use dotproxy.Meta.Config.Validation.{is_empty_iff, unless_iff, nothing, IsUpstream}

servers_iff :
    (i : ℕ) (servers : List UpstreamServer)
    → (servers_error i servers ≡ none) ↔ All (λ s. (s.address ≢ "") × (s.server_name ≢ "")) servers
servers_iff i [] = (λ h. tt, λ h. refl)
servers_iff i (s ∷ rest) =
    let first = unless_iff (is_empty s.address) (ConfigError.missing_server_address i) (
      unless (is_empty s.server_name) (ConfigError.missing_server_name i)
        (servers_error (suc i) rest)) in
    let second =
      unless_iff (is_empty s.server_name) (ConfigError.missing_server_name i)
        (servers_error (suc i) rest) in
    let others = servers_iff (suc i) rest in
    (
      λ h.
          let h' = second.0 ((first.0 h).1) in
          (
            ((is_empty_iff s.address).0 ((first.0 h).0), (is_empty_iff s.server_name).0 h'.0),
            others.0 h'.1,
          ),
      λ h. first.1 (
        (is_empty_iff s.address).1 h.0.0,
        second.1 ((is_empty_iff s.server_name).1 h.0.1, others.1 h.1),
      ),
    )

abbrev IsServed : (Text → Bool) → UpstreamConfig → Type 0
IsServed is_policy u =
    ((u.load_balancing_policy ≡ "") ⊎ (is_policy u.load_balancing_policy ≡ true))
    × (u.servers ≢ [])
    × All (λ s. (s.address ≢ "") × (s.server_name ≢ "")) u.servers

policy_iff :
    (known : Bool) (text : Text)
    → ((not (is_empty text) && not known) ≡ false) ↔ ((text ≡ "") ⊎ (known ≡ true))
policy_iff known String.[] = (λ e. inl refl, λ h. refl)
policy_iff true (String.◌∷◌ c text) = (λ e. inr refl, λ h. refl)
policy_iff false (String.◌∷◌ c text) =
    (λ e. absurd (cc), λ h. elim h [ inl p ↦ absurd (cc) | inr q ↦ absurd (cc) ])

none_given_iff : (servers : List UpstreamServer) → (is_none_given servers ≡ false) ↔ (servers ≢ [])
none_given_iff [] = (λ e. absurd (cc), λ h. absurd (h refl))
none_given_iff (s ∷ rest) = (λ e p. absurd (cc), λ h. refl)

pub IsUpstream-iff :
    (is_policy : Text → Bool) (upstream : Option UpstreamConfig)
    → (upstream_error is_policy upstream ≡ none) ↔ IsUpstream is_policy upstream
IsUpstream-iff is_policy none = (λ e. absurd (cc), λ h. absurd (nothing h.0 h.1))
IsUpstream-iff is_policy (some u) =
    let policy = policy_iff (is_policy u.load_balancing_policy) u.load_balancing_policy in
    let servers = servers_iff 0 u.servers in
    let given =
      unless_iff (is_none_given u.servers) ConfigError.no_servers (servers_error 0 u.servers) in
    let all_three =
      unless_iff (not (is_empty u.load_balancing_policy) && not (is_policy u.load_balancing_policy))
        ConfigError.unknown_policy
        (unless (is_none_given u.servers) ConfigError.no_servers (servers_error 0 u.servers)) in
    (
      λ e.
          let rest = given.0 ((all_three.0 e).1) in
          (
            u,
            refl,
            policy.0 ((all_three.0 e).0),
            (none_given_iff u.servers).0 rest.0,
            servers.0 rest.1,
          ),
      λ h.
          let parts = subst (IsServed is_policy) (sym (some_inj u h.0 h.1)) (h.2, h.3, h.4) in
          all_three.1
            (policy.1 parts.0, given.1 ((none_given_iff u.servers).1 parts.1, servers.1 parts.2)),
    )
