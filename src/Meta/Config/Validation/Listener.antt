-- ===== src/Meta/Config/Validation/Listener.antt =====
-- internal/meta/config.go: the block of the listeners.
use mathlib.Core.Logic.{◌↔◌}
use dotproxy.Base.{
  ◌≡◌, ◌≢◌, refl, ◌⊎◌, inl, inr, false, ◌&&◌, Option, none, some, subst, sym, some_inj,
}
use dotproxy.Meta.Config.{
  TcpListener, UdpListener, ListenerConfig, ConfigError, unless, tcp_bad, udp_bad, is_nil,
  listener_error,
}
use dotproxy.Meta.Config.Validation.{unless_iff, given_iff, nothing, IsListener}

tcp_iff :
    (t : Option TcpListener)
    → (tcp_bad t ≡ false) ↔ ((l : TcpListener) → t ≡ some l → l.address ≢ "")
tcp_iff none = (λ e l same. absurd (cc), λ h. refl)
tcp_iff (some t) = given_iff (λ (l : TcpListener). l.address) t

udp_iff :
    (u : Option UdpListener)
    → (udp_bad u ≡ false) ↔ ((l : UdpListener) → u ≡ some l → l.address ≢ "")
udp_iff none = (λ e l same. absurd (cc), λ h. refl)
udp_iff (some u) = given_iff (λ (l : UdpListener). l.address) u

some_listener_iff :
    {A B : Type 0} (t : Option A) (u : Option B)
    → ((is_nil t && is_nil u) ≡ false) ↔ ((t ≢ none) ⊎ (u ≢ none))
some_listener_iff none none =
    (λ e. absurd (cc), λ h. elim h [ inl p ↦ absurd (p refl) | inr q ↦ absurd (q refl) ])
some_listener_iff none (some u) = (λ e. inr (λ q. absurd (cc)), λ h. refl)
some_listener_iff (some t) u = (λ e. inl (λ q. absurd (cc)), λ h. refl)

abbrev Parts : ListenerConfig → Type 0
Parts l =
    ((l.tcp ≢ none) ⊎ (l.udp ≢ none))
    × ((t : TcpListener) → l.tcp ≡ some t → t.address ≢ "")
    × ((u : UdpListener) → l.udp ≡ some u → u.address ≢ "")

pub IsListener-iff :
    (listener : Option ListenerConfig) → (listener_error listener ≡ none) ↔ IsListener listener
IsListener-iff none = (λ e. absurd (cc), λ h. absurd (nothing h.0 h.1))
IsListener-iff (some l) =
    let some_one = some_listener_iff l.tcp l.udp in
    let udp_only = unless_iff (udp_bad l.udp) ConfigError.missing_udp_address none in
    let tcp_then =
      unless_iff (tcp_bad l.tcp) ConfigError.missing_tcp_address
        (unless (udp_bad l.udp) ConfigError.missing_udp_address none) in
    let all_three = unless_iff (is_nil l.tcp && is_nil l.udp) ConfigError.no_listener (
      unless (tcp_bad l.tcp) ConfigError.missing_tcp_address
        (unless (udp_bad l.udp) ConfigError.missing_udp_address none)) in
    (
      λ e.
          let rest = tcp_then.0 ((all_three.0 e).1) in
          (
            l,
            refl,
            some_one.0 ((all_three.0 e).0),
            (tcp_iff l.tcp).0 rest.0,
            (udp_iff l.udp).0 ((udp_only.0 rest.1).0),
          ),
      λ h.
          let same = some_inj l h.0 h.1 in
          let parts = subst Parts (sym same) (h.2, h.3, h.4) in
          all_three.1 (
            some_one.1 parts.0,
            tcp_then.1 ((tcp_iff l.tcp).1 parts.1, udp_only.1 ((udp_iff l.udp).1 parts.2, refl)),
          ),
    )
