-- ===== src/Meta/Config/Validation/Whole.antt =====
-- internal/meta/config.go: the block of the metrics, and the whole configuration.
use mathlib.Core.Logic.{◌↔◌}
use dotproxy.Base.{
  ◌≡◌, ◌≢◌, refl, Bool, true, false, ◌||◌, Option, none, some, subst, some_inj, ap, ◌∙◌,
}
use dotproxy.Meta.Config.{
  Text, Statsd, MetricsConfig, Config, ConfigError, is_empty, unless, metrics_error, listener_error,
  upstream_error, or_else, validate,
}
use dotproxy.Meta.Config.Validation.{
  is_empty_iff, unless_iff, or_else_iff, IsMetrics, IsListener, IsUpstream,
}
use dotproxy.Meta.Config.Validation.Listener.{IsListener-iff}
use dotproxy.Meta.Config.Validation.Upstream.{IsUpstream-iff}

or_false : {a b : Bool} → ((a || b) ≡ false) ↔ (a ≡ false) × (b ≡ false)
or_false {a = true} {b} = (λ e. absurd (cc), λ h. absurd (cc))
or_false {a = false} {b} = (λ e. (refl, e), λ h. h.1)

module _ {F : Type 0} (below_0 above_1 : F → Bool) where
  abbrev IsStatsd : Statsd F → Type 0
  IsStatsd s = (s.address ≢ "") × (below_0 s.sample_rate ≡ false) × (above_1 s.sample_rate ≡ false)

  statsd_iff :
      (o : Option (Statsd F))
      → (metrics_error below_0 above_1 (some (record { statsd = o })) ≡ none)
        ↔ ((s : Statsd F) → o ≡ some s → IsStatsd s)
  statsd_iff none = (λ e s same. absurd (cc), λ h. refl)
  statsd_iff (some s) =
      let rate =
        unless_iff (below_0 s.sample_rate || above_1 s.sample_rate) ConfigError.sample_rate_range
          none in
      let both = unless_iff (is_empty s.address) ConfigError.missing_statsd_address (
        unless (below_0 s.sample_rate || above_1 s.sample_rate) ConfigError.sample_rate_range
          none) in
      (
        λ e t same.
            let in_range = or_false.0 ((rate.0 ((both.0 e).1)).0) in
            subst IsStatsd (some_inj s t same)
              ((is_empty_iff s.address).0 ((both.0 e).0), in_range.0, in_range.1),
        λ h.
            let (address, low, high) = h s refl in
            both.1 ((is_empty_iff s.address).1 address, rate.1 (or_false.1 (low, high), refl)),
      )

  IsMetrics-iff :
      (metrics : Option (MetricsConfig F))
      → (metrics_error below_0 above_1 metrics ≡ none) ↔ IsMetrics below_0 above_1 metrics
  IsMetrics-iff none = (λ e m s same. absurd (cc), λ h. refl)
  IsMetrics-iff (some m) =
      let parts = statsd_iff m.statsd in
      (
        λ e n s same given.
            parts.0 e s (ap (λ (k : MetricsConfig F). k.statsd) (some_inj m n same) ∙ given),
        λ h. parts.1 (λ s given. h m s refl given),
      )

  -- A configuration is accepted exactly if its statsd, where there is one, has an address and a sample
  -- rate within 0 and 1; it has a listener by TCP or by UDP, each with an address; and it has upstream
  -- servers, each with an address and a name, under a known policy or none.
  pub validate_iff :
      (is_policy : Text → Bool) (c : Config F)
      → (validate below_0 above_1 is_policy c ≡ none)
        ↔ IsMetrics below_0 above_1 c.metrics
          × IsListener c.listener
          × IsUpstream is_policy c.upstream
  unfolding validate
  validate_iff is_policy c =
      let metrics = IsMetrics-iff c.metrics in
      let listener = IsListener-iff c.listener in
      let upstream = IsUpstream-iff is_policy c.upstream in
      let rest = or_else_iff (listener_error c.listener) (upstream_error is_policy c.upstream) in
      let all_blocks =
        or_else_iff (metrics_error below_0 above_1 c.metrics)
          (or_else (listener_error c.listener) (upstream_error is_policy c.upstream)) in
      (
        λ e.
            let (m, others) = all_blocks.0 e in
            let (l, u) = rest.0 others in (metrics.0 m, listener.0 l, upstream.0 u),
        λ h. all_blocks.1 (metrics.1 h.0, rest.1 (listener.1 h.1, upstream.1 h.2)),
      )
