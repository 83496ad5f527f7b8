-- ===== src/Metrics/Events.antt =====
-- internal/metrics/hook.go: the reports of the connection hooks, and how they are told apart.
use Prim.Native.String.{String, ◌++◌}
use text.Mathlib.Text.{◌==◌}
use text.Mathlib.TextLemmas.{append_cancel_left}
use dotproxy.Base.{
  ◌≡◌, refl, sym, ap, ◌∙◌, List, [], ◌∷◌, Option, none, some, some_inj, if◌then◌else◌, Bool-cases,
  inl, inr,
}
use dotproxy.Base.Int.{pos, ltb_ℤ}
use dotproxy.Base.Time.{Duration}
use dotproxy.Network.World.{Bytes}
use dotproxy.Metrics.{
  NetAddr, count, timing, size, gauge, Report, AsyncStatsdHook, async_lifecycle_hook, async_io_hook,
}

-- The methods of the two hooks of a connection.
pub data ConnectionEvent : Type 0 where
  opened closed failed read_done read_failed write_done write_failed retried : ConnectionEvent

abbrev pub suffix : ConnectionEvent → String
suffix opened = ".cx_open"
suffix closed = ".cx_close"
suffix failed = ".cx_error"
suffix read_done = ".cx_read"
suffix read_failed = ".cx_read_error"
suffix write_done = ".cx_write"
suffix write_failed = ".cx_write_error"
suffix retried = ".cx_io_retry"

-- The event of a suffix: a table read from top to bottom.
abbrev event_in : List ConnectionEvent → String → Option ConnectionEvent
event_in [] text = none
event_in (e ∷ es) text = if text == suffix e then some e else event_in es text

abbrev every_event : List ConnectionEvent
every_event =
    opened ∷ closed ∷ failed ∷ read_done ∷ read_failed ∷ write_done ∷ write_failed ∷ retried ∷ []

event_in-suffix : (e : ConnectionEvent) → event_in every_event (suffix e) ≡ some e
event_in-suffix opened = refl
event_in-suffix closed = refl
event_in-suffix failed = refl
event_in-suffix read_done = refl
event_in-suffix read_failed = refl
event_in-suffix write_done = refl
event_in-suffix write_failed = refl
event_in-suffix retried = refl

suffix_inj : (e e' : ConnectionEvent) → suffix e ≡ suffix e' → e ≡ e'
suffix_inj e e' same =
    some_inj e e' (sym (event_in-suffix e) ∙ ap (event_in every_event) same ∙ event_in-suffix e')

-- What a hook with a statsd client reports of an event.
unfoldable pub event_report :
    {C : Type 0}
    → (Bytes → String)
    → AsyncStatsdHook C
    → Duration
    → NetAddr
    → ConnectionEvent
    → Report C
event_report ip h latency addr opened =
    (async_lifecycle_hook ip h).emit_connection_open latency addr
event_report ip h latency addr closed = (async_lifecycle_hook ip h).emit_connection_close addr
event_report ip h latency addr failed = (async_lifecycle_hook ip h).emit_connection_error
event_report ip h latency addr read_done = (async_io_hook ip h).emit_read latency addr
event_report ip h latency addr read_failed = (async_io_hook ip h).emit_read_error addr
event_report ip h latency addr write_done = (async_io_hook ip h).emit_write latency addr
event_report ip h latency addr write_failed = (async_io_hook ip h).emit_write_error addr
event_report ip h latency addr retried = (async_io_hook ip h).emit_retry addr

-- The counters that a report counts.
abbrev pub counted : {C : Type 0} → Report C → List String
counted [] = []
counted ((client, count name n tags) ∷ rest) = name ∷ counted rest
counted ((client, timing name latency tags) ∷ rest) = counted rest
counted ((client, size name n tags) ∷ rest) = counted rest
counted ((client, gauge name n tags) ∷ rest) = counted rest

module _ {C : Type 0} (ip_text : Bytes → String) (h : AsyncStatsdHook C) where
  report_counts :
      (latency : Duration) (addr : NetAddr) (e : ConnectionEvent)
      → counted (event_report ip_text h latency addr e) ≡ ("event." ++ h.source ++ suffix e) ∷ []
  unfolding event_report async_lifecycle_hook async_io_hook
  report_counts latency addr opened = elim (Bool-cases (ltb_ℤ (pos 0) latency)) [
    | inl e ↦ rw e refl
    | inr e ↦ rw e refl
  ]
  report_counts latency addr closed = refl
  report_counts latency addr failed = refl
  report_counts latency addr read_done = refl
  report_counts latency addr read_failed = refl
  report_counts latency addr write_done = refl
  report_counts latency addr write_failed = refl
  report_counts latency addr retried = refl

  one_name : (s t : String) → ◌≡◌ {A = List String} (s ∷ []) (t ∷ []) → s ≡ t
  one_name s t e = cc

  -- A hook counts each event of a connection exactly once, and two events that it counts under one
  -- name, whatever their latencies and addresses, are the same event.
  pub events_told_apart :
      (latency latency' : Duration) (addr addr' : NetAddr) (e e' : ConnectionEvent)
      → counted (event_report ip_text h latency addr e)
        ≡ counted (event_report ip_text h latency' addr' e')
      → (e ≡ e') × ((name : String) × (counted (event_report ip_text h latency addr e) ≡ name ∷ []))
  events_told_apart latency latency' addr addr' e e' same =
      let here = report_counts latency addr e in
      let there = report_counts latency' addr' e' in
      let names = one_name _ _ (sym here ∙ same ∙ there) in
      let source =
        append_cancel_left "event." (h.source ++ suffix e) (h.source ++ suffix e') names in
      (suffix_inj e e' (append_cancel_left h.source (suffix e) (suffix e') source), (_, here))
