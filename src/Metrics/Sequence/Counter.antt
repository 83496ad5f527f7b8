-- ===== src/Metrics/Sequence/Counter.antt =====
-- internal/metrics/hook.go: the counter of EmitProcess, under any order of its goroutines' turns.
use Prim.Native.String.{String}
use dotproxy.Base.{
  All-append, ℕ, suc, ◌+◌, ◌%◌, ◌^◌, ◌<◌, ◌≡◌, refl, sym, subst, ap, List, ◌∷◌, ◌++◌, ◌∙◌, arith,
  All, All-imp, length,
}
use dotproxy.Network.World.{Bytes}
use dotproxy.Metrics.{NetAddr, Tags, StatsdCall, count, timing, size, gauge}
use dotproxy.Metrics.Sequence.{
  Stage, to_count, to_load, to_gauge, to_add, ended, ProcessHook, new_process_hook, advance,
  emit_process, turn, Steps, has_counted, has_gauged, has_added, tally, is_count, is_gauge, number,
  HasRead, HasReported, Inv,
}
use dotproxy.Metrics.Sequence.Tally.{
  tally-replace, length-replace, All-replace, All-at, tally-lt, number-append,
}

-- Fewer than `n` are fewer than one more.
HasRead-later : (n : ℕ) (g : Tags × Stage) → HasRead n g → HasRead (suc n) g
HasRead-later n (tags, to_count) r = tt
HasRead-later n (tags, to_load) r = tt
HasRead-later n (tags, to_gauge k) (j, lt, e) = (j, omega (arith, lt), e)
HasRead-later n (tags, to_add) r = tt
HasRead-later n (tags, ended) r = tt

HasReported-later : (n : ℕ) (c : StatsdCall) → HasReported n c → HasReported (suc n) c
HasReported-later n (count name k tags) r = tt
HasReported-later n (timing name latency tags) r = tt
HasReported-later n (size name k tags) r = tt
HasReported-later n (gauge name value tags) (k, e, (j, lt, e')) = (k, e, (j, omega (arith, lt), e'))

emit_process-Inv :
    (ip_text : Bytes → String) (client upstream : NetAddr) (h : ProcessHook)
    → Inv h
    → Inv (emit_process ip_text client upstream h)
unfolding emit_process
emit_process-Inv ip_text client upstream h inv = record {
  counter = omega (arith, inv.counter);
  counts = omega (arith, inv.counts);
  gauges = omega (arith, inv.gauges);
  reads = (tt, All-imp _ _ (HasRead-later (length h.running)) h.running inv.reads);
  reports = All-imp _ _ (HasReported-later (length h.running)) h.calls inv.reports;
}

-- The calls of a turn are those by which the goroutine gets ahead.
advance-counts :
    (tags : Tags) (s : Stage) (n : ℕ)
    → number is_count (advance tags s n).2 + has_counted s ≡ has_counted (advance tags s n).0
unfolding advance
advance-counts tags to_count n = omega arith
advance-counts tags to_load n = omega arith
advance-counts tags (to_gauge k) n = omega arith
advance-counts tags to_add n = omega arith
advance-counts tags ended n = omega arith

advance-gauges :
    (tags : Tags) (s : Stage) (n : ℕ)
    → number is_gauge (advance tags s n).2 + has_gauged s ≡ has_gauged (advance tags s n).0
unfolding advance
advance-gauges tags to_count n = omega arith
advance-gauges tags to_load n = omega arith
advance-gauges tags (to_gauge k) n = omega arith
advance-gauges tags to_add n = omega arith
advance-gauges tags ended n = omega arith

-- `t` and `t'` are the tallies of the ended before and after the turn.
advance-counter :
    (tags : Tags) (s : Stage) (n t t' : ℕ)
    → n ≡ t % 2 ^ 64
    → t' + has_added s ≡ t + has_added (advance tags s n).0
    → (advance tags s n).1 ≡ t' % 2 ^ 64
unfolding advance
advance-counter tags to_count n t t' e d = omega (arith, e, d)
advance-counter tags to_load n t t' e d = omega (arith, e, d)
advance-counter tags (to_gauge k) n t t' e d = omega (arith, e, d)
advance-counter tags to_add n t t' e d = omega (arith, e, d)
advance-counter tags ended n t t' e d = omega (arith, e, d)

advance-HasRead :
    (tags : Tags) (s : Stage) (n t m : ℕ)
    → n ≡ t % 2 ^ 64
    → (has_added s ≡ 0 → t < m)
    → HasRead m (tags, (advance tags s n).0)
unfolding advance
advance-HasRead tags to_count n t m e lt = tt
advance-HasRead tags to_load n t m e lt = (t, lt refl, e)
advance-HasRead tags (to_gauge k) n t m e lt = tt
advance-HasRead tags to_add n t m e lt = tt
advance-HasRead tags ended n t m e lt = tt

advance-HasReported :
    (tags : Tags) (s : Stage) (n m : ℕ)
    → HasRead m (tags, s)
    → All (HasReported m) (advance tags s n).2
unfolding advance
advance-HasReported tags to_count n m r = (tt, tt)
advance-HasReported tags to_load n m r = tt
advance-HasReported tags (to_gauge k) n m r = ((k, refl, r), tt)
advance-HasReported tags to_add n m r = tt
advance-HasReported tags ended n m r = tt

turn-Inv :
    (before after : List (Tags × Stage)) (g : Tags × Stage) (h : ProcessHook)
    → h.running ≡ before ++ g ∷ after
    → Inv h
    → Inv (turn before g after h)
unfolding turn
turn-Inv before after g h e inv =
    let n = h.sequence_id in
    let s = g.1 in
    let next = advance g.0 s n in
    let g' : Tags × Stage = (g.0, next.0) in
    let rest = tally-replace has_added before after g g' in
    let size = ap length e in
    let same = length-replace before after g g' in
    let ended_now = ap (tally has_added) e in
    let len = sym (same ∙ sym size) in
    record {
      counter =
          advance-counter g.0 s n (tally has_added h.running)
            (tally has_added (before ++ g' ∷ after)) inv.counter (omega (arith, rest, ended_now));
      counts = omega (
        arith,
        inv.counts,
        number-append is_count next.2 h.calls,
        advance-counts g.0 s n,
        tally-replace has_counted before after g g',
        ap (tally has_counted) e,
      );
      gauges = omega (
        arith,
        inv.gauges,
        number-append is_gauge next.2 h.calls,
        advance-gauges g.0 s n,
        tally-replace has_gauged before after g g',
        ap (tally has_gauged) e,
      );
      reads =
          subst (λ m. All (HasRead m) (before ++ g' ∷ after)) len
            (All-replace (HasRead (length h.running)) before after g g'
              (subst (All (HasRead (length h.running))) e inv.reads)
              (advance-HasRead g.0 s n (tally has_added h.running) (length h.running) inv.counter
                (λ not_yet. omega (arith, ended_now, size, tally-lt before after g not_yet))));
      reports =
          subst (λ m. All (HasReported m) (next.2 ++ h.calls)) len
            (All-append (HasReported (length h.running)) next.2 h.calls
              (advance-HasReported g.0 s n (length h.running) (
                All-at (HasRead (length h.running)) before after g
                  (subst (All (HasRead (length h.running))) e inv.reads)))
              inv.reports);
    }

-- However the goroutines of EmitProcess take turns, the counter is the number of those that have ended,
-- by the 64 bits of an int64; the hook has reported one count for each that is past its count and one
-- gauge for each that is past its gauge; and each gauge shows a number below the number of emissions.
pub Steps-Inv :
    (ip_text : Bytes → String) (h : ProcessHook) → Steps ip_text new_process_hook h → Inv h
Steps-Inv ip_text _ Steps.none_yet = record {
  counter = refl;
  counts = refl;
  gauges = refl;
  reads = tt;
  reports = tt;
}
Steps-Inv ip_text _ (Steps.emits {k} client upstream steps) =
    emit_process-Inv ip_text client upstream k (Steps-Inv ip_text k steps)
Steps-Inv ip_text _ (Steps.takes_turn {k} before after g steps e) =
    turn-Inv before after g k e (Steps-Inv ip_text k steps)
