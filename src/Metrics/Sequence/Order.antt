-- ===== src/Metrics/Sequence/Order.antt =====
-- internal/metrics/hook.go: the numbers that EmitProcess reports, one emission after another and with
-- two of them at once.
use Prim.Native.String.{String}
use dotproxy.Base.{
  ℕ, zero, suc, ◌+◌, ◌%◌, ◌^◌, ◌<◌, ◌≤◌, ◌≡◌, refl, ◌∙◌, ap, List, [], ◌∷◌, arith, length, ap₂,
}
use dotproxy.Base.Int.{ℤ, pos}
use dotproxy.Network.World.{Bytes}
use dotproxy.Metrics.{NetAddr, Tags, StatsdCall, count, timing, size, gauge, ip_from_addr}
use dotproxy.Metrics.Sequence.{
  Stage, to_count, to_load, to_gauge, to_add, int64_of, ProcessHook, new_process_hook, advance,
  emit_process, turn, Steps,
}

-- The values of the gauges, the latest first.
abbrev pub gauged : List StatsdCall → List ℤ
gauged [] = []
gauged (count name n tags ∷ cs) = gauged cs
gauged (timing name latency tags ∷ cs) = gauged cs
gauged (size name n tags ∷ cs) = gauged cs
gauged (gauge name value tags ∷ cs) = value ∷ gauged cs

pub Steps-trans :
    {ip_text : Bytes → String} {h k l : ProcessHook}
    → Steps ip_text h k
    → Steps ip_text k l
    → Steps ip_text h l
Steps-trans first Steps.none_yet = first
Steps-trans first (Steps.emits client upstream rest) =
    Steps.emits client upstream (Steps-trans first rest)
Steps-trans first (Steps.takes_turn before after g rest e) =
    Steps.takes_turn before after g (Steps-trans first rest) e

module _ (ip_text : Bytes → String) where
  abbrev tags_of : NetAddr → NetAddr → Tags
  tags_of client upstream =
      ("client", ip_from_addr ip_text client) ∷ ("upstream", ip_from_addr ip_text upstream) ∷ []

  -- The latest goroutine's turn, at a stage.
  abbrev first_turn : Tags → Stage → List (Tags × Stage) → ProcessHook → ProcessHook
  first_turn tags s rest h = turn [] (tags, s) rest h

  -- An emission whose goroutine runs to its end at once.
  unfoldable pub emit_alone : NetAddr → NetAddr → ProcessHook → ProcessHook
  emit_alone client upstream h =
      let tags = tags_of client upstream in
      let n = h.sequence_id in
      first_turn tags to_add h.running (
        first_turn tags (to_gauge n) h.running (
          first_turn tags to_load h.running
            (first_turn tags to_count h.running (emit_process ip_text client upstream h))))

  emit_alone-Steps :
      (client upstream : NetAddr) (h : ProcessHook) → Steps ip_text h (emit_alone client upstream h)
  unfolding emit_alone emit_process turn advance
  emit_alone-Steps client upstream h =
      let tags = tags_of client upstream in
      Steps.takes_turn [] h.running (tags, to_add)
        (Steps.takes_turn [] h.running (tags, to_gauge h.sequence_id)
          (Steps.takes_turn [] h.running (tags, to_load)
            (Steps.takes_turn [] h.running (tags, to_count)
              (Steps.emits client upstream Steps.none_yet) refl)
            refl)
          refl)
        refl

  -- An emission after another, each run to its end.
  abbrev pub emit_each : List (NetAddr × NetAddr) → ProcessHook → ProcessHook
  emit_each [] h = h
  emit_each ((client, upstream) ∷ rest) h = emit_alone client upstream (emit_each rest h)

  abbrev pub below : ℕ → List ℤ
  below zero = []
  below (suc n) = pos n ∷ below n

  all_alone : (es : List (NetAddr × NetAddr)) (h : ProcessHook) → Steps ip_text h (emit_each es h)
  all_alone [] h = Steps.none_yet
  all_alone ((client, upstream) ∷ rest) h =
      Steps-trans (all_alone rest h) (emit_alone-Steps client upstream (emit_each rest h))

  emit_alone-gauge :
      (client upstream : NetAddr) (h : ProcessHook)
      → (gauged (emit_alone client upstream h).calls ≡ int64_of h.sequence_id ∷ gauged h.calls)
        × ((emit_alone client upstream h).sequence_id ≡ (h.sequence_id + 1) % 2 ^ 64)
  unfolding emit_alone emit_process turn advance
  emit_alone-gauge client upstream h = (refl, refl)

  int64_of-small : (n : ℕ) → n < 2 ^ 63 → int64_of n ≡ pos n
  int64_of-small n lt = ground arith

  sequence_from :
      (es : List (NetAddr × NetAddr))
      → length es ≤ 2 ^ 63
      → ((emit_each es new_process_hook).sequence_id ≡ length es)
        × (gauged (emit_each es new_process_hook).calls ≡ below (length es))
  sequence_from [] small = (refl, refl)
  sequence_from ((client, upstream) ∷ rest) small =
      let before = emit_each rest new_process_hook in
      let (at, so_far) = sequence_from rest (omega (arith, small)) in
      let (shown, next) = emit_alone-gauge client upstream before in
      (
        omega (arith, at, next, small),
        shown
            ∙ ap₂ ◌∷◌ (ap int64_of at ∙ int64_of-small (length rest) (omega (arith, small))) so_far,
      )

  -- When each emission's goroutine ends before the next emission, which is one way in which they can run,
  -- up to 2^63 emissions report the numbers from 0 on as their sequence ids, in order and each once.
  pub emit_each-gauged :
      (es : List (NetAddr × NetAddr))
      → length es ≤ 2 ^ 63
      → Steps ip_text new_process_hook (emit_each es new_process_hook)
        × (gauged (emit_each es new_process_hook).calls ≡ below (length es))
  emit_each-gauged es small = (all_alone es new_process_hook, (sequence_from es small).1)

  -- From every state of the hook, two emissions can report one sequence id twice: when both goroutines
  -- read the counter before either adds to it.
  pub two_emissions_one_id :
      (client upstream client' upstream' : NetAddr) (h : ProcessHook)
      → (k : ProcessHook) × Steps ip_text h k
        × (gauged k.calls ≡ int64_of h.sequence_id ∷ int64_of h.sequence_id ∷ gauged h.calls)
  unfolding emit_process turn advance
  two_emissions_one_id client upstream client' upstream' h =
      let n = h.sequence_id in
      let t = tags_of client upstream in
      let t' = tags_of client' upstream' in
      let rest = h.running in
      let emitted = Steps.emits client' upstream' (Steps.emits client upstream Steps.none_yet) in
      let counted = Steps.takes_turn ((t', to_count) ∷ []) rest (t, to_count) emitted refl in
      let both_counted = Steps.takes_turn [] ((t, to_load) ∷ rest) (t', to_count) counted refl in
      let loaded = Steps.takes_turn ((t', to_load) ∷ []) rest (t, to_load) both_counted refl in
      let both_loaded = Steps.takes_turn [] ((t, to_gauge n) ∷ rest) (t', to_load) loaded refl in
      let shown = Steps.takes_turn ((t', to_gauge n) ∷ []) rest (t, to_gauge n) both_loaded refl in
      (_, Steps.takes_turn [] ((t, to_add) ∷ rest) (t', to_gauge n) shown refl, refl)
