-- ===== src/Metrics/Sequence.antt =====
-- internal/metrics/hook.go: EmitProcess. Each emission starts a goroutine that reports a count, reads
-- the hook's counter, reports what it read, and adds one to the counter. The counter is an int64,
-- kept here as the number of its 64 bits.
pub mod Tally
pub mod Counter
pub mod Order
use Prim.Native.String.{String}
use dotproxy.Base.{
  ℕ, suc, ◌+◌, ◌-◌, ◌*◌, ◌%◌, ◌^◌, ◌<◌, ◌≤◌, ◌≡◌, refl, sym, List, [], ◌∷◌, ◌++◌, if◌then◌else◌,
  ltb, All, length,
}
use dotproxy.Base.Int.{ℤ, pos, negsuc}
use dotproxy.Network.World.{Bytes}
use dotproxy.Metrics.{NetAddr, Tags, StatsdCall, count, timing, size, gauge, ip_from_addr}

-- How far a goroutine is: before the count, before the load, with the value that it loaded, before the
-- addition, and at its end.
pub data Stage : Type 0 where
  to_count to_load : Stage
  to_gauge : ℕ → Stage
  to_add ended : Stage

-- float64(…) is given the int64 that the bits stand for.
abbrev pub int64_of : ℕ → ℤ
int64_of n = if ltb n (2 ^ 63) then pos n else negsuc (2 ^ 64 - 1 - n)

-- A goroutine, with the tags of its emission; the hook's counter, all goroutines, and all the
-- calls made, the latest first.
pub record ProcessHook : Type 0 where
  pub sequence_id : ℕ
  pub running : List (Tags × Stage)
  pub calls : List StatsdCall

abbrev pub new_process_hook : ProcessHook
new_process_hook = record { sequence_id = 0; running = []; calls = [] }

-- What a goroutine does next: its stage, the counter, and its calls.
unfoldable pub advance : Tags → Stage → ℕ → Stage × ℕ × List StatsdCall
advance tags to_count n = (to_load, n, count "event.proxy.process" 1 tags ∷ [])
advance tags to_load n = (to_gauge n, n, [])
advance tags (to_gauge k) n = (to_add, n, gauge "gauge.proxy.sequence_id" (int64_of k) tags ∷ [])
advance tags to_add n = (ended, (n + 1) % 2 ^ 64, [])
advance tags ended n = (ended, n, [])

-- The emission starts a goroutine.
unfoldable pub emit_process : (Bytes → String) → NetAddr → NetAddr → ProcessHook → ProcessHook
emit_process ip_text client upstream h = record h {
  running =
      (
        ("client", ip_from_addr ip_text client) ∷ ("upstream", ip_from_addr ip_text upstream) ∷ [],
        to_count,
      )
      ∷ h.running;
}

-- The goroutine between `before` and `after` has its turn.
unfoldable pub turn :
    List (Tags × Stage) → Tags × Stage → List (Tags × Stage) → ProcessHook → ProcessHook
turn before g after h =
    let next = advance g.0 g.1 h.sequence_id in
    record {
      sequence_id = next.1;
      running = before ++ (g.0, next.0) ∷ after;
      calls = next.2 ++ h.calls;
    }

-- Emissions and turns, in any order.
pub data Steps (ip_text : Bytes → String) (h : ProcessHook) : ProcessHook → Type 0 where
  none_yet : Steps ip_text h h
  emits :
      {k : ProcessHook} (client upstream : NetAddr)
      → Steps ip_text h k
      → Steps ip_text h (emit_process ip_text client upstream k)
  takes_turn :
      {k : ProcessHook} (before after : List (Tags × Stage)) (g : Tags × Stage)
      → Steps ip_text h k
      → k.running ≡ before ++ g ∷ after
      → Steps ip_text h (turn before g after k)

-- What a goroutine has done: its count, its gauge, its addition.
abbrev pub has_counted : Stage → ℕ
has_counted to_count = 0
has_counted to_load = 1
has_counted (to_gauge k) = 1
has_counted to_add = 1
has_counted ended = 1

abbrev pub has_gauged : Stage → ℕ
has_gauged to_count = 0
has_gauged to_load = 0
has_gauged (to_gauge k) = 0
has_gauged to_add = 1
has_gauged ended = 1

abbrev pub has_added : Stage → ℕ
has_added to_count = 0
has_added to_load = 0
has_added (to_gauge k) = 0
has_added to_add = 0
has_added ended = 1

abbrev pub tally : (Stage → ℕ) → List (Tags × Stage) → ℕ
tally f [] = 0
tally f (g ∷ gs) = f g.1 + tally f gs

abbrev pub is_count : StatsdCall → ℕ
is_count (count name n tags) = 1
is_count (timing name latency tags) = 0
is_count (size name n tags) = 0
is_count (gauge name n tags) = 0

abbrev pub is_gauge : StatsdCall → ℕ
is_gauge (count name n tags) = 0
is_gauge (timing name latency tags) = 0
is_gauge (size name n tags) = 0
is_gauge (gauge name n tags) = 1

abbrev pub number : (StatsdCall → ℕ) → List StatsdCall → ℕ
number f [] = 0
number f (c ∷ cs) = f c + number f cs

-- A value of the counter when fewer than `n` goroutines have ended.
abbrev pub IsEarlier : ℕ → ℕ → Type 0
IsEarlier n k = (j : ℕ) × (j < n) × (k ≡ j % 2 ^ 64)

abbrev pub HasRead : ℕ → Tags × Stage → Type 0
HasRead n (tags, to_count) = Unit
HasRead n (tags, to_load) = Unit
HasRead n (tags, to_gauge k) = IsEarlier n k
HasRead n (tags, to_add) = Unit
HasRead n (tags, ended) = Unit

abbrev pub HasReported : ℕ → StatsdCall → Type 0
HasReported n (count name k tags) = Unit
HasReported n (timing name latency tags) = Unit
HasReported n (size name k tags) = Unit
HasReported n (gauge name value tags) = (k : ℕ) × (value ≡ int64_of k) × IsEarlier n k

pub record Inv (h : ProcessHook) : Type 0 where
  pub counter : h.sequence_id ≡ tally has_added h.running % 2 ^ 64
  pub counts : number is_count h.calls ≡ tally has_counted h.running
  pub gauges : number is_gauge h.calls ≡ tally has_gauged h.running
  pub reads : All (HasRead (length h.running)) h.running
  pub reports : All (HasReported (length h.running)) h.calls
