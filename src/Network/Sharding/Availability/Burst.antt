-- ===== src/Network/Sharding/Availability/Burst.antt =====
-- AvailabilityShardedClient.Conn: failures of a client noted one after the other.
use dotproxy.Base.{ℕ, zero, suc, ◌+◌, ◌*◌, ◌≤◌, ◌<◌, ◌≡◌, ◌≢◌, refl, ap, ◌∙◌, inl, inr, arith}
use dotproxy.Base.Int.{pos, ◌<ℤ◌}
use dotproxy.Base.Time.{Time, Duration, second}
use dotproxy.Base.Run.{Returns}
use dotproxy.Network.World.{Env, World, M, pure, ◌>>=◌}
use dotproxy.Network.Sharding.Availability.{Sharded, double, initial_expiry, note_failure}
use dotproxy.Network.Sharding.Availability.Backoff.{
  wrapped, since_le, since_nonneg, IsEligible, Expires, Noted, stamp_world, note_failure-Noted,
}

-- `n` failures of client `i` noted one after the other, as by requests that had all selected the
-- client before the first of them failed.
pub burst : {C : Type 0} → Env → ℕ → ℕ → Sharded C → M (Sharded C)
burst env zero i s = pure s
burst env (suc n) i s = note_failure env s i >>= burst env n i

-- The expiry after one failure and `n` recent ones.
abbrev doublings : ℕ → Duration → Duration
doublings zero d = d
doublings (suc n) d = doublings n (double d)

recent_doubles :
    {C : Type 0} (env : Env) (from : Time) (s s' : Sharded C) (i : ℕ) (t u : Time)
    → s.last_error i ≢ 0
    → from ≤ s.last_error i
    → t ≤ from + 30 * second
    → Noted env s i t u s'
    → s'.error_expiry i ≡ double (s.error_expiry i)
recent_doubles env from s s' i t u h k m n = by_expiry n.expiry
  where
    by_expiry : Expires env s i t s' → s'.error_expiry i ≡ double (s.error_expiry i)
    by_expiry (inl (_, old)) =
        absurd (omega (arith, since_le t (s.last_error i) (30 * second) (omega arith)))
    by_expiry (inr (e, _, _)) = e

never_starts :
    {C : Type 0} (env : Env) (s s' : Sharded C) (i : ℕ) (t u : Time)
    → s.last_error i ≡ 0
    → Noted env s i t u s'
    → s'.error_expiry i ≡ initial_expiry
never_starts env s s' i t u h n = by_expiry n.expiry
  where
    by_expiry : Expires env s i t s' → s'.error_expiry i ≡ initial_expiry
    by_expiry (inl (e, _)) = e
    by_expiry (inr (_, before, _)) = absurd (before h)

burst_recent :
    {C : Type 0} (env : Env) (from : Time) (n i : ℕ) (s : Sharded C) (w : World)
    → ((w : World) → (from ≤ env.clock w) × (env.clock w ≤ from + 30 * second))
    → 0 < from
    → s.last_error i ≢ 0
    → from ≤ s.last_error i
    → Returns
        (λ r. (r.0.error_expiry i ≡ doublings n (s.error_expiry i)) × (r.0.last_error i ≢ 0))
        (burst env n i s w)
unfolding burst
burst_recent env from zero i s w steady positive h k = ((s, w), refl, (refl, h))
burst_recent env from (suc n) i s w steady positive h k =
    let ((s', w'), e, t) = note_failure-Noted env s i w in
    let doubled =
      recent_doubles env from s s' i (env.clock w) (env.clock (stamp_world env s i w)) h k
        (steady w).1 t in
    let stamp = steady (stamp_world env s i w) in
    let (r, e', (expiry, last)) =
      burst_recent env from n i s' w' steady positive (omega (arith, t.stamped))
        (omega (arith, t.stamped)) in
    (r, rw e e', (rw doubled at expiry, last))

-- If a client that never failed fails 38 times in a row without being selected anew, as by requests
-- that had all selected it before, and the clock stays within 30 s, then its expiry overflows an
-- int64: it is negative, and the client is eligible at once.
pub burst_overflows :
    {C : Type 0} (env : Env) (from : Time) (i : ℕ) (s : Sharded C) (w : World)
    → ((w : World) → (from ≤ env.clock w) × (env.clock w ≤ from + 30 * second))
    → 0 < from
    → s.last_error i ≡ 0
    → Returns
        (λ r.
          (r.0.error_expiry i <ℤ pos 0)
          × ((t : Time) → r.0.last_error i ≤ t → IsEligible env r.0 i t))
        (burst env 38 i s w)
unfolding burst
burst_overflows env from i s w steady positive never =
    let ((s', w'), e, t) = note_failure-Noted env s i w in
    let stamp = steady (stamp_world env s i w) in
    let first = never_starts env s s' i _ _ never t in
    let (r, e', (expiry, last)) =
      burst_recent env from 37 i s' w' steady positive (omega (arith, t.stamped))
        (omega (arith, t.stamped)) in
    let negative : r.0.error_expiry i ≡ wrapped = expiry ∙ ap (doublings 37) first in
    (r, rw e e', (rw negative (omega arith), λ u m. inr (rw negative (since_nonneg u _ m))))
