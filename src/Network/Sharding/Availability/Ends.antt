-- ===== src/Network/Sharding/Availability/Ends.antt =====
-- The end of the recursion of AvailabilityShardedClient.Conn.
use dotproxy.Base.{
  ◌+◌, ℕ, zero, suc, ◌≤◌, ◌<◌, ◌≡◌, refl, subst, ◌∙◌, inl, inr, some, arith, All, All-get_elem?,
  All-set, length, set, get_elem?, get_elem?-in,
}
use dotproxy.Base.Time.{Time}
use dotproxy.Base.Run.{ok, Returns}
use dotproxy.Network.World.{Error, Outcome, done, fail, no_live_clients, Env, World, Outcome-cases}
use dotproxy.Network.Pool.{PersistentConn}
use dotproxy.Network.Client.{Client, Keeps}
use dotproxy.Network.Sharding.Availability.{Sharded, select_available, note_failure, conn}
use dotproxy.Network.Sharding.Availability.Backoff.{
  IsEligible, IsBounded, note_failure-Noted, stamp_world,
}
use dotproxy.Network.Sharding.Availability.Select.{
  DrawsBelow, looked, Selected, select_available-Selected,
}
use dotproxy.Network.Sharding.Availability.Outage.{
  IsQuick, IsReady, in_count, selected-in, in_count-less, out-is_out, Noted-Failed,
}

from_zero : (i : ℕ) → 0 + i ≡ i
from_zero i = omega arith

-- A connection, or the error that no client is live.
abbrev pub Settled : Outcome PersistentConn → Type 0
Settled (done pc) = Unit
Settled (fail e) = e ≡ no_live_clients

module _ {C : Type 0} (V : C → Type 0) (I : Client C) (env : Env) (from : Time) where
  -- The rest of Conn after its choice of a client.
  after_failure :
      (fuel n i : ℕ) (s : Sharded C) (c : C) (w : World)
      → IsQuick env from
      → All V s.clients
      → V c
      → IsReady from s
      → length s.clients ≡ n
      → i < n
      → (v : World) × IsEligible env s i (env.clock v)
      → in_count from n s < suc fuel
      → Returns
          (λ r.
            (length r.0.clients ≡ n)
            × All V r.0.clients
            × IsReady from r.0
            × (in_count from n r.0 < fuel))
          (note_failure env (record s { clients = set s.clients i c }) i w)
  after_failure fuel n i s c w quick valid new_valid ready size p eligible enough =
      let marked : Sharded C = record s { clients = set s.clients i c } in
      let (was_in, bounded) = selected-in from env s i quick ready eligible in
      let ((s', w'), e, noted) = note_failure-Noted env marked i w in
      let failed =
        Noted-Failed from env s s' c i _ _ ready bounded (quick.1 (stamp_world env marked i w)).0
          noted in
      let less =
        in_count-less from n i s s' p was_in (out-is_out from s' i failed.out) failed.others in
      (
        (s', w'),
        e,
        (
          failed.size ∙ size,
          rw (noted.kept) (All-set V s.clients i c valid new_valid),
          failed.ready,
          omega (arith, less, enough),
        ),
      )

  module _ (fuel : ℕ) (s : Sharded C) (o : Outcome ℕ) (w w₁ : World)
      (chose : select_available env s w ≡ ok (o, w₁)) where
    pub conn_none : (e : Error) → o ≡ fail e → conn I env (suc fuel) s w ≡ ok ((s, fail e), w₁)
    unfolding conn
    conn_none e p = rw (chose, p)

    module _ (i : ℕ) (c : C) (r : C × Outcome PersistentConn) (w₂ : World) (p : o ≡ done i)
        (at : get_elem? s.clients i ≡ some c) (called : I.conn c w₁ ≡ ok (r, w₂)) where
      pub conn_won :
          (pc : PersistentConn)
          → r.1 ≡ done pc
          → conn I env (suc fuel) s w
            ≡ ok ((record s { clients = set s.clients i r.0 }, done pc), w₂)
      unfolding conn
      conn_won pc won = rw (chose, p) (rw (at, called) (rw won))

      pub conn_lost :
          (e : Error) (s' : Sharded C) (w₃ : World)
          → r.1 ≡ fail e
          → note_failure env (record s { clients = set s.clients i r.0 }) i w₂ ≡ ok (s', w₃)
          → conn I env (suc fuel) s w ≡ conn I env fuel s' w₃
      unfolding conn
      conn_lost e s' w₃ lost noted = rw (chose, p) (rw (at, called) (rw lost (rw noted)))

  ends :
      (fuel n : ℕ) (s : Sharded C) (w : World)
      → Keeps V I
      → DrawsBelow env
      → IsQuick env from
      → All V s.clients
      → IsReady from s
      → length s.clients ≡ n
      → in_count from n s < fuel
      → Returns (λ r. Settled r.0.1) (conn I env fuel s w)
  ends zero n s w total draws quick valid ready size enough = absurd (omega arith)
  ends (suc fuel) n s w total draws quick valid ready size enough =
      let ((o, w₁), chose, chosen) = select_available-Selected env s w draws in
      elim (Outcome-cases o) [
        | inl (i, o_done) ↦
            let (p, live, _) = subst (λ o. Selected env s w (o, w₁)) o_done chosen in
            let eligible : (v : World) × IsEligible env s i (env.clock v) = (
              looked env s 0 i w,
              subst (λ j. IsEligible env s j (env.clock (looked env s 0 i w))) (from_zero i) live,
            ) in
            let (c, at) = get_elem?-in s.clients i p in
            let ((r, w₂), called, kept) = total c w₁ (All-get_elem? V s.clients i c valid at) in
            elim (Outcome-cases r.1) [
              | inl (pc, won) ↦ (
                ((record s { clients = set s.clients i r.0 }, done pc), w₂),
                conn_won fuel s o w w₁ chose i c r w₂ o_done at called pc won,
                tt,
              )
              | inr (e, lost) ↦
                  let ((s', w₃), noted, (size', valid', ready', enough')) =
                    after_failure fuel n i s r.0 w₂ quick valid kept ready size
                      (omega (arith, p, size)) eligible enough in
                  let (out, again, settled) =
                    ends fuel n s' w₃ total draws quick valid' ready' size' enough' in
                  let step =
                    conn_lost fuel s o w w₁ chose i c r w₂ o_done at called e s' w₃ lost noted in
                  (out, step ∙ again, settled)
            ]
        | inr (e, o_fail) ↦
            let (why, _, _) = subst (λ o. Selected env s w (o, w₁)) o_fail chosen in
            (((s, fail e), w₁), conn_none fuel s o w w₁ chose e o_fail, why)
      ]

  in_count-le : (n : ℕ) (s : Sharded C) → in_count from n s ≤ n
  in_count-le zero s = omega arith
  in_count-le (suc n) s = ground (arith, in_count-le n s)

  -- If the children keep their contract, the draws are in range, the clock stays within the 100 ms
  -- from a time after the zero time on, and each client has not failed before or has its expiry
  -- within bounds, then Conn ends after at most one attempt per client and one last choice, with a
  -- connection or with the error that no client is live.
  pub conn-Ends :
      (s : Sharded C) (w : World)
      → Keeps V I
      → DrawsBelow env
      → IsQuick env from
      → All V s.clients
      → ((i : ℕ) → IsBounded s i)
      → Returns (λ r. Settled r.0.1) (conn I env (suc (length s.clients)) s w)
  conn-Ends s w total draws quick valid bounded =
      ends (suc (length s.clients)) (length s.clients) s w total draws quick valid
        (λ i. inr (bounded i)) refl (ground (arith, in_count-le (length s.clients) s))
