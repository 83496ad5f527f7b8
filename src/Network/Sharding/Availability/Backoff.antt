-- ===== src/Network/Sharding/Availability/Backoff.antt =====
-- AvailabilityShardedClient.Conn: how long a failed client stays out of the pool.
use dotproxy.Base.{
  ℕ, ◌+◌, ◌*◌, ◌≤◌, ◌≡◌, ◌≢◌, refl, ◌⊎◌, inl, inr, ◌∷◌, arith, Bool-cases, if◌then◌else◌,
}
use dotproxy.Base.Int.{pos, negsuc, ◌≤ℤ◌, ◌<ℤ◌, ltb_ℤ}
use dotproxy.Base.Time.{Time, Duration, second, is_zero, since}
use dotproxy.Base.Run.{Returns}
use dotproxy.Network.World.{Env, World, clock_read}
use dotproxy.Network.Sharding.Availability.{
  Sharded, double, failed_client_expiry, initial_expiry, update, note_failure,
}

-- 60 seconds: twice the age at which a failure is forgiven.
abbrev pub longest_expiry : Duration
longest_expiry = pos (60 * second)

module _ {C : Type 0} (env : Env) where
  -- Client `i` has never failed, or its last failure has expired at the time `t`.
  abbrev pub IsEligible : Sharded C → ℕ → Time → Type 0
  IsEligible s i t = (s.last_error i ≡ 0) ⊎ (s.error_expiry i <ℤ since t (s.last_error i))

  -- The new expiry of client `i`: 100 ms, or twice the old one if the last failure is recent.
  abbrev pub Expires : Sharded C → ℕ → Time → Sharded C → Type 0
  Expires s i t s' =
      (s'.error_expiry i ≡ initial_expiry)
        × ((s.last_error i ≡ 0) ⊎ (failed_client_expiry <ℤ since t (s.last_error i)))
      ⊎ (s'.error_expiry i ≡ double (s.error_expiry i))
        × (s.last_error i ≢ 0)
        × (since t (s.last_error i) ≤ℤ failed_client_expiry)

  -- One failure, before which the clock reads `t`, and after which it reads `u`: the expiry starts at
  -- 100 ms, or doubles if the last failure is recent; the other clients keep theirs.
  pub record Noted (s : Sharded C) (i : ℕ) (t u : Time) (s' : Sharded C) : Type 0 where
    pub kept : s'.clients ≡ s.clients
    pub stamped : s'.last_error i ≡ u
    pub expiry : Expires s i t s'
    pub others :
        (j : ℕ)
        → j ≢ i
        → (s'.error_expiry j ≡ s.error_expiry j) × (s'.last_error j ≡ s.last_error j)

  abbrev noted : Sharded C → ℕ → Duration → Time → Sharded C
  noted s i expiry t = record s {
    error_expiry = update s.error_expiry i expiry;
    last_error = update s.last_error i t;
  }

  -- The world in which the failure is stamped: the clock has been read before, unless the client
  -- never failed.
  abbrev pub stamp_world : Sharded C → ℕ → World → World
  stamp_world s i w = if is_zero (s.last_error i) then w else clock_read (env.clock w) ∷ w

  -- The failure of a client, as Conn notes it, is stamped with the time, sets that client's expiry
  -- (100 ms if it never failed or its last failure is more than 30 s old, else twice the old one)
  -- and leaves the clients, and the other clients' records, as they were.
  pub note_failure-Noted :
      (s : Sharded C) (i : ℕ) (w : World)
      → Returns
          (λ r. Noted s i (env.clock w) (env.clock (stamp_world s i w)) r.0)
          (note_failure env s i w)
  unfolding note_failure
  note_failure-Noted s i w = elim (Bool-cases (is_zero (s.last_error i))) [
    | inl never ↦ (
      (noted s i initial_expiry (env.clock w), clock_read (env.clock w) ∷ w),
      rw never,
      record {
        kept = refl;
        stamped = ground arith;
        expiry = inl (ground arith, inl (ground arith));
        others = λ j e. (ground arith, ground arith);
      },
    )
    | inr before ↦
        let w₁ = clock_read (env.clock w) ∷ w in
        let w₂ = clock_read (env.clock w₁) ∷ w₁ in
        elim (Bool-cases (ltb_ℤ failed_client_expiry (since (env.clock w) (s.last_error i)))) [
          | inl forgiven ↦ (
            (noted s i initial_expiry (env.clock w₁), w₂),
            rw (before, forgiven),
            record {
              kept = refl;
              stamped = ground arith;
              expiry = inl (ground arith, inr (ground arith));
              others = λ j e. (ground arith, ground arith);
            },
          )
          | inr recent ↦ (
            (noted s i (double (s.error_expiry i)) (env.clock w₁), w₂),
            rw (before, recent),
            record {
              kept = refl;
              stamped = ground arith;
              expiry = inr (ground arith, ground arith, ground arith);
              others = λ j e. (ground arith, ground arith);
            },
          )
        ]
  ]

-- 100 ms, doubled 37 times, as an int64.
abbrev pub wrapped : Duration
wrapped = negsuc 4_702_848_726_509_551_615

since_mono : (t u l : Time) → t ≤ u → since t l ≤ℤ since u l
unfolding since
since_mono t u l h = ground arith

pub since_le : (t l d : Time) → t ≤ l + d → since t l ≤ℤ pos d
unfolding since
since_le t l d h = ground arith

pub since_nonneg : (t l : Time) → l ≤ t → wrapped <ℤ since t l
unfolding since
since_nonneg t l h = ground arith

double_bounds :
    (d : Duration)
    → initial_expiry ≤ℤ d
    → d ≤ℤ failed_client_expiry
    → (initial_expiry ≤ℤ double d) × (double d ≤ℤ longest_expiry)
double_bounds (pos n) p q = ground arith
double_bounds (negsuc n) p q = absurd (omega arith)

pub double_lower :
    (d : Duration) → initial_expiry ≤ℤ d → d ≤ℤ longest_expiry → initial_expiry ≤ℤ double d
double_lower (pos n) p q = ground arith
double_lower (negsuc n) p q = absurd (omega arith)

-- The expiry of a client that has failed lies between 100 ms and 60 s.
abbrev pub IsBounded : {C : Type 0} → Sharded C → ℕ → Type 0
IsBounded s i =
    (s.last_error i ≡ 0)
    ⊎ (initial_expiry ≤ℤ s.error_expiry i) × (s.error_expiry i ≤ℤ longest_expiry)

-- If a client's expiry is within its bounds, the client was eligible at an earlier reading of the
-- clock, and it fails now, its new expiry is between 100 ms and 60 s: the doubling does not
-- overflow.
pub note_failure-IsBounded :
    {C : Type 0} (env : Env) (s : Sharded C) (i : ℕ) (t : Time) (w : World)
    → IsBounded s i
    → IsEligible env s i t
    → t ≤ env.clock w
    → Returns
        (λ r. (initial_expiry ≤ℤ r.0.error_expiry i) × (r.0.error_expiry i ≤ℤ longest_expiry))
        (note_failure env s i w)
note_failure-IsBounded {C} env s i t w bounded eligible later =
    let (r, e, n) = note_failure-Noted env s i w in (r, e, by_expiry r.0 n.expiry)
  where
    by_expiry :
        (s' : Sharded C)
        → Expires env s i (env.clock w) s'
        → (initial_expiry ≤ℤ s'.error_expiry i) × (s'.error_expiry i ≤ℤ longest_expiry)
    by_expiry s' (inl (e, _)) = rw e (omega arith)
    by_expiry s' (inr (e, before, recent)) =
        let low : initial_expiry ≤ℤ s.error_expiry i = omega (arith, bounded) in
        let mono = since_mono t (env.clock w) (s.last_error i) later in
        let high : s.error_expiry i ≤ℤ failed_client_expiry = omega (arith, eligible, mono) in
        rw e (double_bounds (s.error_expiry i) low high)
