-- ===== src/Network/Sharding/Availability/Quiet.antt =====
-- AvailabilityShardedClient: what its choice of a client, and the note of a failure, do to connections.
use dotproxy.Base.{
  ℕ, zero, suc, ◌≡◌, refl, inl, inr, true, [], ◌∷◌, arith, length, get_elem?-in, Bool-cases, ◌==◌,
  if◌then◌else◌,
}
use dotproxy.Base.Int.{ltb_ℤ}
use dotproxy.Base.Time.{Time, Duration, is_zero, since}
use dotproxy.Base.Run.{Returns}
use dotproxy.Network.World.{Env, World, done, fail, no_live_clients, clock_read, drawn}
use dotproxy.Network.Ledger.{Accounts}
use dotproxy.Network.Sharding.Availability.{
  Sharded, is_eligible, eligible_from, select_available, is_forgiven, note_failure,
  failed_client_expiry, initial_expiry, double, update,
}
use dotproxy.Network.Sharding.Availability.Select.{DrawsBelow}

-- Neither opens, closes nor hands over a connection.
abbrev pub IsQuiet : World → World → Type 0
IsQuiet w w' = Accounts [] [] w w'

module _ {C : Type 0} (env : Env) where
  is_eligible-IsQuiet :
      (s : Sharded C) (i : ℕ) (w : World) → Returns (λ r. IsQuiet w r.1) (is_eligible env s i w)
  unfolding is_eligible
  is_eligible-IsQuiet s i w = elim (Bool-cases (is_zero (s.last_error i))) [
    | inl never ↦ ((true, w), rw never refl, λ x. omega arith)
    | inr before ↦
        let expired = ltb_ℤ (s.error_expiry i) (since (env.clock w) (s.last_error i)) in
        ((expired, clock_read (env.clock w) ∷ w), rw before refl, λ x. omega arith)
  ]

  eligible_from-IsQuiet :
      (n i : ℕ) (s : Sharded C) (w : World)
      → Returns (λ r. IsQuiet w r.1) (eligible_from env n i s w)
  unfolding eligible_from
  eligible_from-IsQuiet zero i s w = (([], w), refl, λ x. omega arith)
  eligible_from-IsQuiet (suc n) i s w =
      let ((here, w₁), e, quiet) = is_eligible-IsQuiet s i w in
      let ((rest, w₂), e', quiet') = eligible_from-IsQuiet n (suc i) s w₁ in
      (
        (if here then i ∷ rest else rest, w₂),
        rw (e, e') refl,
        λ x. omega (arith, quiet x, quiet' x),
      )

  pub select_available-IsQuiet :
      (s : Sharded C) (w : World)
      → DrawsBelow env
      → Returns (λ r. IsQuiet w r.1) (select_available env s w)
  unfolding select_available
  select_available-IsQuiet s w draws =
      let ((xs, w₁), e, quiet) = eligible_from-IsQuiet (length s.clients) 0 s w in
      elim (Bool-cases (length xs == 0)) [
        | inl empty ↦ ((fail no_live_clients, w₁), rw (e, empty) refl, quiet)
        | inr more ↦
            let below = draws w₁ (length xs) (ground arith) in
            let (i, at) = get_elem?-in xs (env.intn w₁ (length xs)) below in
            (
              (done i, drawn (length xs) (env.intn w₁ (length xs)) ∷ w₁),
              rw (e, more) (rw (more, at)),
              λ x. omega (arith, quiet x),
            )
      ]

  abbrev noted : Sharded C → ℕ → Duration → Time → Sharded C
  noted s i expiry t = record s {
    error_expiry = update s.error_expiry i expiry;
    last_error = update s.last_error i t;
  }

  pub note_failure-IsQuiet :
      (s : Sharded C) (i : ℕ) (w : World)
      → Returns (λ r. (r.0.clients ≡ s.clients) × IsQuiet w r.1) (note_failure env s i w)
  unfolding note_failure is_forgiven
  note_failure-IsQuiet s i w = elim (Bool-cases (is_zero (s.last_error i))) [
    | inl never ↦ (
      (noted s i initial_expiry (env.clock w), clock_read (env.clock w) ∷ w),
      rw never refl,
      (refl, λ x. omega arith),
    )
    | inr before ↦
        let w₁ = clock_read (env.clock w) ∷ w in
        let forgiven = ltb_ℤ failed_client_expiry (since (env.clock w) (s.last_error i)) in
        (
          (
            noted s i (if forgiven then initial_expiry else double (s.error_expiry i))
                (env.clock w₁),
            clock_read (env.clock w₁) ∷ w₁,
          ),
          rw before refl,
          (refl, λ x. omega arith),
        )
  ]
