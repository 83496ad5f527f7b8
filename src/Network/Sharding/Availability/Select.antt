-- ===== src/Network/Sharding/Availability/Select.antt =====
-- AvailabilityShardedClient.selectAvailable: the choice among the eligible clients.
use mathlib.Core.Logic.{⊎_elim}
use mathlib.Core.List.{Memᴰ}
use dotproxy.Base.{
  ℕ, zero, suc, ◌+◌, ◌<◌, ◌≡◌, refl, ◌⊎◌, inl, inr, Bool, true, false, List, [], ◌∷◌, arith, length,
  get_elem?-in, All, All-imp, All-get_elem?, subst, sym, ap, ◌∙◌, Bool-cases, ◌==◌, if◌then◌else◌,
}
use dotproxy.Base.Int.{ltb_ℤ}
use dotproxy.Base.Time.{is_zero, since}
use dotproxy.Base.Run.{Returns}
use dotproxy.Network.World.{Outcome, done, fail, no_live_clients, Env, World, clock_read, drawn}
use dotproxy.Network.Sharding.Availability.{Sharded, is_eligible, eligible_from, select_available}
use dotproxy.Network.Sharding.Availability.Backoff.{IsEligible, stamp_world}

-- rand.Intn(n) is below n.
abbrev pub DrawsBelow : Env → Type 0
DrawsBelow env = (w : World) (n : ℕ) → 0 < n → env.intn w n < n

zero_right : (i : ℕ) → i ≡ i + 0
zero_right i = omega arith

module _ {C : Type 0} (env : Env) (s : Sharded C) where
  -- The world in which the client `k` places after place `i` is judged, when the world is `w` at place
  -- `i`: the clock is read once for each client that has failed before.
  abbrev pub looked : ℕ → ℕ → World → World
  looked i zero w = w
  looked i (suc k) w = looked (suc i) k (stamp_world env s i w)

  -- The client `k` places after place `i` is eligible by that clock.
  abbrev pub IsLive : ℕ → ℕ → World → Type 0
  IsLive i k w = IsEligible env s (i + k) (env.clock (looked i k w))

  is_eligible_lem :
      (i : ℕ) (w : World)
      → Returns
          (λ r.
            (r.1 ≡ stamp_world env s i w)
            × ((r.0 ≡ true) × IsEligible env s i (env.clock w)
                ⊎ (r.0 ≡ false) × (¬ IsEligible env s i (env.clock w))))
          (is_eligible env s i w)
  unfolding is_eligible
  is_eligible_lem i w = elim (Bool-cases (is_zero (s.last_error i))) [
    | inl never ↦ ((true, w), rw never, (rw never refl, inl (refl, inl (ground arith))))
    | inr before ↦
        let w' = clock_read (env.clock w) ∷ w in
        elim (Bool-cases (ltb_ℤ (s.error_expiry i) (since (env.clock w) (s.last_error i)))) [
          | inl expired ↦
              ((true, w'), rw (before, expired), (rw before refl, inl (refl, inr (ground arith))))
          | inr recent ↦
              ((false, w'), rw (before, recent), (rw before refl, inr (refl, λ h. ground arith)))
        ]
  ]

  -- What the loop finds among the `n` clients from place `i` on, from the world `w`: those that are
  -- eligible when it reads the clock for them.
  pub record Found (n i : ℕ) (w : World) (xs : List ℕ) : Type 0 where
    pub sound : All (λ j. (k : ℕ) × (k < n) × (j ≡ i + k) × IsLive i k w) xs
    pub complete : (k : ℕ) → k < n → Memᴰ (i + k) xs ⊎ (¬ IsLive i k w)

  later :
      (i k : ℕ) (w w₁ : World)
      → w₁ ≡ stamp_world env s i w
      → IsLive (suc i) k w₁
      → IsLive i (suc k) w
  later i k w w₁ same live =
      let place : suc i + k ≡ i + suc k = omega arith in
      subst (λ j. IsEligible env s j (env.clock (looked i (suc k) w))) place
        (subst (λ v. IsLive (suc i) k v) same live)

  sooner :
      (i k : ℕ) (w w₁ : World)
      → w₁ ≡ stamp_world env s i w
      → IsLive i (suc k) w
      → IsLive (suc i) k w₁
  sooner i k w w₁ same live =
      let place : i + suc k ≡ suc i + k = omega arith in
      subst (λ v. IsLive (suc i) k v) (sym same)
        (subst (λ j. IsEligible env s j (env.clock (looked i (suc k) w))) place live)

  wider :
      (n i : ℕ) (w w₁ : World) (rest : List ℕ)
      → w₁ ≡ stamp_world env s i w
      → All (λ j. (k : ℕ) × (k < n) × (j ≡ suc i + k) × IsLive (suc i) k w₁) rest
      → All (λ j. (k : ℕ) × (k < suc n) × (j ≡ i + k) × IsLive i k w) rest
  wider n i w w₁ rest same =
      All-imp _ _
        (λ j (k, p, e, live). (suc k, omega arith, omega (arith, e), later i k w w₁ same live)) rest

  others :
      (n i : ℕ) (w w₁ : World) (rest : List ℕ) (k : ℕ)
      → w₁ ≡ stamp_world env s i w
      → Found n (suc i) w₁ rest
      → suc k < suc n
      → Memᴰ (i + suc k) rest ⊎ (¬ IsLive i (suc k) w)
  others n i w w₁ rest k same found p =
      let place : suc i + k ≡ i + suc k = omega arith in
      ⊎_elim (λ m. inl (subst (λ j. Memᴰ j rest) place m))
        (λ not. inr (λ live. not (sooner i k w w₁ same live))) (found.complete k (omega arith))

  Found-step :
      (n i : ℕ) (w w₁ : World) (here : Bool) (rest : List ℕ)
      → w₁ ≡ stamp_world env s i w
      → (here ≡ true) × IsEligible env s i (env.clock w)
        ⊎ (here ≡ false) × (¬ IsEligible env s i (env.clock w))
      → Found n (suc i) w₁ rest
      → Found (suc n) i w (if here then i ∷ rest else rest)
  Found-step n i w w₁ true rest same (inl (_, eligible)) found = record {
    sound = (
      (
        0,
        omega arith,
        omega arith,
        subst (λ j. IsEligible env s j (env.clock w)) (zero_right i) eligible,
      ),
      wider n i w w₁ rest same found.sound,
    );
    complete = tell;
  }
    where
      tell : (k : ℕ) → k < suc n → Memᴰ (i + k) (i ∷ rest) ⊎ (¬ IsLive i k w)
      tell zero p = inl (Memᴰ.head (sym (zero_right i)))
      tell (suc k) p = ⊎_elim (λ m. inl (Memᴰ.tail m)) inr (others n i w w₁ rest k same found p)
  Found-step n i w w₁ true rest same (inr (e, _)) found = absurd (cc)
  Found-step n i w w₁ false rest same (inl (e, _)) found = absurd (cc)
  Found-step n i w w₁ false rest same (inr (_, expired)) found = record {
    sound = wider n i w w₁ rest same found.sound;
    complete = tell;
  }
    where
      tell : (k : ℕ) → k < suc n → Memᴰ (i + k) rest ⊎ (¬ IsLive i k w)
      tell zero p = inr (subst (λ j. ¬ IsEligible env s j (env.clock w)) (zero_right i) expired)
      tell (suc k) p = others n i w w₁ rest k same found p

  eligible_from-Found :
      (n i : ℕ) (w : World)
      → Returns (λ r. Found n i w r.0 × (r.1 ≡ looked i n w)) (eligible_from env n i s w)
  unfolding eligible_from
  eligible_from-Found zero i w =
      (([], w), refl, (record { sound = tt; complete = λ k p. absurd (omega arith) }, refl))
  eligible_from-Found (suc n) i w =
      let ((here, w₁), e, (same, how)) = is_eligible_lem i w in
      let ((rest, w₂), e', (found, seen)) = eligible_from-Found n (suc i) w₁ in
      (
        (if here then i ∷ rest else rest, w₂),
        rw (e, e'),
        (Found-step n i w w₁ here rest same how found, seen ∙ ap (looked (suc i) n) same),
      )

  -- The choice, from the world `w`: after the clock is read for each client that has failed before, in
  -- order, a client that was eligible by the reading for it, with one draw; or none, without a draw, if no
  -- client was.
  abbrev pub Selected : World → Outcome ℕ × World → Type 0
  Selected w (done i, w') =
      (i < length s.clients)
      × IsLive 0 i w
      × ((m : ℕ) × (k : ℕ) × (w' ≡ drawn m k ∷ looked 0 (length s.clients) w))
  Selected w (fail e, w') =
      (e ≡ no_live_clients)
      × ((i : ℕ) → i < length s.clients → ¬ IsLive 0 i w)
      × (w' ≡ looked 0 (length s.clients) w)

  chosen_live :
      (n i : ℕ) (w : World)
      → ((k : ℕ) × (k < n) × (i ≡ 0 + k) × IsLive 0 k w)
      → (i < n) × IsLive 0 i w
  chosen_live n i w (k, p, e, live) =
      let same : k ≡ i = omega (arith, e) in (omega (arith, e), subst (λ j. IsLive 0 j w) same live)

  none-Found :
      (n : ℕ) (w : World) (xs : List ℕ)
      → length xs ≡ 0
      → Found n 0 w xs
      → (i : ℕ) → i < n
      → ¬ IsLive 0 i w
  none-Found n w [] e found i p = ⊎_elim (λ m. elim m [ ]) (λ h. h) (found.complete i p)
  none-Found n w (x ∷ xs) e found i p = absurd (omega arith)

  -- With draws in range, selectAvailable ends. It reads the clock once for each client that has failed
  -- before, in order, and then takes, by one draw, a client that never failed or whose failure had
  -- expired by the reading of the clock for it; it fails only if no client is such, with the error that no
  -- client is live, and then draws nothing.
  pub select_available-Selected :
      (w : World) → DrawsBelow env → Returns (Selected w) (select_available env s w)
  unfolding select_available
  select_available-Selected w draws =
      let ((xs, w₁), e, (found, seen)) = eligible_from-Found (length s.clients) 0 w in
      elim (Bool-cases (length xs == 0)) [
        | inl empty ↦ (
          (fail no_live_clients, w₁),
          rw (e, empty),
          (refl, none-Found _ w xs (ground arith) found, seen),
        )
        | inr more ↦
            let k = env.intn w₁ (length xs) in
            let (i, at) = get_elem?-in xs k (draws w₁ (length xs) (ground arith)) in
            let (inside, live) =
              chosen_live (length s.clients) i w (All-get_elem? _ xs k i found.sound at) in
            (
              (done i, drawn (length xs) k ∷ w₁),
              rw (e, more) (rw (more, at)),
              (inside, live, (length xs, k, ap (λ v. drawn (length xs) k ∷ v) seen)),
            )
      ]
