-- ===== src/Network/Sharding/Availability/Outage.antt =====
-- The clients that a call of Conn has found failed, and those that are left.
use native.Mathlib.Decide.{ℕ_discrete}
use dotproxy.Base.{
  ℕ, zero, suc, ◌+◌, ◌≤◌, ◌<◌, ◌≡◌, ◌≢◌, refl, ap, ◌∙◌, ◌⊎◌, inl, inr, Bool, true, false, arith,
  length, length-set, set, Bool-cases, leb, ◌&&◌,
}
use dotproxy.Base.Int.{◌≤ℤ◌, leb_ℤ}
use dotproxy.Base.Time.{Time}
use dotproxy.Network.World.{Env, World}
use dotproxy.Network.Sharding.Availability.{Sharded, initial_expiry}
use dotproxy.Network.Sharding.Availability.Backoff.{
  IsEligible, IsBounded, Noted, Expires, since_le, double_lower,
}

-- While the call runs, the clock reads times of the 100 ms from `from` on.
abbrev pub IsQuick : Env → Time → Type 0
IsQuick env from =
    (0 < from) × ((w : World) → (from ≤ env.clock w) × (env.clock w ≤ from + 100_000_000))

abbrev pub weight : Bool → ℕ
weight true = 0
weight false = 1

module _ {C : Type 0} (from : Time) where
  -- Client `i` has failed since `from`, and is out for 100 ms at least.
  abbrev pub IsOut : Sharded C → ℕ → Type 0
  IsOut s i = (from ≤ s.last_error i) × (initial_expiry ≤ℤ s.error_expiry i)

  abbrev pub is_out : Sharded C → ℕ → Bool
  is_out s i = leb from (s.last_error i) && leb_ℤ initial_expiry (s.error_expiry i)

  -- How many of the first `n` clients are not out.
  abbrev pub in_count : ℕ → Sharded C → ℕ
  in_count zero s = 0
  in_count (suc n) s = weight (is_out s n) + in_count n s

  -- Each client is out, or has an expiry within bounds.
  abbrev pub IsReady : Sharded C → Type 0
  IsReady s = (i : ℕ) → IsOut s i ⊎ IsBounded s i

  out-not-IsEligible :
      (env : Env) (s : Sharded C) (i : ℕ) (t : Time)
      → 0 < from
      → t ≤ from + 100_000_000
      → IsOut s i
      → ¬ IsEligible env s i t
  out-not-IsEligible env s i t p q out h =
      omega (arith, h, since_le t (s.last_error i) 100_000_000 (omega arith))

  Noted-IsOut :
      (env : Env) (s s' : Sharded C) (i : ℕ) (t u : Time)
      → IsBounded s i
      → from ≤ u
      → Noted env s i t u s'
      → IsOut s' i
  Noted-IsOut env s s' i t u b p n = (omega (arith, n.stamped), by_expiry n.expiry)
    where
      by_expiry : Expires env s i t s' → initial_expiry ≤ℤ s'.error_expiry i
      by_expiry (inl (e, _)) = rw e (omega arith)
      by_expiry (inr (e, before, _)) = elim b [
        | inl never ↦ absurd (before never)
        | inr within ↦ rw e (double_lower (s.error_expiry i) within.0 within.1)
      ]

  in_count-same :
      (n : ℕ) (s s' : Sharded C)
      → ((j : ℕ) → j < n → is_out s' j ≡ is_out s j)
      → in_count n s' ≡ in_count n s
  in_count-same zero s s' h = refl
  in_count-same (suc n) s s' h =
      omega (arith, ap weight (h n (omega arith)), in_count-same n s s' (λ j p. h j (omega arith)))

  pub in_count-less :
      (n i : ℕ) (s s' : Sharded C)
      → i < n
      → is_out s i ≡ false
      → is_out s' i ≡ true
      → ((j : ℕ) → j ≢ i → is_out s' j ≡ is_out s j)
      → in_count n s ≡ suc (in_count n s')
  in_count-less zero i s s' p a b h = absurd (omega arith)
  in_count-less (suc n) i s s' p a b h = elim (ℕ_discrete n i) [
    | yes e ↦
        let was_in : is_out s n ≡ false = ap (is_out s) e ∙ a in
        let now_out : is_out s' n ≡ true = ap (is_out s') e ∙ b in
        omega (
          arith,
          ap weight was_in,
          ap weight now_out,
          in_count-same n s s' (λ j q. h j (omega arith)),
        )
    | no e ↦ omega (arith, ap weight (h n e), in_count-less n i s s' (omega arith) a b h)
  ]

  pub out-is_out : (s : Sharded C) (i : ℕ) → IsOut s i → is_out s i ≡ true
  out-is_out s i out = ground arith

  is_out-IsOut : (s : Sharded C) (i : ℕ) → is_out s i ≡ true → IsOut s i
  is_out-IsOut s i e = ground arith

  -- A selected client is not out, and its expiry is within bounds.
  pub selected-in :
      (env : Env) (s : Sharded C) (i : ℕ)
      → IsQuick env from
      → IsReady s
      → (w : World) × IsEligible env s i (env.clock w)
      → (is_out s i ≡ false) × IsBounded s i
  selected-in env s i quick ready (w, eligible) = elim (ready i) [
    | inl out ↦ absurd (out-not-IsEligible env s i (env.clock w) quick.0 (quick.1 w).1 out eligible)
    | inr bounded ↦ elim (Bool-cases (is_out s i)) [
      | inl e ↦ absurd (
          out-not-IsEligible env s i (env.clock w) quick.0 (quick.1 w).1 (is_out-IsOut s i e)
            eligible)
      | inr e ↦ (e, bounded)
    ]
  ]

  -- After a failure of client `i`, that client is out, and the others are as they were.
  pub record Failed (s s' : Sharded C) (i : ℕ) : Type 0 where
    pub size : length s'.clients ≡ length s.clients
    pub out : IsOut s' i
    pub others : (j : ℕ) → j ≢ i → is_out s' j ≡ is_out s j
    pub ready : IsReady s'

  pub Noted-Failed :
      (env : Env) (s s' : Sharded C) (c : C) (i : ℕ) (t u : Time)
      → IsReady s
      → IsBounded s i
      → from ≤ u
      → Noted env (record s { clients = set s.clients i c }) i t u s'
      → Failed s s' i
  Noted-Failed env s s' c i t u ready b p n =
      let out = Noted-IsOut env (record s { clients = set s.clients i c }) s' i t u b p n in
      record {
        size = ap length n.kept ∙ length-set s.clients i c;
        out = out;
        others = λ j e. ground (arith, n.others j e);
        ready = λ j. elim (ℕ_discrete j i) [
          | yes e ↦ inl (rw e out)
          | no e ↦ ground (arith, ready j, n.others j e)
        ];
      }
