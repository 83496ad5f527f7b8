-- ===== src/Network/Sharding/Availability.antt =====
-- AvailabilityShardedClient. The maps are keyed by the client, here by its place in `clients`. The
-- recursion of Conn runs on fuel.
pub mod Select
pub mod Backoff
pub mod Burst
pub mod Outage
pub mod Ends
pub mod Quiet
use dotproxy.Base.{
  ℕ, zero, suc, ◌+◌, ◌-◌, ◌*◌, ◌%◌, ◌^◌, ◌≡◌, Bool, true, false, List, [], ◌∷◌, ◌++◌, Option, none,
  some, length, get_elem?, set, ltb, ◌==◌, if◌then◌else◌,
}
use dotproxy.Base.Int.{ℤ, pos, negsuc, ltb_ℤ}
use dotproxy.Base.Time.{Time, Duration, second, zero_time, is_zero, since}
use dotproxy.Base.Run.{Run, out_of_fuel, or_panic}
use dotproxy.Network.World.{
  Error, no_live_clients, Outcome, done, fail, Env, M, pure, ◌>>=◌, lift, now, draw,
}
use dotproxy.Network.Pool.{PersistentConn}
use dotproxy.Network.Client.{Client}

-- An int64 wraps around.
abbrev pub wrap_int64 : ℤ → ℤ
wrap_int64 (pos n) = let r = n % 2 ^ 64 in if ltb r (2 ^ 63) then pos r else negsuc (2 ^ 64 - r - 1)
wrap_int64 (negsuc n) =
    let r = n % 2 ^ 64 in if ltb r (2 ^ 63) then negsuc r else pos (2 ^ 64 - r - 1)

abbrev pub twice : ℤ → ℤ
twice (pos n) = pos (2 * n)
twice (negsuc n) = negsuc (2 * n + 1)

-- `d *= 2`
abbrev pub double : Duration → Duration
double d = wrap_int64 (twice d)

abbrev pub failed_client_expiry : Duration
failed_client_expiry = pos (30 * second)

abbrev pub initial_expiry : Duration
initial_expiry = pos 100_000_000

pub record Sharded (C : Type 0) : Type 0 where
  pub clients : List C
  pub last_error : ℕ → Time
  pub error_expiry : ℕ → Duration

abbrev pub update {ℓ} : {A : Type ℓ} → (ℕ → A) → ℕ → A → ℕ → A
update f i a j = if i == j then a else f j

abbrev pub new_availability : {C : Type 0} → List C → Sharded C
new_availability clients = record {
  clients = clients;
  last_error = λ _. zero_time;
  error_expiry = λ _. pos 0;
}

module _ {C : Type 0} (env : Env) where
  -- `lastError.IsZero() || time.Since(lastError) > expiry`
  unfoldable pub is_eligible : Sharded C → ℕ → M Bool
  is_eligible s i =
      if is_zero (s.last_error i)
      then pure true
      else (now env >>= λ t. pure (ltb_ℤ (s.error_expiry i) (since t (s.last_error i))))

  -- The loop over the clients from place `i` on, of which `n` are left.
  unfoldable pub eligible_from : ℕ → ℕ → Sharded C → M (List ℕ)
  eligible_from zero i s = pure []
  eligible_from (suc n) i s = is_eligible s i >>= λ here.
      eligible_from n (suc i) s >>= λ rest. pure (if here then i ∷ rest else rest)

  unfoldable pub select_available : Sharded C → M (Outcome ℕ)
  unfolding eligible_from is_eligible
  select_available s = do
    eligible ← eligible_from (length s.clients) 0 s
    if length eligible == 0 then pure (fail no_live_clients) else do
      k ← draw env (length eligible)
      i ← lift (or_panic (get_elem? eligible k))
      pure (done i)

  -- `c.lastError[client].IsZero() || time.Since(c.lastError[client]) > failedClientExpiry`
  unfoldable pub is_forgiven : Sharded C → ℕ → M Bool
  is_forgiven s i =
      if is_zero (s.last_error i)
      then pure true
      else (now env >>= λ t. pure (ltb_ℤ failed_client_expiry (since t (s.last_error i))))

  -- What Conn does under its mutex when client `i` has failed.
  unfoldable pub note_failure : Sharded C → ℕ → M (Sharded C)
  unfolding is_forgiven
  note_failure s i = do
    forgiven ← is_forgiven s i
    let expiry = if forgiven then initial_expiry else double (s.error_expiry i)
    t ← now env
    pure (record s {
      error_expiry = update s.error_expiry i expiry;
      last_error = update s.last_error i t;
    })

module _ {C : Type 0} (I : Client C) (env : Env) where
  unfoldable pub conn : ℕ → Sharded C → M (Sharded C × Outcome PersistentConn)
  conn zero s = lift out_of_fuel
  conn (suc fuel) s = select_available env s >>= λ selected. elim selected [
    | fail e ↦ pure (s, fail e)
    | done i ↦ lift (or_panic (get_elem? s.clients i)) >>= λ client. I.conn client >>= λ r.
        let s' = record s { clients = set s.clients i r.0 } in
        elim r.1 [
          | done pc ↦ pure (s', done pc)
          | fail e ↦ note_failure env s' i >>= λ s''. conn fuel s''
        ]
  ]
