-- ===== src/Network/Sharding/Failover.antt =====
-- FailoverShardedClient: the clients in order, until one gives a connection.
use dotproxy.Base.{
  suc, ◌≡◌, refl, ◌∙◌, ap, inl, inr, List, [], ◌∷◌, ◌++◌, All, length, length-append, arith,
}
use dotproxy.Base.Run.{ok, Returns}
use dotproxy.Network.World.{
  Error, all_clients_failed, Outcome, done, fail, Outcome-cases, World, M, pure, ◌>>=◌,
}
use dotproxy.Network.Pool.{PersistentConn}
use dotproxy.Network.Client.{Client, Keeps}

module _ {C : Type 0} (I : Client C) where
  -- The state of a FailoverShardedClient is its list of clients.
  unfoldable pub conn : List C → M (List C × Outcome PersistentConn)
  conn [] = pure ([], fail all_clients_failed)
  conn (c ∷ rest) = I.conn c >>= λ r. elim r.1 [
    | done pc ↦ pure (r.0 ∷ rest, done pc)
    | fail e ↦ conn rest >>= λ r'. pure (r.0 ∷ r'.0, r'.1)
  ]

  -- Each of the clients `before` was asked, in order, and failed, and is left in its state of `after`.
  pub data AllFail : List C → World → List C → World → Type 0 where
    none_asked : (w : World) → AllFail [] w [] w
    one_failed :
        (c c' : C) (before after : List C) (w w₁ w' : World) (e : Error)
        → I.conn c w ≡ ok ((c', fail e), w₁)
        → AllFail before w₁ after w'
        → AllFail (c ∷ before) w (c' ∷ after) w'

  -- All clients failed, or the first that did not gave the connection, and those behind it are as they
  -- were.
  pub data FailedOver (cs : List C) (w : World)
      : (List C × Outcome PersistentConn) × World → Type 0 where
    all_failed :
        (after : List C) (w' : World)
        → AllFail cs w after w'
        → FailedOver cs w ((after, fail all_clients_failed), w')
    one_gave :
        (before after rest : List C) (c c' : C) (pc : PersistentConn) (w₁ w' : World)
        → cs ≡ before ++ c ∷ rest
        → AllFail before w after w₁
        → I.conn c w₁ ≡ ok ((c', done pc), w')
        → FailedOver cs w ((after ++ c' ∷ rest, done pc), w')

  FailedOver-behind :
      (c c' : C) (cs : List C) (w w₁ : World) (e : Error)
      (r : (List C × Outcome PersistentConn) × World)
      → I.conn c w ≡ ok ((c', fail e), w₁)
      → FailedOver cs w₁ r
      → FailedOver (c ∷ cs) w ((c' ∷ r.0.0, r.0.1), r.1)
  FailedOver-behind c c' cs w w₁ e _ failed (all_failed after w' a) =
      FailedOver.all_failed (c' ∷ after) w' (AllFail.one_failed c c' cs after w w₁ w' e failed a)
  FailedOver-behind c c' cs w w₁ e _ failed
        (one_gave before after rest d d' pc w₂ w' split a gave) =
      FailedOver.one_gave (c ∷ before) (c' ∷ after) rest d d' pc w₂ w' (ap (◌∷◌ c) split)
        (AllFail.one_failed c c' before after w w₁ w₂ e failed a) gave

  AllFail-length :
      (before after : List C) (w w' : World)
      → AllFail before w after w'
      → length after ≡ length before
  AllFail-length _ _ w _ (none_asked _) = refl
  AllFail-length _ _ w w' (one_failed c c' before after _ w₁ _ e _ a) =
      ap suc (AllFail-length before after w₁ w' a)

  -- No client is lost.
  pub FailedOver-length :
      (cs : List C) (w : World) (r : (List C × Outcome PersistentConn) × World)
      → FailedOver cs w r
      → length r.0.0 ≡ length cs
  FailedOver-length cs w _ (all_failed after w' a) = AllFail-length cs after w w' a
  FailedOver-length cs w _ (one_gave before after rest c c' pc w₁ w' split a gave) = omega (
    arith,
    ap length split,
    AllFail-length before after w w₁ a,
    length-append before (c ∷ rest),
    length-append after (c' ∷ rest),
  )

  -- From valid clients that keep their contract, Conn ends: it asks the clients in order and stops
  -- at the first that gives a connection, which it returns, with those behind it as they were; it
  -- fails only if every client was asked and failed.
  pub conn-FailedOver :
      (V : C → Type 0) (cs : List C) (w : World)
      → Keeps V I
      → All V cs
      → Returns (λ r. All V r.0.0 × FailedOver cs w r) (conn cs w)
  unfolding conn
  conn-FailedOver V [] w keeps valid = (
    (([], fail all_clients_failed), w),
    refl,
    (tt, FailedOver.all_failed [] w (AllFail.none_asked w)),
  )
  conn-FailedOver V (c ∷ rest) w keeps (valid, others) =
      let (((c', o), w₁), called, kept) = keeps c w valid in
      elim (Outcome-cases o) [
        | inl (pc, p) ↦ (
          ((c' ∷ rest, done pc), w₁),
          rw (called, p) refl,
          (
            (kept, others),
            FailedOver.one_gave [] [] rest c c' pc w w₁ refl (AllFail.none_asked w)
                (called ∙ ap (λ o. ok ((c', o), w₁)) p),
          ),
        )
        | inr (e, p) ↦
            let (((cs', o'), w'), again, (kept', how)) = conn-FailedOver V rest w₁ keeps others in
            (
              ((c' ∷ cs', o'), w'),
              rw (called, p) (rw again refl),
              (
                (kept, kept'),
                FailedOver-behind c c' rest w w₁ e _ (called ∙ ap (λ o. ok ((c', o), w₁)) p) how,
              ),
            )
      ]
