-- ===== src/Network/Silence.antt =====
-- Code that writes nothing: to obtain an upstream connection no byte is sent by the program's own code.
pub mod Clients
use dotproxy.Base.{
  ℕ, ◌≡◌, refl, ◌∙◌, Bool, true, false, List, [], ◌∷◌, Option, none, some, if◌then◌else◌, subst,
}
use dotproxy.Network.Client.{Client}
use dotproxy.Base.Run.{IfEnds, IfEnds-at, Run, ok, panic, out_of_fuel, ◌>>=◌ as run_bind}
use dotproxy.Network.World.{
  NetConn, Bytes, Error, Outcome, done, fail, Event, wrote_to, World, M, ◌>>=◌,
}

-- What has been written, the latest first.
abbrev pub writes : World → List (NetConn × Bytes)
writes [] = []
writes (wrote_to c bs r ∷ w) = (c, bs) ∷ writes w
writes (Event.clock_read t ∷ w) = writes w
writes (Event.drawn n k ∷ w) = writes w
writes (Event.dialed o ∷ w) = writes w
writes (Event.accepted o ∷ w) = writes w
writes (Event.closed c ∷ w) = writes w
writes (Event.closing c ∷ w) = writes w
writes (Event.read_from c n r ∷ w) = writes w
writes (Event.destroying c ∷ w) = writes w
writes (Event.releasing c ∷ w) = writes w
writes (Event.emitted m ∷ w) = writes w

-- From the trace `w` on nothing was written.
abbrev pub IsUnwritten : {A : Type 0} → World → A × World → Type 0
IsUnwritten w r = writes r.1 ≡ writes w

-- Nothing before, and nothing after.
pub IfEnds-trans :
    {A : Type 0} (w w' : World) (r : Run (A × World))
    → writes w' ≡ writes w
    → IfEnds (IsUnwritten w') r
    → IfEnds (IsUnwritten w) r
IfEnds-trans w w' (ok a) e p = p ∙ e
IfEnds-trans w w' panic e p = tt
IfEnds-trans w w' out_of_fuel e p = tt

-- Conn writes nothing.
abbrev pub IsSilent : {C : Type 0} → Client C → Type 0
IsSilent {C} I = (c : C) (w : World) → IfEnds (IsUnwritten w) (I.conn c w)
