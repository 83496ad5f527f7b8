-- ===== src/Metrics/Sequence/Tally.antt =====
-- internal/metrics/hook.go: tallies over the goroutines of EmitProcess.
use dotproxy.Base.{ℕ, suc, ◌+◌, ◌<◌, ◌≤◌, ◌≡◌, refl, ap, List, [], ◌∷◌, ◌++◌, arith, All, length}
use dotproxy.Metrics.{Tags, StatsdCall}
use dotproxy.Metrics.Sequence.{
  Stage, to_count, to_load, to_gauge, to_add, ended, has_added, tally, number,
}

pub tally-replace :
    (f : Stage → ℕ) (before after : List (Tags × Stage)) (g g' : Tags × Stage)
    → tally f (before ++ g' ∷ after) + f g.1 ≡ tally f (before ++ g ∷ after) + f g'.1
tally-replace f [] after g g' = omega arith
tally-replace f (b ∷ before) after g g' = omega (arith, tally-replace f before after g g')

pub length-replace :
    (before after : List (Tags × Stage)) (g g' : Tags × Stage)
    → length (before ++ g' ∷ after) ≡ length (before ++ g ∷ after)
length-replace [] after g g' = refl
length-replace (b ∷ before) after g g' = ap suc (length-replace before after g g')

pub All-replace :
    (P : Tags × Stage → Type 0) (before after : List (Tags × Stage)) (g g' : Tags × Stage)
    → All P (before ++ g ∷ after)
    → P g'
    → All P (before ++ g' ∷ after)
All-replace P [] after g g' all p = (p, all.1)
All-replace P (b ∷ before) after g g' all p = (all.0, All-replace P before after g g' all.1 p)

pub All-at :
    (P : Tags × Stage → Type 0) (before after : List (Tags × Stage)) (g : Tags × Stage)
    → All P (before ++ g ∷ after)
    → P g
All-at P [] after g all = all.0
All-at P (b ∷ before) after g all = All-at P before after g all.1

has_added-bound : (s : Stage) → has_added s ≤ 1
has_added-bound to_count = omega arith
has_added-bound to_load = omega arith
has_added-bound (to_gauge k) = omega arith
has_added-bound to_add = omega arith
has_added-bound ended = omega arith

tally-bound : (gs : List (Tags × Stage)) → tally has_added gs ≤ length gs
tally-bound [] = omega arith
tally-bound (g ∷ gs) = omega (arith, has_added-bound g.1, tally-bound gs)

-- A goroutine that has not ended leaves the tally of the ended below the number of all.
pub tally-lt :
    (before after : List (Tags × Stage)) (g : Tags × Stage)
    → has_added g.1 ≡ 0
    → tally has_added (before ++ g ∷ after) < length (before ++ g ∷ after)
tally-lt [] after g e = omega (arith, e, tally-bound after)
tally-lt (b ∷ before) after g e = omega (arith, has_added-bound b.1, tally-lt before after g e)

pub number-append :
    (f : StatsdCall → ℕ) (cs ds : List StatsdCall) → number f (cs ++ ds) ≡ number f cs + number f ds
number-append f [] ds = omega arith
number-append f (c ∷ cs) ds = omega (arith, number-append f cs ds)
