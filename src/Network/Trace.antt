-- ===== src/Network/Trace.antt =====
-- What a trace says of a connection: how often it was opened, closed, and handed over to be given up.
use mathlib.Core.Logic.{∥∥₁_elim}
use mathlib.Core.List.{Permᴰ}
use native.Mathlib.Nat.{ℕ_set}
use dotproxy.Base.{
  ℕ, ◌+◌, ◌≡◌, refl, ap, ◌∙◌, List, [], ◌∷◌, ◌++◌, Perm, arith, ◌==◌, if◌then◌else◌,
}
use dotproxy.Network.World.{
  NetConn, done, Event, dialed, accepted, destroying, releasing, closed, closing, World,
}

abbrev pub hit : NetConn → NetConn → ℕ
hit c d = if d == c then 1 else 0

abbrev pub count : NetConn → List NetConn → ℕ
count c [] = 0
count c (d ∷ ds) = hit c d + count c ds

abbrev pub opens_in : NetConn → Event → ℕ
opens_in c (dialed (done d)) = hit c d
opens_in c (accepted (done d)) = hit c d
opens_in c _ = 0

-- A close that is on its way counts as made.
abbrev pub closes_in : NetConn → Event → ℕ
closes_in c (closed d) = hit c d
closes_in c (closing d) = hit c d
closes_in c _ = 0

-- A connection is handed to a goroutine that will destroy it, or close it.
abbrev pub marks_in : NetConn → Event → ℕ
marks_in c (destroying d) = hit c d
marks_in c (releasing d) = hit c d
marks_in c _ = 0

-- The calls of `go upstream.Close()`, and of `go upstream.Destroy()`.
abbrev pub releases_in : NetConn → Event → ℕ
releases_in c (releasing d) = hit c d
releases_in c _ = 0

abbrev pub discards_in : NetConn → Event → ℕ
discards_in c (destroying d) = hit c d
discards_in c _ = 0

abbrev pub releases : NetConn → World → ℕ
releases c [] = 0
releases c (e ∷ w) = releases_in c e + releases c w

abbrev pub discards : NetConn → World → ℕ
discards c [] = 0
discards c (e ∷ w) = discards_in c e + discards c w

abbrev pub opens : NetConn → World → ℕ
opens c [] = 0
opens c (e ∷ w) = opens_in c e + opens c w

abbrev pub closes : NetConn → World → ℕ
closes c [] = 0
closes c (e ∷ w) = closes_in c e + closes c w

abbrev pub marks : NetConn → World → ℕ
marks c [] = 0
marks c (e ∷ w) = marks_in c e + marks c w

count-permᴰ : (c : NetConn) {xs ys : List NetConn} → Permᴰ xs ys → count c xs ≡ count c ys
count-permᴰ c Permᴰ.nil = refl
count-permᴰ c (Permᴰ.cons e p) = omega (arith, ap (hit c) e, count-permᴰ c p)
count-permᴰ c (Permᴰ.swap e f) = omega (arith, ap (hit c) e, ap (hit c) f)
count-permᴰ c (Permᴰ.trans p q) = count-permᴰ c p ∙ count-permᴰ c q

pub count-perm : (c : NetConn) {xs ys : List NetConn} → Perm xs ys → count c xs ≡ count c ys
count-perm c p = ∥∥₁_elim p (ℕ_set _ _) (count-permᴰ c)

pub count-append :
    (c : NetConn) (xs ys : List NetConn) → count c (xs ++ ys) ≡ count c xs + count c ys
count-append c [] ys = omega arith
count-append c (x ∷ xs) ys = omega (arith, count-append c xs ys)
