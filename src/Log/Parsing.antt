-- ===== src/Log/Parsing.antt =====
-- internal/log/level.go and console.go: which level a name is parsed to, and which messages a level
-- lets through.
use Prim.Native.String.{String}
use dotproxy.Base.{
  ℕ, ◌≤◌, ◌≡◌, refl, true, List, [], ◌∷◌, arith, Bool-cases, some, get_elem?, inl, inr, leb, leb→le,
}
use dotproxy.Base.Time.{Time}
use dotproxy.Base.Names.{Found, find_named-Found, find_named-name}
use dotproxy.Log.{
  Level, debug, info, warn, error, rank, enables, known_levels, parse_level, ConsoleLogger, log,
}

at_rank : (l : Level) → get_elem? known_levels (rank l) ≡ some l
at_rank debug = refl
at_rank info = refl
at_rank warn = refl
at_rank error = refl

-- ParseLevel gives the first level, from Debug to Error, that the text names when the case of letters
-- is left aside, or Error with false when it names none.
pub parse_level-Found :
    (to_lower : String → String) (name : Level → String) (text : String)
    → Found to_lower name error text known_levels (parse_level to_lower name text)
unfolding parse_level
parse_level-Found to_lower name text = find_named-Found to_lower name error text known_levels

-- Where no two levels share a name in lower case, ParseLevel reads back the name of every level.
pub parse_level-name :
    (to_lower : String → String) (name : Level → String) (l : Level)
    → ((a b : Level) → to_lower (name a) ≡ to_lower (name b) → a ≡ b)
    → parse_level to_lower name (name l) ≡ (l, true)
unfolding parse_level
parse_level-name to_lower name l distinct =
    find_named-name to_lower name distinct error known_levels (rank l) l (at_rank l)

-- A message with its level and its time.
abbrev pub Message : Type 0 → Type 0
Message M = Level × Time × M

le→leb : (a b : ℕ) → a ≤ b → leb a b ≡ true
le→leb a b h = ground arith

module _ {M : Type 0} (name : Level → String) (format_time : Time → String)
    (sprintf : M → String) where
  -- What a logger writes for messages, which come the latest first.
  abbrev pub written : ConsoleLogger → List (Message M) → List String
  written l [] = []
  written l ((level, now, m) ∷ ms) = log name format_time sprintf l level now m (written l ms)

  -- The lines `xs` are among the lines `ys`, in order.
  pub data Among : List String → List String → Type 0 where
    nothing : Among [] []
    both : (s : String) {xs ys : List String} → Among xs ys → Among (s ∷ xs) (s ∷ ys)
    skipped : (s : String) {xs ys : List String} → Among xs ys → Among xs (s ∷ ys)

  -- Of the same messages, a logger writes, in order, every line that a logger of a less verbose level
  -- writes.
  pub written-Among :
      (l l' : ConsoleLogger) (ms : List (Message M))
      → rank l.level ≤ rank l'.level
      → Among (written l' ms) (written l ms)
  unfolding log enables
  written-Among l l' [] less = nothing
  written-Among l l' ((level, now, m) ∷ ms) less =
      let rest = written-Among l l' ms less in
      elim (Bool-cases (leb (rank l'.level) (rank level))) [
        | inl e' ↦ rw e' (
            rw
              (le→leb (rank l.level) (rank level)
                (omega (arith, leb→le (rank l'.level) (rank level) e', less)))
              (both _ rest))
        | inr e' ↦ elim (Bool-cases (leb (rank l.level) (rank level))) [
          | inl e ↦ rw e' (rw e (skipped _ rest))
          | inr e ↦ rw e' (rw e rest)
        ]
      ]
