-- ===== src/Log.antt =====
-- internal/log/level.go and console.go: levels, their names, and the logger that writes to the console.
-- The names of the levels stand in a generated file, so the text of a level is a parameter, like
-- strings.ToLower and the formatting of a message and of a time.
pub mod Parsing
use Prim.Native.String.{String, ◌++◌}
use dotproxy.Base.{ℕ, Bool, List, [], ◌∷◌, leb, if◌then◌else◌}
use dotproxy.Base.Time.{Time}
use dotproxy.Base.Names.{find_named}

pub data Level : Type 0 where
  debug info warn error : Level

-- The value of the constant.
abbrev pub rank : Level → ℕ
rank debug = 0
rank info = 1
rank warn = 2
rank error = 3

unfoldable pub enables : Level → Level → Bool
enables l other = leb (rank l) (rank other)

abbrev pub known_levels : List Level
known_levels = debug ∷ info ∷ warn ∷ error ∷ []

unfoldable pub parse_level : (String → String) → (Level → String) → String → Level × Bool
parse_level to_lower name = find_named to_lower name known_levels error

pub record ConsoleLogger : Type 0 where
  pub level : Level

abbrev pub new_console_logger : Level → ConsoleLogger
new_console_logger level = record { level = level }

-- The method Level.
abbrev pub level_of : ConsoleLogger → Level
level_of l = l.level

-- A message in `M`, format and arguments, has a text by fmt.Sprintf.
module _ {M : Type 0} (name : Level → String) (format_time : Time → String)
    (sprintf : M → String) where
  -- The lines that a logger has written, the latest first; `now` is the time of the call.
  unfoldable pub log : ConsoleLogger → Level → Time → M → List String → List String
  unfolding enables
  log l level now message out =
      if enables l.level level
      then (format_time now ++ " " ++ name level ++ "\t" ++ sprintf message ++ "\n") ∷ out
      else out

  abbrev pub log_debug : ConsoleLogger → Time → M → List String → List String
  log_debug l = log l debug

  abbrev pub log_info : ConsoleLogger → Time → M → List String → List String
  log_info l = log l info

  abbrev pub log_warn : ConsoleLogger → Time → M → List String → List String
  log_warn l = log l warn

  abbrev pub log_error : ConsoleLogger → Time → M → List String → List String
  log_error l = log l error

  -- The interface Logger, over the lines written so far.
  pub record Logger : Type 0 where
    pub debug : Time → M → List String → List String
    pub info : Time → M → List String → List String
    pub warn : Time → M → List String → List String
    pub error : Time → M → List String → List String
    pub level : Level

  -- ConsoleLogger as a Logger.
  unfoldable pub console_logger : ConsoleLogger → Logger
  console_logger l = record {
    debug = log_debug l;
    info = log_info l;
    warn = log_warn l;
    error = log_error l;
    level = level_of l;
  }
