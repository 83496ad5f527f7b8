-- ===== src/Command/Wiring/Begin.antt =====
-- cmd/dotproxy/main.go: from the flags to the configuration.
use Prim.Native.String.{◌++◌}
use dotproxy.Base.{◌≡◌, refl, ◌∙◌, inl, inr, false, none, Bool-cases}
use dotproxy.Base.Run.{Run, ok, Returns}
use dotproxy.Network.World.{World, Env}
use dotproxy.Network.Dialer.{TlsClientOpts, TlsConfig}
use dotproxy.Log.{ConsoleLogger, new_console_logger, parse_level}
use dotproxy.Meta.Config.{Text, Config, ParseError, Parsed, parsed, validate, parse_config}
use dotproxy.Meta.Config.Parsing
use dotproxy.Meta.Config.Parsing.{Holds, ParsedBy, parse_config_iff}
use dotproxy.Command.{Libraries, Flags, showed_version, bad_config, is_policy, launch, main}
use dotproxy.Command.Wiring.{IsStarted}
use dotproxy.Command.Wiring.Launch.{launch-IsStarted}

module _ {F C : Type 0} (lib : Libraries F C) (envs : Text → TlsConfig → TlsClientOpts → Env)
    (env : Env) where
  abbrev parse_at : Text → Run (Parsed F)
  parse_at path =
      parse_config lib.read_file lib.unmarshal (validate lib.below_0 lib.above_1 (is_policy lib))
        path

  abbrev logger_of : Flags → ConsoleLogger
  logger_of flags = new_console_logger ((parse_level lib.to_lower lib.level_name flags.verbosity).0)

  run_accepted :
      (flags : Flags) (c : Config F) (w : World)
      → flags.version ≡ false
      → parse_at flags.config_path ≡ ok (parsed c)
      → main lib flags w ≡ launch lib (logger_of flags) c w
  unfolding main
  run_accepted flags c w off parse = rw (off, parse) refl

  -- With the flag for the version unset, from how ParseConfig ends.
  IsStarted-from :
      (flags : Flags) (w : World) (r : Run (Parsed F))
      → flags.version ≡ false
      → ¬ Holds lib.read_file lib.unmarshal flags.config_path none
      → ParsedBy lib.read_file lib.unmarshal flags.config_path
          (validate lib.below_0 lib.above_1 (is_policy lib))
          r
      → parse_at flags.config_path ≡ r
      → Returns (λ q. IsStarted lib envs env flags q.0 × (q.1 ≡ w)) (main lib flags w)
  unfolding main
  IsStarted-from flags w _ off given (ParsedBy.by_reading e _) parse =
      ((bad_config (ParseError.not_read e), w), rw (off, parse) refl, (parse, refl))
  IsStarted-from flags w _ off given (ParsedBy.by_parsing e bytes _ _) parse =
      ((bad_config (ParseError.not_parsed e), w), rw (off, parse) refl, (parse, refl))
  IsStarted-from flags w _ off given (ParsedBy.by_nil nil) parse = absurd (given nil)
  IsStarted-from flags w _ off given (ParsedBy.by_validation e c _ _) parse =
      ((bad_config (ParseError.not_valid e), w), rw (off, parse) refl, (parse, refl))
  IsStarted-from flags w _ off given (ParsedBy.accepted c _ _) parse =
      let (holds, _, l, u) =
        ((parse_config_iff lib.read_file lib.unmarshal flags.config_path lib.below_0 lib.above_1
              (is_policy lib)).0
            c).0
          parse in
      let logger = logger_of flags in
      let (q, e, started) = launch-IsStarted lib envs env flags logger c w holds l u in
      (q, run_accepted flags c w off parse ∙ e, started)

  pub main-IsStarted :
      (flags : Flags) (w : World)
      → ¬ Holds lib.read_file lib.unmarshal flags.config_path none
      → Returns (λ r. IsStarted lib envs env flags r.0 × (r.1 ≡ w)) (main lib flags w)
  unfolding main
  main-IsStarted flags w given = elim (Bool-cases flags.version) [
    | inl on ↦ (
      (showed_version ("dotproxy/" ++ lib.version_sha ++ "\n"), w),
      rw on refl,
      ((on, refl), refl),
    )
    | inr off ↦
        IsStarted-from flags w (parse_at flags.config_path) off given
          (Parsing.parse_config-ParsedBy lib.read_file lib.unmarshal flags.config_path
            (validate lib.below_0 lib.above_1 (is_policy lib)))
          refl
  ]
