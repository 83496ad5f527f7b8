-- ===== src/Meta/Config/Parsing.antt =====
-- internal/meta/config.go: what ParseConfig makes of a file.
use dotproxy.Base.{◌≡◌, refl, ◌↔◌, Bool, Option, none, some, subst, Option-cases, inl, inr}
use dotproxy.Base.Run.{Run, ok, panic}
use dotproxy.Network.World.{Bytes, Error, Outcome, Outcome-cases, done, fail}
use dotproxy.Meta.Config.{
  Text, Config, ConfigError, Parsed, parsed, refused, not_read, not_parsed, not_valid, validate,
  parse_config,
}
use dotproxy.Meta.Config.Validation.{IsMetrics, IsListener, IsUpstream}
use dotproxy.Meta.Config.Validation.Whole.{validate_iff}

module _ {F : Type 0} (read_file : Text → Outcome Bytes)
    (unmarshal : Bytes → Outcome (Option (Config F))) (path : Text) where
  -- The document that the file holds, for the library; a nil one is `none`.
  abbrev pub Holds : Option (Config F) → Type 0
  Holds document =
      (bytes : Bytes) × (read_file path ≡ done bytes) × (unmarshal bytes ≡ done document)

  abbrev parse : (Config F → Option ConfigError) → Run (Parsed F)
  parse check = parse_config read_file unmarshal check path

  -- The ways in which ParseConfig ends, with the reason.
  pub data ParsedBy (check : Config F → Option ConfigError) : Run (Parsed F) → Type 0 where
    by_reading : (e : Error) → read_file path ≡ fail e → ParsedBy check (ok (refused (not_read e)))
    by_parsing :
        (e : Error) (bytes : Bytes)
        → read_file path ≡ done bytes
        → unmarshal bytes ≡ fail e
        → ParsedBy check (ok (refused (not_parsed e)))
    by_nil : Holds none → ParsedBy check panic
    by_validation :
        (e : ConfigError) (c : Config F)
        → Holds (some c)
        → check c ≡ some e
        → ParsedBy check (ok (refused (not_valid e)))
    accepted : (c : Config F) → Holds (some c) → check c ≡ none → ParsedBy check (ok (parsed c))

  document_cases :
      (document : Option (Config F)) (check : Config F → Option ConfigError)
      → Holds document
      → ParsedBy check (elim document [
        | none ↦ panic
        | some cfg ↦ elim (check cfg) [
          | some e ↦ ok (refused (not_valid e))
          | none ↦ ok (parsed cfg)
        ]
      ])
  document_cases none check held = ParsedBy.by_nil held
  document_cases (some c) check held = elim (Option-cases (check c)) [
    | inl e ↦ rw e (ParsedBy.accepted c held e)
    | inr (x, e) ↦ rw e (ParsedBy.by_validation x c held e)
  ]

  pub parse_config-ParsedBy : (check : Config F → Option ConfigError) → ParsedBy check (parse check)
  unfolding parse_config
  parse_config-ParsedBy check = elim (Outcome-cases (read_file path)) [
    | inr (e, here) ↦ rw (parse_config, here) (ParsedBy.by_reading e here)
    | inl (bytes, here) ↦
        rw (parse_config, here)
          (elim (Outcome-cases (unmarshal bytes)) [
            | inr (e, there) ↦ rw there (ParsedBy.by_parsing e bytes here there)
            | inl (document, there) ↦ rw there (document_cases document check (bytes, here, there))
          ])
  ]

  parsed_inj : (a b : Config F) → ok (parsed a) ≡ ok (parsed b) → a ≡ b
  parsed_inj a b e = cc

  accepted_only :
      (check : Config F → Option ConfigError) (r : Run (Parsed F)) (c : Config F)
      → ParsedBy check r
      → r ≡ ok (parsed c)
      → Holds (some c) × (check c ≡ none)
  accepted_only check _ c (ParsedBy.by_reading e here) same = absurd (cc)
  accepted_only check _ c (ParsedBy.by_parsing e bytes here there) same = absurd (cc)
  accepted_only check _ c (ParsedBy.by_nil held) same = absurd (cc)
  accepted_only check _ c (ParsedBy.by_validation e d held bad) same = absurd (cc)
  accepted_only check _ c (ParsedBy.accepted d held good) same =
      subst (λ c. Holds (some c) × (check c ≡ none)) (parsed_inj d c same) (held, good)

  nil_only :
      (check : Config F → Option ConfigError) (r : Run (Parsed F))
      → ParsedBy check r
      → r ≡ panic
      → Holds none
  nil_only check _ (ParsedBy.by_reading e here) same = absurd (cc)
  nil_only check _ (ParsedBy.by_parsing e bytes here there) same = absurd (cc)
  nil_only check _ (ParsedBy.by_nil held) same = held
  nil_only check _ (ParsedBy.by_validation e d held bad) same = absurd (cc)
  nil_only check _ (ParsedBy.accepted d held good) same = absurd (cc)

  -- ParseConfig gives a configuration exactly if the file holds it and its metrics, its listeners
  -- and its upstream are as they must be; it panics exactly if the document in the file is nil, as
  -- an empty one is.
  pub parse_config_iff :
      (below_0 above_1 : F → Bool) (is_policy : Text → Bool)
      → let run = parse (validate below_0 above_1 is_policy) in
        ((c : Config F)
          → (run ≡ ok (parsed c))
            ↔ Holds (some c)
              × IsMetrics below_0 above_1 c.metrics
              × IsListener c.listener
              × IsUpstream is_policy c.upstream)
        × ((run ≡ panic) ↔ Holds none)
  unfolding parse_config
  parse_config_iff below_0 above_1 is_policy =
      let check = validate below_0 above_1 is_policy in
      let ends = parse_config-ParsedBy check in
      (
        λ c. (
          λ e.
              let (held, good) = accepted_only check (parse check) c ends e in
              let (m, l, u) = (validate_iff below_0 above_1 is_policy c).0 good in (held, m, l, u),
          λ h.
              let (bytes, here, there) = h.0 in
              rw
                (
                  parse_config,
                  here,
                  there,
                  (validate_iff below_0 above_1 is_policy c).1 (h.1, h.2, h.3),
                )
                refl,
        ),
        (
          nil_only check (parse check) ends,
          λ h. let (bytes, here, there) = h in rw (parse_config, here, there) refl,
        ),
      )
