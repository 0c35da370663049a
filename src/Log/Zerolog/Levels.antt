-- ===== src/Log/Zerolog/Levels.antt =====
-- Which entries a logger of internal/pkg/log/logger/zerolog/zerolog.go lets through, before and after
-- `SetConfig`.
use go_project_example.Base.{
  ◌≡◌, refl, sym, ap, ◌∙◌, inl, inr, [], Option, some, eqb_ℤ, Bool-cases, if◌then◌else◌,
}
use go_project_example.Text.{bytes_eq}
use go_project_example.Text.Paths.{dir}
use go_project_example.Effects.{ok, return, ◌>>◌, Gives, continue-Gives, continue-Gives_all}
use go_project_example.Log.{Level, Config, Files, severity_of, in_range, with_time_format}
use go_project_example.Log.Levels.{
  Leveled, IsInStep, severity_of-in_range, eq_of_eqb, level-with_time_format,
}
use go_project_example.Log.Zerolog.{
  Library, Logger, new, new_logger, set_config, set_level, or_default, configured, set_native,
  Writer, and_file, writer,
}

module _ {W : Type 0} (lib : Library W) (files : Files W) where
  abbrev pub leveled : Leveled (Logger lib files)
  leveled = record {
    set = set_level lib files;
    threshold = λ l. lib.get_level l.native;
    level = λ l. l.config.level;
  }

  get_level-set_native :
      (v : Level) (n : lib.Native) → lib.get_level (set_native lib files v n) ≡ severity_of v
  get_level-set_native v n = lib.get_level-level (severity_of v) n

  -- What `SetLevel` makes of the level of the native logger, in step or not.
  set_level_lem :
      (v : Level) (l : Logger lib files)
      → lib.get_level (set_level lib files v l).native
        ≡ (if eqb_ℤ (in_range v) l.config.level then lib.get_level l.native else severity_of v)
  unfolding set_level
  set_level_lem v l = elim (Bool-cases (eqb_ℤ (in_range v) l.config.level)) [
    | inl same ↦ rw same refl
    | inr other ↦ rw other (get_level-set_native (in_range v) l.native ∙ severity_of-in_range v)
  ]

  set_level-threshold :
      (v : Level) (l : Logger lib files)
      → IsInStep leveled l
      → lib.get_level (set_level lib files v l).native ≡ severity_of v
  set_level-threshold v l h =
      set_level_lem v l ∙ elim (Bool-cases (eqb_ℤ (in_range v) l.config.level)) [
        | inl same ↦ rw same (
            h
            ∙ ap severity_of (sym (eq_of_eqb (in_range v) l.config.level same))
            ∙ severity_of-in_range v)
        | inr other ↦ rw other refl
      ]

  set_level-IsInStep :
      (v : Level) (l : Logger lib files)
      → IsInStep leveled l
      → IsInStep leveled (set_level lib files v l)
  unfolding set_level
  set_level-IsInStep v l h = elim (Bool-cases (eqb_ℤ (in_range v) l.config.level)) [
    | inl same ↦ rw same h
    | inr other ↦ rw other (get_level-set_native (in_range v) l.native)
  ]

  get_level-configured :
      (c : Config) (out : Writer) → lib.get_level (configured lib files c out) ≡ severity_of c.level
  get_level-configured c out = elim (Bool-cases c.caller) [
    | inl shown ↦
        rw shown (lib.get_level-with_caller _ ∙ get_level-set_native c.level (lib.new out))
    | inr hidden ↦ rw hidden (get_level-set_native c.level (lib.new out))
  ]

  abbrev IsAt : Config → lib.Native → Type 0
  IsAt c n = lib.get_level n ≡ severity_of c.level

  new_logger-Gives : (c : Config) (w : W) → Gives (IsAt c) (new_logger lib files c w)
  unfolding new_logger
  new_logger-Gives c w = elim (Bool-cases (bytes_eq c.log_file [])) [
    | inl nowhere ↦ rw nowhere (
        continue-Gives_all (IsAt c) (λ _. return (configured lib files c (writer lib files c)))
          (lib.set_globals c.time_format 4 w) (λ _ t. get_level-configured c (writer lib files c)))
    | inr somewhere ↦
        let filed : Writer = and_file (writer lib files c) c.log_file in
        rw somewhere (
          continue-Gives_all (IsAt c)
            (λ _.
              files.mkdir_all (dir c.log_file)
              >> files.open_file c.log_file
              >> return (configured lib files c filed))
            (lib.set_globals c.time_format 4 w)
            (λ _ t.
              continue-Gives_all (IsAt c) (λ _. return (configured lib files c filed))
                ((files.mkdir_all (dir c.log_file) >> files.open_file c.log_file) t)
                (λ _ u. get_level-configured c filed)))
  ]

  -- What `New` makes.
  abbrev IsNew : Config → Logger lib files → Type 0
  IsNew c l = (l.config ≡ c) × IsInStep leveled l

  new-Gives :
      (config : Option Config) (w : W)
      → Gives (IsNew (with_time_format (or_default lib files config))) (new lib files config w)
  unfolding new
  new-Gives config w =
      let c : Config = with_time_format (or_default lib files config) in
      continue-Gives (IsAt c) (IsNew c) (λ n. return (record { native = n; config = c }))
        (new_logger lib files c w) (new_logger-Gives c w) (λ n t at. (refl, at))

  -- A logger with the configuration that `New` was given, at the level of another one.
  abbrev IsReset : Config → Config → Logger lib files → Type 0
  IsReset old c l = (l.config ≡ old) × IsAt c l.native

  set_config-Gives :
      (c : Config) (l : Logger lib files) (w : W)
      → Gives (IsReset l.config c) (set_config lib files (some c) l w)
  unfolding set_config
  set_config-Gives c l w =
      continue-Gives (IsAt c) (IsReset l.config c) (λ n. return (record l { native = n }))
        (new_logger lib files c w) (new_logger-Gives c w) (λ n t at. (refl, at))

  -- After `New` and a `SetConfig`, both without an error, the native logger logs at the level of the new
  -- configuration; but a `SetLevel` that asks for the level that `New` was given leaves it there, since
  -- it is compared with that level, and any other level is applied.
  set_level-set_config :
      (config : Option Config) (c : Config) (w w' u u' : W) (l l' : Logger lib files) (v : Level)
      → new lib files config w ≡ (w', ok l)
      → set_config lib files (some c) l u ≡ (u', ok l')
      → (lib.get_level l'.native ≡ severity_of c.level)
        × (lib.get_level (set_level lib files v l').native ≡ (
            if eqb_ℤ (in_range v) (or_default lib files config).level
            then severity_of c.level
            else severity_of v))
  set_level-set_config config c w w' u u' l l' v made reset =
      let (kept, in_step) = rw made at (new-Gives config w) in
      let (same, at) = rw reset at (set_config-Gives c l u) in
      let level : l'.config.level ≡ (or_default lib files config).level =
        ap (λ (k : Config). k.level) (same ∙ kept)
        ∙ level-with_time_format (or_default lib files config) in
      (at, rw (set_level_lem v l', level, at) refl)
