-- ===== src/Log/Logrus/Levels.antt =====
-- Which entries a logger of internal/pkg/log/logger/logrus/logrus.go lets through.
use go_project_example.Base.{
  ◌≡◌, refl, ◌∙◌, false, inl, inr, List, [], ◌∷◌, Option, eqb_ℤ, Bool-cases,
}
use go_project_example.Text.{bytes_eq}
use go_project_example.Effects.{ok, panic, return, Gives, continue-Gives, continue-Gives_all}
use go_project_example.Log.{
  Level, Config, Files, severity_of, in_range, with_time_format, create_log_file,
}
use go_project_example.Log.Levels.{Leveled, IsInStep, set_all}
use go_project_example.Log.Logrus.{
  Library, Logger, new, new_logger, set_config, set_level, or_default, configured,
}

module _ {W : Type 0} (lib : Library W) (files : Files W) where
  abbrev pub leveled : Leveled (Logger lib files)
  leveled = record {
    set = set_level lib files;
    threshold = λ l. lib.get_level l.native;
    level = λ l. l.config.level;
  }

  get_level-configured :
      (c : Config) (n : lib.Native) → lib.get_level (configured lib files c n) ≡ severity_of c.level
  get_level-configured c n = lib.get_level-set_level (severity_of c.level) _

  new_logger-Gives :
      (c : Config) (w : W)
      → Gives (λ n. lib.get_level n ≡ severity_of c.level) (new_logger lib files c w)
  unfolding new_logger
  new_logger-Gives c w = elim (Bool-cases (bytes_eq c.log_file [])) [
    | inl nowhere ↦ rw nowhere (get_level-configured c lib.new)
    | inr somewhere ↦ rw somewhere (
        continue-Gives_all (λ n. lib.get_level n ≡ severity_of c.level)
          (λ file. return (configured lib files c (lib.set_output file lib.new)))
          (create_log_file files c.log_file w)
          (λ file t. get_level-configured c (lib.set_output file lib.new)))
  ]

  -- What `New` makes.
  abbrev IsNew : Config → Logger lib files → Type 0
  IsNew c l = (l.config ≡ c) × IsInStep leveled l × (l.mu ≡ false)

  new-Gives :
      (config : Option Config) (w : W)
      → Gives (IsNew (with_time_format (or_default lib files config))) (new lib files config w)
  unfolding new
  new-Gives config w =
      let c : Config = with_time_format (or_default lib files config) in
      continue-Gives (λ n. lib.get_level n ≡ severity_of c.level) (IsNew c)
        (λ n. return (record { native = n; config = c; mu = false })) (new_logger lib files c w)
        (new_logger-Gives c w) (λ n t at. (refl, at, refl))

  mu-set_level : (v : Level) (l : Logger lib files) → (set_level lib files v l).mu ≡ l.mu
  unfolding set_level
  mu-set_level v l = elim (Bool-cases (eqb_ℤ (in_range v) l.config.level)) [
    | inl same ↦ rw same refl
    | inr other ↦ rw other refl
  ]

  mu-set_all :
      (vs : List Level) (l : Logger lib files) → (set_all (set_level lib files) vs l).mu ≡ l.mu
  mu-set_all [] l = refl
  mu-set_all (v ∷ vs) l = mu-set_all vs (set_level lib files v l) ∙ mu-set_level v l

  -- `SetConfig` panics on every logger that `New` made, whatever levels were set since and whatever
  -- configuration it is given.
  set_config-new :
      (config : Option Config) (w w' : W) (l : Logger lib files) (vs : List Level)
      (replacement : Option Config) (u : W)
      → new lib files config w ≡ (w', ok l)
      → set_config lib files replacement (set_all (set_level lib files) vs l) u ≡ (u, panic)
  unfolding set_config
  set_config-new config w w' l vs replacement u made =
      let (kept, in_step, bare) = rw made at (new-Gives config w) in rw (mu-set_all vs l, bare) refl
