-- ===== src/Log/Logrus.antt =====
-- internal/pkg/log/logger/logrus/logrus.go: the backend over github.com/sirupsen/logrus, which is
-- a parameter.
pub mod Levels
use go_project_example.Base.{
  ℕ, Bool, true, false, not, List, [], ◌∷◌, Option, none, some, Bytes, codes, ◌≡◌, eqb_ℤ,
  if◌then◌else◌,
}
use go_project_example.Text.{bytes_eq}
use go_project_example.Xerrors.{Error}
use go_project_example.Effects.{Outcome, ok, err, panic, M, return, crash, ◌>>=◌, continue}
use go_project_example.Log.{
  Level, Config, Severity, Entry, Files, default_config, with_time_format, severity_of, in_range,
  is_below, create_log_file,
}

-- `logrus.JSONFormatter` and `logrus.TextFormatter`, with the fields that are set.
pub data Formatter : Type 0 where
  json_formatter : (timestamp_format : Bytes) → Formatter
  text_formatter : (disable_colors : Bool) (timestamp_format : Bytes) → Formatter

-- `logrus.Logger`, with what the package documents of it: `SetLevel` sets the level, and a call has no
-- effect below that level. `set_output` is given the file that is written beside standard error, and
-- `log` stands for `Debug`, `Debugf`, `Debugln` and `WithFields(fields).Debugln`, and for those of the
-- other levels.
pub record Library (W : Type 0) : Type 1 where
  pub Native : Type 0
  pub new : Native
  pub set_output : Bytes → Native → Native
  pub set_formatter : Formatter → Native → Native
  pub set_report_caller : Bool → Native → Native
  pub set_level : Severity → Native → Native
  pub get_level : Native → Severity
  pub log : Severity → Entry → Native → M W (Unit {0})
  pub get_level-set_level : (k : Severity) (l : Native) → get_level (set_level k l) ≡ k
  pub log_below :
      (k : Severity) (e : Entry) (l : Native) (w : W)
      → is_below k (get_level l) ≡ true
      → log k e l w ≡ (w, ok tt)

module _ {W : Type 0} (lib : Library W) (files : Files W) where
  open lib use {Native}

  -- `Logger`. `mu` says whether the pointer to the mutex is set.
  pub record Logger : Type 0 where
    pub native : Native
    pub config : Config
    pub mu : Bool

  abbrev formatter : Config → Formatter
  formatter c =
      if c.use_json
      then json_formatter c.time_format
      else text_formatter (not c.use_color) c.time_format

  -- `newLogger`, from the formatter on
  abbrev configured : Config → Native → Native
  configured c l =
      lib.set_level (severity_of c.level)
        (lib.set_report_caller c.caller (lib.set_formatter (formatter c) l))

  -- `newLogger`
  unfoldable pub new_logger : Config → M W Native
  new_logger c =
      if bytes_eq c.log_file []
      then return (configured c lib.new)
      else (create_log_file files c.log_file >>= λ file.
          return (configured c (lib.set_output file lib.new)))

  abbrev or_default : Option Config → Config
  or_default none = default_config
  or_default (some c) = c

  -- `New`
  unfoldable pub new : Option Config → M W Logger
  unfolding new_logger
  new config = do
    let c = with_time_format (or_default config)
    native ← new_logger c
    return (record { native = native; config = c; mu = false })

  -- `DefaultLogger`
  abbrev pub default_logger : Logger
  default_logger = record {
    native = lib.set_level (severity_of default_config.level) (
        lib.set_formatter (text_formatter (not default_config.use_color) default_config.time_format)
          lib.new);
    config = default_config;
    mu = false;
  }

  -- `SetConfig`: a lock of a nil mutex panics.
  unfoldable pub set_config : Option Config → Logger → M W Logger
  unfolding new_logger
  set_config config l =
      if l.mu
      then elim config [
        | none ↦ return l
        | some c ↦ (new_logger c >>= λ native. return (record l { native = native }))
      ]
      else crash

  -- `SetLevel`
  unfoldable pub set_level : Level → Logger → Logger
  set_level level l = if eqb_ℤ (in_range level) l.config.level then l else record l {
    native = lib.set_level (severity_of (in_range level)) l.native;
    config = record (l.config) { level = in_range level };
  }

  -- `Debug`, `Debugf`, `Debugln`, `Debugw`, and so on for the other levels
  unfoldable pub log : Severity → Entry → Logger → M W (Unit {0})
  log k e l = lib.log k e l.native
