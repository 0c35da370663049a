-- ===== src/Log/Zerolog.antt =====
-- internal/pkg/log/logger/zerolog/zerolog.go: the backend over github.com/rs/zerolog, which is a
-- parameter.
pub mod Levels
use go_project_example.Base.{
  ℕ, Bool, true, false, not, List, [], ◌∷◌, Option, none, some, Bytes, ◌≡◌, eqb_ℤ, if◌then◌else◌,
}
use go_project_example.Text.{bytes_eq}
use go_project_example.Text.Paths.{dir}
use go_project_example.Xerrors.{Error}
use go_project_example.Effects.{Outcome, ok, err, panic, M, return, ◌>>=◌, ◌>>◌, continue}
use go_project_example.Log.{
  Level, Config, Severity, Entry, Files, default_config, with_time_format, severity_of, in_range,
  is_below,
}

-- What `zerolog.New` is given: standard error, bare or under a `ConsoleWriter`, or such a writer and a
-- file.
pub data Writer : Type 0 where
  stderr : Writer
  console : (no_color : Bool) (time_format : Bytes) → Writer
  and_file : Writer → Bytes → Writer

-- `zerolog.Logger`, a value, with what the package documents of it: `Level` sets the level,
-- `With().Caller().Logger()` leaves it, and an event has no effect below it. `log` stands for
-- `Debug().Timestamp()` with `Msg`, `Msgf` or `Fields`, and for those of the other levels. The time
-- format and the frames to skip are package variables, which `set_globals` writes.
pub record Library (W : Type 0) : Type 1 where
  pub Native : Type 0
  pub new : Writer → Native
  pub level : Severity → Native → Native
  pub with_caller : Native → Native
  pub get_level : Native → Severity
  pub set_globals : Bytes → ℕ → M W (Unit {0})
  pub log : Severity → Entry → Native → M W (Unit {0})
  pub get_level-level : (k : Severity) (l : Native) → get_level (level k l) ≡ k
  pub get_level-with_caller : (l : Native) → get_level (with_caller l) ≡ get_level l
  pub log_below :
      (k : Severity) (e : Entry) (l : Native) (w : W)
      → is_below k (get_level l) ≡ true
      → log k e l w ≡ (w, ok tt)

module _ {W : Type 0} (lib : Library W) (files : Files W) where
  open lib use {Native}

  -- `Logger`
  pub record Logger : Type 0 where
    pub native : Native
    pub config : Config

  abbrev console_writer : Config → Writer
  console_writer c = console (not c.use_color) c.time_format

  abbrev pub set_native : Level → Native → Native
  set_native level = lib.level (severity_of level)

  -- `newLogger`, once the writers are known
  abbrev pub configured : Config → Writer → Native
  configured c out =
      let l : Native = set_native c.level (lib.new out) in if c.caller then lib.with_caller l else l

  abbrev writer : Config → Writer
  writer c = if c.use_json then stderr else console_writer c

  -- `newLogger`
  unfoldable pub new_logger : Config → M W Native
  new_logger c =
      lib.set_globals c.time_format 4
      >> (if bytes_eq c.log_file []
          then return (configured c (writer c))
          else (files.mkdir_all (dir c.log_file)
              >> files.open_file c.log_file
              >> return (configured c (and_file (writer c) c.log_file))))

  abbrev pub or_default : Option Config → Config
  or_default none = default_config
  or_default (some c) = c

  -- `New`
  unfoldable pub new : Option Config → M W Logger
  unfolding new_logger
  new config = do
    let c = with_time_format (or_default config)
    native ← new_logger c
    return (record { native = native; config = c })

  -- `DefaultLogger`
  abbrev pub default_logger : Logger
  default_logger = record {
    native = set_native default_config.level (lib.new (console_writer default_config));
    config = default_config;
  }

  -- `SetConfig`: the new configuration is not kept.
  unfoldable pub set_config : Option Config → Logger → M W Logger
  unfolding new_logger
  set_config none l = return l
  set_config (some c) l = do native ← new_logger c; return (record l { native = native })

  -- `SetLevel`
  unfoldable pub set_level : Level → Logger → Logger
  set_level level l = if eqb_ℤ (in_range level) l.config.level then l else record {
    native = set_native (in_range level) l.native;
    config = record (l.config) { level = in_range level };
  }

  -- `Debug`, `Debugf`, `Debugw`, and so on for the other levels
  unfoldable pub log : Severity → Entry → Logger → M W (Unit {0})
  log k e l = lib.log k e l.native
