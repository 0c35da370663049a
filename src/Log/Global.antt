-- ===== src/Log/Global.antt =====
-- internal/pkg/log/log.go: the package variables that hold a logger for each level, and the functions
-- that go through them.
pub mod Setting
use go_project_example.Base.{Bool, true, false, List, [], ◌∷◌, Option, none, some, Bytes, ℤ}
use go_project_example.Xerrors.{Error}
use go_project_example.Effects.{Outcome, ok, err, panic, M, return, ◌>>=◌, ◌>>◌, continue}
use go_project_example.Log.{
  Level, Config, Severity, debug, info, warn, error, fatal, Entry, plain, formatted, fielded,
  string_to_level,
}
use go_project_example.Log.Std
use go_project_example.Log.Std.{Process}

-- A `logger.Logger`: a pointer to a backend whose state is a part of `W`.
pub record Backend (W : Type 0) : Type 0 where
  pub set_config : Option Config → M W (Unit {0})
  pub set_level : Level → M W (Unit {0})
  pub log : Severity → Entry → M W (Unit {0})

-- `_debugLogger` and so on
pub record Loggers (W : Type 0) : Type 0 where
  pub debug_logger : Backend W
  pub info_logger : Backend W
  pub warn_logger : Backend W
  pub error_logger : Backend W
  pub fatal_logger : Backend W

-- `log.Debug`, `log.Print` and so on, with their arguments.
pub data Function : Type 0 where
  leveled : Severity → Entry → Function
  print : List Bytes → Function
  println : List Bytes → Function
  printf : Bytes → List Bytes → Function

module _ {W : Type 0} where
  -- `SetLogger`
  abbrev pub set_logger : Backend W → Loggers W
  set_logger b = record {
    debug_logger = b;
    info_logger = b;
    warn_logger = b;
    error_logger = b;
    fatal_logger = b;
  }

  -- `SetConfig`
  unfoldable pub set_config : Option Config → Loggers W → M W (Unit {0})
  set_config c g =
      g.debug_logger.set_config c
      >> g.info_logger.set_config c
      >> g.warn_logger.set_config c
      >> g.error_logger.set_config c
      >> g.fatal_logger.set_config c

  abbrev dropped : W × Outcome (Unit {0}) → W × Outcome (Unit {0})
  dropped (t, err e) = (t, ok tt)
  dropped (t, ok u) = (t, ok u)
  dropped (t, panic) = (t, panic)

  -- A call whose error is dropped.
  abbrev pub drop_error : M W (Unit {0}) → M W (Unit {0})
  drop_error m w = dropped (m w)

  -- `setLevel`
  unfoldable pub set_level : Level → Loggers W → M W (Unit {0})
  set_level v g =
      drop_error (g.debug_logger.set_level v)
      >> drop_error (g.info_logger.set_level v)
      >> drop_error (g.warn_logger.set_level v)
      >> drop_error (g.error_logger.set_level v)
      >> drop_error (g.fatal_logger.set_level v)

  -- `SetLevelString`
  unfoldable pub set_level_string : Bytes → Loggers W → M W (Unit {0})
  unfolding set_level
  set_level_string s g = set_level (string_to_level s) g

  abbrev pub logger_of : Severity → Loggers W → Backend W
  logger_of debug g = g.debug_logger
  logger_of info g = g.info_logger
  logger_of warn g = g.warn_logger
  logger_of error g = g.error_logger
  logger_of fatal g = g.fatal_logger

  -- `Debug`, `Debugf`, `Debugw`, `Print`, `Println`, `Printf`, and so on
  unfoldable pub log : Function → Loggers W → M W (Unit {0})
  log (leveled k e) g = (logger_of k g).log k e
  log (print args) g = g.info_logger.log info (plain args)
  log (println args) g = g.info_logger.log info (plain args)
  log (printf format args) g = g.info_logger.log info (formatted format args)

module _ {W : Type 0} (process : Process W) where
  -- A pointer to a logger of the std package, which may be nil, as a backend
  abbrev pub std_backend : Option Std.Logger → Backend W
  std_backend l = record {
    set_config = λ c. Std.set_config process c l;
    set_level = λ v. Std.set_level process v l;
    log = λ k e. Std.log process k e l;
  }

  -- `init`: `std.New` returns no error, so that its result is set.
  abbrev pub init : Loggers W
  init = set_logger (std_backend (Std.new none))
