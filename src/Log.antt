-- ===== src/Log.antt =====
-- internal/pkg/log/logger/logger.go: the levels and the configuration that the logger backends
-- share, and the file that they log to.
--
-- A backend is a method set over the state `W` of the outside, which holds the files, what was
-- written, and for a shared logger the logger itself.
pub mod Levels
pub mod Logrus
pub mod Zerolog
pub mod Zap
pub mod Std
pub mod Global
mod Tests
use go_project_example.Base.{
  ◌||◌, ℕ, ltb, Bool, true, false, List, [], ◌∷◌, Option, none, some, Bytes, codes, ℤ, pos, ltb_ℤ,
  eqb_ℤ, if◌then◌else◌,
}
use go_project_example.Text.{bytes_eq}
use go_project_example.Text.Case.{to_lower}
use go_project_example.Text.Paths.{dir}
use go_project_example.Xerrors.{Error, sentinel}
use go_project_example.Effects.{M, return, throw, ◌>>◌, ◌>>=◌, Outcome, ok, err, panic, continue}

-- `Level`, an int, and its constants
abbrev pub Level : Type 0
Level = ℤ

abbrev pub debug_level : Level
debug_level = pos 0

abbrev pub info_level : Level
info_level = pos 1

abbrev pub warn_level : Level
warn_level = pos 2

abbrev pub error_level : Level
error_level = pos 3

abbrev pub fatal_level : Level
fatal_level = pos 4

abbrev pub debug_level_string : Bytes
debug_level_string = codes "debug"

abbrev pub info_level_string : Bytes
info_level_string = codes "info"

abbrev pub warn_level_string : Bytes
warn_level_string = codes "warn"

abbrev pub error_level_string : Bytes
error_level_string = codes "error"

abbrev pub fatal_level_string : Bytes
fatal_level_string = codes "fatal"

-- The cases of the switch of `StringToLevel`.
unfoldable level_of_lower : Bytes → Level
level_of_lower s =
    if bytes_eq s debug_level_string
    then debug_level
    else if bytes_eq s info_level_string
    then info_level
    else if bytes_eq s warn_level_string
    then warn_level
    else if bytes_eq s error_level_string
    then error_level
    else if bytes_eq s fatal_level_string
    then fatal_level
    else info_level

-- `StringToLevel`
unfoldable pub string_to_level : Bytes → Level
unfolding level_of_lower
string_to_level s = level_of_lower (to_lower s)

-- `LevelToString`
unfoldable pub level_to_string : Level → Bytes
level_to_string l =
    if eqb_ℤ l debug_level
    then debug_level_string
    else if eqb_ℤ l info_level
    then info_level_string
    else if eqb_ℤ l warn_level
    then warn_level_string
    else if eqb_ℤ l error_level
    then error_level_string
    else if eqb_ℤ l fatal_level
    then fatal_level_string
    else info_level_string

pub record Config : Type 0 where
  pub level : Level
  pub log_file : Bytes
  pub time_format : Bytes
  pub caller : Bool
  pub use_color : Bool
  pub use_json : Bool

-- `time.RFC3339`
abbrev pub default_time_format : Bytes
default_time_format = codes "2006-01-02T15:04:05Z07:00"

-- The configuration that `New` makes for a nil one.
abbrev pub default_config : Config
default_config = record {
  level = info_level;
  log_file = [];
  time_format = default_time_format;
  caller = false;
  use_color = false;
  use_json = false;
}

abbrev pub with_time_format : Config → Config
with_time_format c =
    if bytes_eq c.time_format [] then record c { time_format = default_time_format } else c

-- The level constants that logrus, zap and zerolog each have.
pub data Severity : Type 0 where
  debug info warn error fatal : Severity

-- The order of the constants.
abbrev pub rank : Severity → ℕ
rank debug = 0
rank info = 1
rank warn = 2
rank error = 3
rank fatal = 4

-- An entry at `k` does not pass a logger at `level`.
abbrev pub is_below : Severity → Severity → Bool
is_below k level = ltb (rank k) (rank level)

-- The switch on the level that each backend has: `setLevel` of logrus and of zerolog, and
-- `getLevel` of zap.
unfoldable pub severity_of : Level → Severity
severity_of l =
    if eqb_ℤ l debug_level
    then debug
    else if eqb_ℤ l info_level
    then info
    else if eqb_ℤ l warn_level
    then warn
    else if eqb_ℤ l error_level
    then error
    else if eqb_ℤ l fatal_level
    then fatal
    else info

-- The guard that each `SetLevel` begins with.
unfoldable pub in_range : Level → Level
in_range l = if ltb_ℤ l debug_level || ltb_ℤ fatal_level l then info_level else l

-- What a log method is called with: `Debug(args...)`, `Debugf(format, v...)`, `Debugln(args...)`
-- and `Debugw(message, fields)`. An argument is known by its text, and a `KV` is the list of its
-- pairs in the order of the iteration.
pub data Entry : Type 0 where
  plain : List Bytes → Entry
  formatted : Bytes → List Bytes → Entry
  line : List Bytes → Entry
  fielded : Bytes → List (Bytes × Bytes) → Entry

-- `os.MkdirAll` and `os.OpenFile` with the flags of a log file. A file that is open is known by its
-- name.
pub record Files (W : Type 0) : Type 0 where
  pub mkdir_all : Bytes → M W (Unit {0})
  pub open_file : Bytes → M W (Unit {0})

-- `os.ErrExist`
abbrev pub err_exist : Error
err_exist = sentinel (codes "file already exists")

abbrev is_err_exist : Error → Bool
is_err_exist (sentinel t) = bytes_eq t (codes "file already exists")
is_err_exist _ = false

-- An error for a directory that is there already is no error.
abbrev pub forgive : {W : Type 0} → W × Outcome (Unit {0}) → W × Outcome (Unit {0})
forgive (w, err e) = if is_err_exist e then (w, ok tt) else (w, err e)
forgive (w, ok t) = (w, ok t)
forgive (w, panic) = (w, panic)

module _ {W : Type 0} (files : Files W) where
  -- `CreateLogFile`
  unfoldable pub create_log_file : Bytes → M W Bytes
  create_log_file name = do
    λ w. forgive (files.mkdir_all (dir name) w)
    files.open_file name
    return name
