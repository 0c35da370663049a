-- ===== src/Log/Zap.antt =====
-- internal/pkg/log/logger/zap/zap.go: the backend over go.uber.org/zap, which is a parameter.
--
-- The pointer to the configuration that the logger keeps is taken to be its own: nothing else writes
-- through it.
pub mod Levels
pub mod Pairs
use go_project_example.Base.{
  ℕ, zero, suc, ◌+◌, ◌*◌, Bool, true, false, not, List, [], ◌∷◌, ◌++◌, Option, none, some, Bytes,
  codes, ◌≡◌, eqb_ℤ, if◌then◌else◌, set, length,
}
use go_project_example.Text.{bytes_eq}
use go_project_example.Xerrors.{Error}
use go_project_example.Effects.{Outcome, ok, err, panic, M, return, ◌>>=◌, ◌>>◌, continue}
use go_project_example.Log.{
  Level, Config, Severity, Entry, plain, formatted, line, fielded, Files, default_config,
  severity_of, in_range, is_below, create_log_file,
}

-- `zap.Config`, as far as `initLogger` sets it. Of the two encoder configurations the one for
-- production is used with the JSON encoding.
pub record ZapConfig : Type 0 where
  pub level : Severity
  pub encoding : Bytes
  pub production_encoder : Bool
  pub disable_caller : Bool
  pub output_paths : List Bytes
  pub error_output_paths : List Bytes

-- What the methods of a `zap.SugaredLogger` are called with; the fields of `Debugw` are a list of keys
-- and values in turn.
pub data Sugared : Type 0 where
  sugared_plain : List Bytes → Sugared
  sugared_formatted : Bytes → List Bytes → Sugared
  sugared_fielded : Bytes → List Bytes → Sugared

-- `zap.Logger` and its `Sugar`, with what the package documents of them: a logger that `Build` makes
-- has the level of its configuration, and writes nothing below it.
pub record Library (W : Type 0) : Type 1 where
  pub Native : Type 0
  pub build : ZapConfig → M W Native
  pub get_level : Native → Severity
  pub log : Severity → Sugared → Native → M W (Unit {0})
  pub get_level-build :
      (c : ZapConfig) (w w' : W) (n : Native) → build c w ≡ (w', ok n) → get_level n ≡ c.level
  pub log_below :
      (k : Severity) (e : Sugared) (n : Native) (w : W)
      → is_below k (get_level n) ≡ true
      → log k e n w ≡ (w, ok tt)

-- The loop of `fieldsToKV`, on the slice, at an index that is twice the rounds.
unfoldable fill : List Bytes → ℕ → List (Bytes × Bytes) → List Bytes
fill kv i [] = kv
fill kv i ((k, v) ∷ fields) = fill (set (set kv i k) (i + 1) v) (i + 2) fields

-- `make([]interface{}, n)`
abbrev pub make : ℕ → List Bytes
make zero = []
make (suc n) = [] ∷ make n

-- `fieldsToKV`
unfoldable pub fields_to_kv : List (Bytes × Bytes) → List Bytes
unfolding fill
fields_to_kv fields = fill (make (length fields * 2)) 0 fields

module _ {W : Type 0} (lib : Library W) (files : Files W) where
  open lib use {Native}

  -- `Logger`, with `sugared` made from `logger`.
  pub record Logger : Type 0 where
    pub native : Native
    pub zapconfig : ZapConfig
    pub config : Config

  abbrev pub stderr : Bytes
  stderr = codes "stderr"

  abbrev pub zap_config : Config → List Bytes → ZapConfig
  zap_config c paths = record {
    level = severity_of c.level;
    encoding = if c.use_json then codes "json" else codes "console";
    production_encoder = c.use_json;
    disable_caller = not c.caller;
    output_paths = paths;
    error_output_paths = paths;
  }

  abbrev output_paths : Config → M W (List Bytes)
  output_paths c =
      if bytes_eq c.log_file []
      then return (stderr ∷ [])
      else (create_log_file files c.log_file >>= λ file. return (stderr ∷ c.log_file ∷ []))

  -- `initLogger`: the fields of the logger once it succeeds.
  unfoldable pub init_logger : Config → M W Logger
  init_logger c = do
    paths ← output_paths c
    native ← lib.build (zap_config c paths)
    return (record { native = native; zapconfig = zap_config c paths; config = c })

  abbrev pub or_default : Option Config → Config
  or_default none = default_config
  or_default (some c) = c

  -- `New`
  abbrev pub new : Option Config → M W Logger
  new config = init_logger (or_default config)

  -- What a method of a logger leaves of it, with its error.
  abbrev pub Method : Type 0
  Method = Logger → W → Logger × W × Outcome (Unit {0})

  -- A logger is replaced by what `initLogger` made, if it did.
  abbrev replace : Logger → W × Outcome Logger → Logger × W × Outcome (Unit {0})
  replace l (w, ok l') = (l', w, ok tt)
  replace l (w, err e) = (l, w, err e)
  replace l (w, panic) = (l, w, panic)

  abbrev pub with_level : Level → Logger → Logger
  with_level v l = record l { config = record (l.config) { level = v } }

  -- `SetLevel`: the configuration has the new level before `initLogger` runs.
  unfoldable pub set_level : Level → Method
  unfolding init_logger
  set_level level l w =
      if eqb_ℤ (in_range level) l.config.level
      then (l, w, ok tt)
      else replace (with_level (in_range level) l)
          (init_logger (with_level (in_range level) l).config w)

  -- `SetConfig`
  unfoldable pub set_config : Option Config → Method
  unfolding init_logger
  set_config none l w = (l, w, ok tt)
  set_config (some c) l w = replace l (init_logger c w)

  abbrev sugar : Entry → Sugared
  unfolding fields_to_kv
  sugar (plain args) = sugared_plain args
  sugar (formatted format args) = sugared_formatted format args
  sugar (line args) = sugared_plain args
  sugar (fielded message fields) = sugared_fielded message (fields_to_kv fields)

  -- `Debug`, `Debugf`, `Debugln`, `Debugw`, and so on for the other levels
  unfoldable pub log : Severity → Entry → Logger → M W (Unit {0})
  unfolding fields_to_kv
  log k e l = lib.log k (sugar e) l.native
