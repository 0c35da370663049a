-- ===== src/Log/Std.antt =====
-- internal/pkg/log/logger/std/std.go: the backend over Go's `log` package.
pub mod Fields
use go_project_example.Base.{
  ℕ, suc, ◌+◌, Bool, true, false, List, [], ◌∷◌, ◌++◌, Option, none, some, Bytes, codes, ℤ, pos,
  ltb, ltb_ℤ, if◌then◌else◌, length,
}
use go_project_example.Text.{bytes_eq}
use go_project_example.Xerrors.{Error}
use go_project_example.Effects.{Outcome, ok, err, panic, M, return, crash, ◌>>=◌, ◌>>◌, continue}
use go_project_example.Log.{
  Level, Config, Severity, debug, info, warn, error, fatal, rank, Entry, plain, formatted, line,
  fielded, Files, default_config, with_time_format, create_log_file,
}

-- Where a `log.Logger` writes: standard error, or a file as well.
pub data Output : Type 0 where
  stderr : Output
  stderr_and : Bytes → Output

-- An operand of a call of the `log` package: one value, known by its text, or a slice of values.
pub data Operand : Type 0 where
  one : Bytes → Operand
  slice : List Bytes → Operand

-- `Print`, `Printf` and `Println` of a `log.Logger`
pub data Call : Type 0 where
  print : List Operand → Call
  printf : Bytes → List Operand → Call
  println : List Operand → Call

-- The process: what a `log.Logger` writes, and `os.Exit(1)`.
pub record Process (W : Type 0) : Type 0 where
  pub write : Output → Call → M W (Unit {0})
  pub exit : M W (Unit {0})

-- `Logger`, with the output of its `log.Logger`, which may be unset, and its pointer to a configuration.
pub record Logger : Type 0 where
  pub output : Option Output
  pub config : Option Config

-- `New` returns a nil pointer and a nil error.
abbrev pub new : Option Config → Option Logger
new config = none

-- `levelFormat`
abbrev pub level_format : Severity → Bytes
level_format debug = codes "[DEBUG]"
level_format info = codes "[INFO]"
level_format warn = codes "[WARN]"
level_format error = codes "[ERROR]"
level_format fatal = codes "[FATAL]"

abbrev pub pair : Bytes × Bytes → Bytes
pair (k, v) = k ++ b'=' ∷ v

-- The loop of `formatFields`, on the text and the counter, for `n` fields in all.
unfoldable add_fields : ℕ → Bytes → ℕ → List (Bytes × Bytes) → Bytes
add_fields n text counter [] = text
add_fields n text counter (f ∷ fields) =
    add_fields n ((text ++ pair f) ++ (if ltb (counter + 1) n then b' ' ∷ [] else [])) (counter + 1)
      fields

-- `formatFields`
unfoldable pub format_fields : List (Bytes × Bytes) → Bytes
unfolding add_fields
format_fields fields = add_fields (length fields) [] 0 fields

-- `print`, `printf`, `println` and `printw`, past the test of the level. The arguments are passed on
-- as one slice.
unfoldable pub call : Severity → Entry → Call
unfolding format_fields
call k (plain args) = print (one (level_format k) ∷ slice args ∷ [])
call k (formatted format args) = printf (level_format k ++ format) (slice args ∷ [])
call k (line args) = println (one (level_format k) ∷ slice args ∷ [])
call k (fielded message fields) =
    println (one (level_format k) ∷ one message ∷ one (format_fields fields) ∷ [])

module _ {W : Type 0} (files : Files W) where
  -- `newLogger`: what the `log.Logger` writes to. Nothing calls it.
  unfoldable pub new_logger : Option Config → M W (Option Output)
  new_logger none = return (some stderr)
  new_logger (some c) =
      if bytes_eq c.log_file []
      then return none
      else (create_log_file files c.log_file >>= λ file. return (some (stderr_and file)))

module _ {W : Type 0} (process : Process W) where
  -- A write to an output that is not set panics.
  abbrev pub write_to : Option Output → Call → M W (Unit {0})
  write_to none c = crash
  write_to (some out) c = process.write out c

  abbrev emit_at : Option Config → Severity → Entry → Logger → M W (Unit {0})
  unfolding call
  emit_at none k e l = crash
  emit_at (some c) k e l =
      if ltb_ℤ (pos (rank k)) c.level then return tt else write_to l.output (call k e)

  -- `print`, `printf`, `println` and `printw`, on a receiver that may be nil
  unfoldable pub emit : Severity → Entry → Option Logger → M W (Unit {0})
  unfolding call
  emit k e none = crash
  emit k e (some l) = emit_at l.config k e l

  -- `Debug`, `Debugf`, `Debugln`, `Debugw` and those of the other levels; those of the fatal level end
  -- the process.
  unfoldable pub log : Severity → Entry → Option Logger → M W (Unit {0})
  unfolding emit
  log fatal e l = emit fatal e l >> process.exit
  log k e l = emit k e l

  -- `SetConfig` and `SetLevel` do nothing.
  abbrev pub set_config : Option Config → Option Logger → M W (Unit {0})
  set_config config l = return tt

  abbrev pub set_level : Level → Option Logger → M W (Unit {0})
  set_level level l = return tt
