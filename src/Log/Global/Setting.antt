-- ===== src/Log/Global/Setting.antt =====
-- What the functions of internal/pkg/log/log.go do before and after `SetLogger`.
use go_project_example.Base.{◌≡◌, refl, Option, none, Bytes}
use go_project_example.Effects.{ok, panic, M, ◌>>◌}
use go_project_example.Log.{
  Level, Config, Severity, debug, info, warn, error, fatal, Entry, string_to_level,
}
use go_project_example.Log.Std
use go_project_example.Log.Std.{Process}
use go_project_example.Log.Global.{
  Backend, Function, leveled, print, println, printf, set_logger, set_config, set_level,
  set_level_string, log, init, drop_error,
}

module _ {W : Type 0} (process : Process W) where
  std-panics :
      (k : Severity) (e : Entry) (w : W) → Std.log process k e (Std.new none) w ≡ (w, panic)
  unfolding Std.log
  std-panics debug e w = refl
  std-panics info e w = refl
  std-panics warn e w = refl
  std-panics error e w = refl
  std-panics fatal e w = refl

  init-panics : (f : Function) (w : W) → log f (init process) w ≡ (w, panic)
  unfolding log
  init-panics (leveled debug e) w = std-panics debug e w
  init-panics (leveled info e) w = std-panics info e w
  init-panics (leveled warn e) w = std-panics warn e w
  init-panics (leveled error e) w = std-panics error e w
  init-panics (leveled fatal e) w = std-panics fatal e w
  init-panics (print args) w = std-panics info _ w
  init-panics (println args) w = std-panics info _ w
  init-panics (printf format args) w = std-panics info _ w

  -- Until `SetLogger` is called, `SetConfig`, `SetLevel` and `SetLevelString` return without an error
  -- and change nothing, and every function that logs panics, at any level.
  init_lem :
      (c : Option Config) (v : Level) (s : Bytes) (f : Function) (w : W)
      → (set_config c (init process) w ≡ (w, ok tt))
        × (set_level v (init process) w ≡ (w, ok tt))
        × (set_level_string s (init process) w ≡ (w, ok tt))
        × (log f (init process) w ≡ (w, panic))
  unfolding set_config set_level set_level_string
  init_lem c v s f w = (refl, refl, refl, init-panics f w)

module _ {W : Type 0} where
  five_times :
      (m : M W (Unit {0})) (w : W) → ((u : W) → (m >> m) u ≡ m u) → (m >> m >> m >> m >> m) w ≡ m w
  five_times m w twice = rw (twice w, twice w, twice w, twice w) refl

  -- After `SetLogger`, the five variables hold one logger: where calling its `SetConfig`, or its
  -- `SetLevel` with the error dropped, twice is like calling it once, `SetConfig` returns what one call
  -- returns and leaves what it leaves, and `SetLevel` and `SetLevelString` do the same without the error.
  set_logger_lem :
      (b : Backend W) (c : Option Config) (v : Level) (s : Bytes) (w : W)
      → ((u : W) → (b.set_config c >> b.set_config c) u ≡ b.set_config c u)
      → ((l : Level) (u : W)
          → (drop_error (b.set_level l) >> drop_error (b.set_level l)) u
            ≡ drop_error (b.set_level l) u)
      → (set_config c (set_logger b) w ≡ b.set_config c w)
        × (set_level v (set_logger b) w ≡ drop_error (b.set_level v) w)
        × (set_level_string s (set_logger b) w ≡ drop_error (b.set_level (string_to_level s)) w)
  unfolding set_config set_level set_level_string
  set_logger_lem b c v s w config_twice level_twice = (
    five_times (b.set_config c) w config_twice,
    five_times (drop_error (b.set_level v)) w (level_twice v),
    five_times (drop_error (b.set_level (string_to_level s))) w (level_twice (string_to_level s)),
  )
