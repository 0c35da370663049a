-- ===== src/Log/Zap/Levels.antt =====
-- `SetLevel` of internal/pkg/log/logger/zap/zap.go when a logger cannot be built.
use go_project_example.Base.{◌≡◌, refl, arith, true, false, eqb_ℤ}
use go_project_example.Xerrors.{Error}
use go_project_example.Effects.{ok, err}
use go_project_example.Log.{Level, Files, in_range}
use go_project_example.Log.Zap.{Library, Logger, init_logger, set_level, with_level}

module _ {W : Type 0} (lib : Library W) (files : Files W) where
  -- What a failing `initLogger` leaves, and what a second `SetLevel` with that level does.
  set_level-with_level :
      (v : Level) (l : Logger lib files) (w : W)
      → set_level lib files v (with_level lib files (in_range v) l) w
        ≡ (with_level lib files (in_range v) l, w, ok tt)
  unfolding set_level
  set_level-with_level v l w =
      let same : eqb_ℤ (in_range v) (in_range v) ≡ true = ground arith in rw same refl

  -- When the logger for a new level cannot be built, `SetLevel` returns the error and keeps the old
  -- native logger; a second `SetLevel` with the same level then returns no error and leaves the old
  -- native logger in place as well, since the configuration has the new level already.
  set_level_twice :
      (v : Level) (l : Logger lib files) (w w' u : W) (e : Error)
      → eqb_ℤ (in_range v) l.config.level ≡ false
      → init_logger lib files (with_level lib files (in_range v) l).config w ≡ (w', err e)
      → (set_level lib files v l w ≡ (with_level lib files (in_range v) l, w', err e))
        × (set_level lib files v (with_level lib files (in_range v) l) u
            ≡ (with_level lib files (in_range v) l, u, ok tt))
        × ((with_level lib files (in_range v) l).native ≡ l.native)
  unfolding set_level
  set_level_twice v l w w' u e other failed =
      (rw (other, failed) refl, set_level-with_level v l u, refl)
