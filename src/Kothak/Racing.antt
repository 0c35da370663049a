-- ===== src/Kothak/Racing.antt =====
-- internal/kothak/kothak.go: `New`, with its goroutines in any order.
--
-- A step is one goroutine going on to its next access of something shared: the connection, the map
-- under the mutex, the read of the slice of errors, and the write of it. The slice is not guarded, so
-- that another goroutine may write it between the read and the write of `append`; a read and a write
-- of the slice are each taken to be whole.
use go_project_example.Base.{
  ℕ, zero, suc, Bool, true, false, List, [], ◌∷◌, ◌++◌, map, Option, none, some, if◌then◌else◌,
}
use go_project_example.Xerrors.{Error}
use go_project_example.Effects.{Outcome, ok, err, panic}
use go_project_example.Defaults.{Readers}
use go_project_example.Sqldb.{Sqlx}
use go_project_example.ObjectStorage.Providers.{Clouds}
use go_project_example.Kothak.Sql.{DbConfig, set_default}
use go_project_example.Kothak.Registry.{Kothak, Made, register, empty}
use go_project_example.Kothak.Connecting.{Config, Job, jobs, run_job}

module _ {W : Type 0} (clouds : Clouds W) (sqlx : Sqlx W) (readers : Readers) (db : DbConfig) where
  -- Where a goroutine stands. A panic of one ends the process.
  pub data Pc : Type 0 where
    connecting : Pc
    reporting : Made clouds sqlx → Pc
    failing : Error → Pc
    appending : Error → List Error → Pc
    finished : Option Error → Pc
    panicked : Pc

  pub record Worker : Type 0 where
    pub job : Job
    pub pc : Pc

  -- What the goroutines share.
  pub record Shared : Type 0 where
    pub world : W
    pub errs : List Error
    pub kothak : Kothak clouds sqlx

  abbrev pub connected : Shared → W × Outcome (Made clouds sqlx) → Shared × Pc
  connected s (w, ok m) = (record s { world = w }, reporting m)
  connected s (w, err e) = (record s { world = w }, failing e)
  connected s (w, panic) = (record s { world = w }, panicked)

  -- One step of a goroutine
  unfoldable pub move : Job → Pc → Shared → Shared × Pc
  unfolding run_job register
  move job connecting s = connected s (run_job clouds sqlx readers db job s.world)
  move job (reporting m) s = (record s { kothak = register clouds sqlx m s.kothak }, finished none)
  move job (failing e) s = (s, appending e s.errs)
  move job (appending e es) s = (record s { errs = es ++ e ∷ [] }, finished (some e))
  move job (finished r) s = (s, finished r)
  move job panicked s = (s, panicked)

  -- A step of the goroutine with the given number, if there is one.
  unfoldable pub step : ℕ → List Worker → Shared → Shared × List Worker
  unfolding move
  step i [] s = (s, [])
  step zero (w ∷ ws) s = let (s', pc) = move w.job w.pc s in (s', record w { pc = pc } ∷ ws)
  step (suc i) (w ∷ ws) s = let (s', ws') = step i ws s in (s', w ∷ ws')

  -- A schedule: which goroutine goes on, one after the other.
  unfoldable pub run : List ℕ → List Worker → Shared → Shared × List Worker
  unfolding step
  run [] ws s = (s, ws)
  run (i ∷ is) ws s = let (s', ws') = step i ws s in run is ws' s'

  abbrev pub started : Job → Worker
  started job = record { job = job; pc = connecting }

  abbrev pub at_start : W → Shared
  at_start w = record { world = w; errs = []; kothak = empty clouds sqlx }

  -- `group.Wait()` returns.
  abbrev pub all_done : List Worker → Bool
  all_done [] = true
  all_done (w ∷ ws) = elim w.pc [ finished r ↦ all_done ws | _ ↦ false ]

  abbrev pub first : List Error → Option Error
  first [] = none
  first (e ∷ es) = some e

  abbrev pub after_wait : Shared × List Worker → Option (Option (Kothak clouds sqlx) × Option Error)
  after_wait (s, ws) = if all_done ws then some (some s.kothak, first s.errs) else none

module _ {W : Type 0} (clouds : Clouds W) (sqlx : Sqlx W) (readers : Readers) where
  -- The goroutines of `New`, at the end of a schedule
  unfoldable pub goroutines :
      (db : DbConfig) (schedule : List ℕ) (c : Config) (w : W)
      → Shared clouds sqlx readers db × List (Worker clouds sqlx readers db)
  unfolding run
  goroutines db schedule c w =
      run clouds sqlx readers db schedule (map (started clouds sqlx readers db) (jobs db c))
        (at_start clouds sqlx readers db w)

  unfoldable pub new_with :
      List ℕ
      → Config
      → W
      → DbConfig × Option Error
      → Option (Option (Kothak clouds sqlx) × Option Error)
  unfolding goroutines
  new_with schedule c w (db, some e) = some (none, some e)
  new_with schedule c w (db, none) = after_wait clouds sqlx readers db (goroutines db schedule c w)

  -- `New` under a schedule: `none` if some goroutine has not ended.
  unfoldable pub new : List ℕ → Config → W → Option (Option (Kothak clouds sqlx) × Option Error)
  unfolding new_with
  new schedule c w = new_with schedule c w (set_default readers c.db_config)
