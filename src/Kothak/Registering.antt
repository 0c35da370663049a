-- ===== src/Kothak/Registering.antt =====
-- What holds of the goroutines of `New` in internal/kothak/kothak.go, in whatever order they run.
pub mod Availability
pub mod Ending
pub mod Errors
pub mod Reporting
use go_project_example.Base.{
  ℕ, zero, suc, Bool, true, false, ◌&&◌, List, [], ◌∷◌, ◌++◌, ◌≡◌, ◌≢◌, refl, ap, ◌∙◌, sym, arith,
  map, Option, none, some, Bytes, if◌then◌else◌, All, inl, inr, ◌⊎◌, Bool-cases,
}
use go_project_example.Text.{bytes_eq}
use go_project_example.Text.Maps.{lookup, insert, insert-kept, insert-found}
use go_project_example.Xerrors.{Error}
use go_project_example.Effects.{Outcome, ok, err, panic, M, return, Gives, continue-Gives_all}
use go_project_example.Defaults.{Readers}
use go_project_example.Sqldb.{Sqlx}
use go_project_example.ObjectStorage.Providers.{Clouds}
use go_project_example.Kothak.Sql.{DbConfig}
use go_project_example.Kothak.Registry.{
  Kothak, Made, made_storage, made_sql_db, made_redis, register,
}
use go_project_example.Kothak.Connecting.{
  Job, storage_job, redis_job, sql_db_job, run_job, connect_storage, connect_sql_db,
}
use go_project_example.Kothak.Racing.{
  Pc, connecting, reporting, failing, appending, finished, panicked, Worker, Shared, connected,
  move, step, run,
}

module _ {W : Type 0} (clouds : Clouds W) (sqlx : Sqlx W) where
  -- What a goroutine made is for its job.
  abbrev Matches : Job → Made clouds sqlx → Type 0
  Matches (storage_job c) (made_storage name p) = c.name ≡ name
  Matches (redis_job c) (made_redis name r) = c.name ≡ name
  Matches (sql_db_job c) (made_sql_db name d) = c.name ≡ name
  Matches _ _ = ⊥

  -- There is a connection under the name of a job.
  abbrev pub IsRegistered : Job → Kothak clouds sqlx → Type 0
  IsRegistered (storage_job c) k = lookup c.name k.obj_storages ≢ none
  IsRegistered (redis_job c) k = lookup c.name k.rds ≢ none
  IsRegistered (sql_db_job c) k = lookup c.name k.dbs ≢ none

  register-kept :
      (job : Job) (m : Made clouds sqlx) (k : Kothak clouds sqlx)
      → IsRegistered job k
      → IsRegistered job (register clouds sqlx m k)
  unfolding register
  register-kept (storage_job c) (made_storage name p) k h =
      insert-kept name c.name p k.obj_storages h
  register-kept (storage_job c) (made_redis name p) k h = h
  register-kept (storage_job c) (made_sql_db name p) k h = h
  register-kept (redis_job c) (made_storage name p) k h = h
  register-kept (redis_job c) (made_redis name p) k h = insert-kept name c.name p k.rds h
  register-kept (redis_job c) (made_sql_db name p) k h = h
  register-kept (sql_db_job c) (made_storage name p) k h = h
  register-kept (sql_db_job c) (made_redis name p) k h = h
  register-kept (sql_db_job c) (made_sql_db name p) k h = insert-kept name c.name p k.dbs h

  register-IsRegistered :
      (job : Job) (m : Made clouds sqlx) (k : Kothak clouds sqlx)
      → Matches job m
      → IsRegistered job (register clouds sqlx m k)
  unfolding register
  register-IsRegistered (storage_job c) (made_storage name p) k h =
      insert-found name c.name p k.obj_storages h
  register-IsRegistered (redis_job c) (made_redis name r) k h = insert-found name c.name r k.rds h
  register-IsRegistered (sql_db_job c) (made_sql_db name d) k h = insert-found name c.name d k.dbs h
  register-IsRegistered (storage_job c) (made_sql_db name p) k h = elim h [ ]
  register-IsRegistered (storage_job c) (made_redis name p) k h = elim h [ ]
  register-IsRegistered (redis_job c) (made_storage name p) k h = elim h [ ]
  register-IsRegistered (redis_job c) (made_sql_db name p) k h = elim h [ ]
  register-IsRegistered (sql_db_job c) (made_storage name p) k h = elim h [ ]
  register-IsRegistered (sql_db_job c) (made_redis name p) k h = elim h [ ]

module _ {W : Type 0} (clouds : Clouds W) (sqlx : Sqlx W) (readers : Readers) (db : DbConfig) where
  run_job-Matches :
      (job : Job) (w : W) → Gives (Matches clouds sqlx job) (run_job clouds sqlx readers db job w)
  unfolding run_job
  run_job-Matches (storage_job c) w =
      continue-Gives_all (Matches clouds sqlx (storage_job c)) (λ p. return (made_storage c.name p))
        (connect_storage clouds sqlx readers c w) (λ p t. refl)
  run_job-Matches (redis_job c) w = refl
  run_job-Matches (sql_db_job c) w =
      continue-Gives_all (Matches clouds sqlx (sql_db_job c)) (λ d. return (made_sql_db c.name d))
        (connect_sql_db clouds sqlx readers db c w) (λ d t. refl)

  -- Where a goroutine stands agrees with what is shared: one that ended well has its connection
  -- registered, and after one that failed there is an error.
  abbrev pub Agrees : Job → Pc clouds sqlx readers db → Shared clouds sqlx readers db → Type 0
  Agrees job connecting s = Unit
  Agrees job (reporting m) s = Matches clouds sqlx job m
  Agrees job (failing e) s = Unit
  Agrees job (appending e es) s = Unit
  Agrees job (finished none) s = IsRegistered clouds sqlx job s.kothak
  Agrees job (finished (some e)) s = s.errs ≢ []
  Agrees job panicked s = Unit

  -- Connections and errors are there to stay.
  record Grows (s t : Shared clouds sqlx readers db) : Type 0 where
    errs_kept : s.errs ≢ [] → t.errs ≢ []
    registered_kept :
        (job : Job) → IsRegistered clouds sqlx job s.kothak → IsRegistered clouds sqlx job t.kothak

  Agrees-Grows :
      (job : Job) (pc : Pc clouds sqlx readers db) (s t : Shared clouds sqlx readers db)
      → Grows s t
      → Agrees job pc s
      → Agrees job pc t
  Agrees-Grows job connecting s t g h = h
  Agrees-Grows job (reporting m) s t g h = h
  Agrees-Grows job (failing e) s t g h = h
  Agrees-Grows job (appending e es) s t g h = h
  Agrees-Grows job (finished none) s t g h = g.registered_kept job h
  Agrees-Grows job (finished (some e)) s t g h = g.errs_kept h
  Agrees-Grows job panicked s t g h = h

  same-Grows : (s : Shared clouds sqlx readers db) → Grows s s
  same-Grows s = record { errs_kept = λ h. h; registered_kept = λ job h. h }

  -- What a step leaves.
  abbrev Kept :
      Job
      → Shared clouds sqlx readers db
      → Shared clouds sqlx readers db × Pc clouds sqlx readers db
      → Type 0
  Kept job s (t, pc) = Grows s t × Agrees job pc t

  connected-Kept :
      (job : Job) (s : Shared clouds sqlx readers db) (r : W × Outcome (Made clouds sqlx))
      → Gives (Matches clouds sqlx job) r
      → Kept job s (connected clouds sqlx readers db s r)
  connected-Kept job s (w, ok m) h = (record { errs_kept = λ k. k; registered_kept = λ j k. k }, h)
  connected-Kept job s (w, err e) h =
      (record { errs_kept = λ k. k; registered_kept = λ j k. k }, tt)
  connected-Kept job s (w, panic) h =
      (record { errs_kept = λ k. k; registered_kept = λ j k. k }, tt)

  append-ne-nil : (es : List Error) (e : Error) → es ++ e ∷ [] ≢ []
  append-ne-nil [] e h = cc
  append-ne-nil (x ∷ es) e h = cc

  move-Kept :
      (job : Job) (pc : Pc clouds sqlx readers db) (s : Shared clouds sqlx readers db)
      → Agrees job pc s
      → Kept job s (move clouds sqlx readers db job pc s)
  unfolding move
  move-Kept job connecting s h =
      connected-Kept job s (run_job clouds sqlx readers db job s.world)
        (run_job-Matches job s.world)
  move-Kept job (reporting m) s h = (
    record {
      errs_kept = λ k. k;
      registered_kept = λ j k. register-kept clouds sqlx j m s.kothak k;
    },
    register-IsRegistered clouds sqlx job m s.kothak h,
  )
  move-Kept job (failing e) s h = (same-Grows s, tt)
  move-Kept job (appending e es) s h = (
    record { errs_kept = λ k. append-ne-nil es e; registered_kept = λ j k. k },
    append-ne-nil es e,
  )
  move-Kept job (finished r) s h = (same-Grows s, h)
  move-Kept job panicked s h = (same-Grows s, h)

  abbrev pub AllAgree :
      List (Worker clouds sqlx readers db) → Shared clouds sqlx readers db → Type 0
  AllAgree ws s = All (λ w. Agrees w.job w.pc s) ws

  AllAgree-Grows :
      (ws : List (Worker clouds sqlx readers db)) (s t : Shared clouds sqlx readers db)
      → Grows s t
      → AllAgree ws s
      → AllAgree ws t
  AllAgree-Grows [] s t g h = tt
  AllAgree-Grows (w ∷ ws) s t g (h, hs) =
      (Agrees-Grows w.job w.pc s t g h, AllAgree-Grows ws s t g hs)

  -- What a step leaves of all goroutines.
  record Stepped (s : Shared clouds sqlx readers db)
      (r : Shared clouds sqlx readers db × List (Worker clouds sqlx readers db)) : Type 0 where
    grows : Grows s r.0
    agree : AllAgree r.1 r.0

  step-Stepped :
      (i : ℕ) (ws : List (Worker clouds sqlx readers db)) (s : Shared clouds sqlx readers db)
      → AllAgree ws s
      → Stepped s (step clouds sqlx readers db i ws s)
  unfolding step
  step-Stepped i [] s h = record { grows = same-Grows s; agree = tt }
  step-Stepped zero (w ∷ ws) s (h, hs) =
      let (g, a) = move-Kept w.job w.pc s h in
      record { grows = g; agree = (a, AllAgree-Grows ws s _ g hs) }
  step-Stepped (suc i) (w ∷ ws) s (h, hs) =
      let r = step-Stepped i ws s hs in
      record { grows = r.grows; agree = (Agrees-Grows w.job w.pc s _ r.grows h, r.agree) }

  -- Whatever the order in which the goroutines go on, each that ended without an error has its
  -- connection registered under its name, and if one ended with an error there is an error to return.
  pub run-AllAgree :
      (schedule : List ℕ) (ws : List (Worker clouds sqlx readers db))
      (s : Shared clouds sqlx readers db)
      → AllAgree ws s
      → AllAgree
          (run clouds sqlx readers db schedule ws s).1
          (run clouds sqlx readers db schedule ws s).0
  unfolding run
  run-AllAgree [] ws s h = h
  run-AllAgree (i ∷ is) ws s h =
      run-AllAgree is (step clouds sqlx readers db i ws s).1 (step clouds sqlx readers db i ws s).0
        (step-Stepped i ws s h).agree
