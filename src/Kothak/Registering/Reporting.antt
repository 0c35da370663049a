-- ===== src/Kothak/Registering/Reporting.antt =====
-- What `New` of internal/kothak/kothak.go returns, against how its goroutines ended.
use go_project_example.Base.{
  ℕ, zero, suc, true, false, List, [], ◌∷◌, ◌≡◌, refl, ap, ◌∙◌, map, Option, none, some, All, inl,
  inr, Bool-cases,
}
use mathlib.Core.Path.{subst}
use go_project_example.Xerrors.{Error}
use go_project_example.Defaults.{Readers}
use go_project_example.Sqldb.{Sqlx}
use go_project_example.ObjectStorage.Providers.{Clouds}
use go_project_example.Kothak.Sql.{DbConfig, set_default}
use go_project_example.Kothak.Registry.{Kothak}
use go_project_example.Kothak.Connecting.{Config, Job, jobs}
use go_project_example.Kothak.Racing.{
  Pc, connecting, reporting, failing, appending, finished, panicked, Worker, Shared, step, run,
  all_done, first, started, at_start, goroutines, new, new_with, after_wait,
}
use go_project_example.Kothak.Registering.{IsRegistered, Agrees, AllAgree, run-AllAgree}
use go_project_example.Kothak.Registering.Errors.{AnyEnded, Read, run-AllEnded}
use go_project_example.Kothak.Registering.Availability.{IsAvailable, available}

module _ {W : Type 0} (clouds : Clouds W) (sqlx : Sqlx W) (readers : Readers) (db : DbConfig) where
  abbrev Workers : Type 0
  Workers = List (Worker clouds sqlx readers db)

  jobs-step :
      (i : ℕ) (ws : Workers) (s : Shared clouds sqlx readers db)
      → map (λ w. w.job) (step clouds sqlx readers db i ws s).1 ≡ map (λ w. w.job) ws
  unfolding step
  jobs-step i [] s = refl
  jobs-step zero (w ∷ ws) s = refl
  jobs-step (suc i) (w ∷ ws) s = ap (λ js. w.job ∷ js) (jobs-step i ws s)

  jobs-run :
      (is : List ℕ) (ws : Workers) (s : Shared clouds sqlx readers db)
      → map (λ w. w.job) (run clouds sqlx readers db is ws s).1 ≡ map (λ w. w.job) ws
  unfolding run
  jobs-run [] ws s = refl
  jobs-run (i ∷ is) ws s =
      jobs-run is (step clouds sqlx readers db i ws s).1 (step clouds sqlx readers db i ws s).0
      ∙ jobs-step i ws s

  jobs-started : (js : List Job) → map (λ w. w.job) (map (started clouds sqlx readers db) js) ≡ js
  jobs-started [] = refl
  jobs-started (j ∷ js) = ap (λ t. j ∷ t) (jobs-started js)

  -- One goroutine that ended, when there is no error.
  ended_well :
      (job : Job) (pc : Pc clouds sqlx readers db) (ws : Workers)
      (s : Shared clouds sqlx readers db)
      → (elim pc [ finished r ↦ all_done clouds sqlx readers db ws | _ ↦ false ]) ≡ true
      → s.errs ≡ []
      → Agrees clouds sqlx readers db job pc s
      → IsRegistered clouds sqlx job s.kothak × (all_done clouds sqlx readers db ws ≡ true)
  ended_well job (finished none) ws s d e h = (h, d)
  ended_well job (finished (some x)) ws s d e h = absurd (h e)
  ended_well job connecting ws s d e h = cc
  ended_well job (reporting m) ws s d e h = cc
  ended_well job (failing x) ws s d e h = cc
  ended_well job (appending x es) ws s d e h = cc
  ended_well job panicked ws s d e h = cc

  All-IsAvailable :
      (ws : Workers) (s : Shared clouds sqlx readers db)
      → all_done clouds sqlx readers db ws ≡ true
      → s.errs ≡ []
      → AllAgree clouds sqlx readers db ws s
      → All (λ job. IsAvailable clouds sqlx job s.kothak) (map (λ w. w.job) ws)
  All-IsAvailable [] s d e h = tt
  All-IsAvailable (w ∷ ws) s d e (h, hs) =
      let (registered, rest) = ended_well w.job w.pc ws s d e h in
      (available clouds sqlx w.job s.kothak registered, All-IsAvailable ws s rest e hs)

  started_agree :
      (js : List Job) (s : Shared clouds sqlx readers db)
      → AllAgree clouds sqlx readers db (map (started clouds sqlx readers db) js) s
  started_agree [] s = tt
  started_agree (j ∷ js) s = (tt, started_agree js s)

  started_reads :
      (P : Error → Type 0) (js : List Job)
      → All (λ w. Read clouds sqlx readers db P w.pc) (map (started clouds sqlx readers db) js)
  started_reads P [] = tt
  started_reads P (j ∷ js) = (tt, started_reads P js)

  first-none : (es : List Error) → first clouds sqlx readers db es ≡ none → es ≡ []
  first-none [] h = refl
  first-none (e ∷ es) h = cc

  first-some :
      (es : List Error) (e : Error) (P : Error → Type 0)
      → first clouds sqlx readers db es ≡ some e
      → All P es
      → P e
  first-some [] e P h all = cc
  first-some (x ∷ es) e P h (px, all) = let same : x ≡ e = cc in subst P (same) px

  after_wait-some :
      (r : Shared clouds sqlx readers db × Workers) (k : Kothak clouds sqlx) (o : Option Error)
      → after_wait clouds sqlx readers db r ≡ some (some k, o)
      → (all_done clouds sqlx readers db r.1 ≡ true)
        × (r.0.kothak ≡ k)
        × (first clouds sqlx readers db r.0.errs ≡ o)
  after_wait-some (s, ws) k o h = elim (Bool-cases (all_done clouds sqlx readers db ws)) [
    | inl done ↦
        let same : ◌≡◌ {A = Option (Option (Kothak clouds sqlx) × Option Error)}
            (some (some s.kothak, first clouds sqlx readers db s.errs)) (some (some k, o)) =
          rw done at h in
        (done, cc, cc)
    | inr waiting ↦
        let same : ◌≡◌ {A = Option (Option (Kothak clouds sqlx) × Option Error)} none
            (some (some k, o)) =
          rw waiting at h in
        cc
  ]

  waited-IsAvailable :
      (schedule : List ℕ) (c : Config) (w : W) (k : Kothak clouds sqlx)
      → after_wait clouds sqlx readers db (goroutines clouds sqlx readers db schedule c w)
        ≡ some (some k, none)
      → All (λ job. IsAvailable clouds sqlx job k) (jobs db c)
  unfolding goroutines
  waited-IsAvailable schedule c w k h =
      let js = jobs db c in
      let ws : Workers = map (started clouds sqlx readers db) js in
      let s : Shared clouds sqlx readers db = at_start clouds sqlx readers db w in
      let (done, same, no_error) =
        after_wait-some (run clouds sqlx readers db schedule ws s) k none h in
      let agree = run-AllAgree clouds sqlx readers db schedule ws s (started_agree js s) in
      let none_here = first-none (run clouds sqlx readers db schedule ws s).0.errs no_error in
      let all =
        All-IsAvailable (run clouds sqlx readers db schedule ws s).1
          (run clouds sqlx readers db schedule ws s).0 done none_here agree in
      let named : All
          (λ job. IsAvailable clouds sqlx job (run clouds sqlx readers db schedule ws s).0.kothak)
          js =
        subst
          (All (λ job.
            IsAvailable clouds sqlx job (run clouds sqlx readers db schedule ws s).0.kothak))
          (jobs-run schedule ws s ∙ jobs-started js) all in
      subst (λ (k' : Kothak clouds sqlx). All (λ job. IsAvailable clouds sqlx job k') js) (same)
        named

  waited_ended :
      (schedule : List ℕ) (c : Config) (w : W) (k : Kothak clouds sqlx) (e : Error)
      → after_wait clouds sqlx readers db (goroutines clouds sqlx readers db schedule c w)
        ≡ some (some k, some e)
      → AnyEnded clouds sqlx readers db e (goroutines clouds sqlx readers db schedule c w).1
  unfolding goroutines
  waited_ended schedule c w k e h =
      let js = jobs db c in
      let ws : Workers = map (started clouds sqlx readers db) js in
      let s : Shared clouds sqlx readers db = at_start clouds sqlx readers db w in
      let (done, same, some_error) =
        after_wait-some (run clouds sqlx readers db schedule ws s) k (some e) h in
      let (errs, reads) =
        run-AllEnded clouds sqlx readers db schedule ws s
          (tt, started_reads (λ e. AnyEnded clouds sqlx readers db e ws) js) in
      first-some (run clouds sqlx readers db schedule ws s).0.errs e
        (λ x. AnyEnded clouds sqlx readers db x (run clouds sqlx readers db schedule ws s).1)
        some_error errs

module _ {W : Type 0} (clouds : Clouds W) (sqlx : Sqlx W) (readers : Readers) where
  new_with-IsAvailable :
      (schedule : List ℕ) (c : Config) (w : W) (k : Kothak clouds sqlx)
      (r : DbConfig × Option Error)
      → new_with clouds sqlx readers schedule c w r ≡ some (some k, none)
      → All (λ job. IsAvailable clouds sqlx job k) (jobs r.0 c)
  unfolding new_with
  new_with-IsAvailable schedule c w k (db, some e) h = cc
  new_with-IsAvailable schedule c w k (db, none) h =
      waited-IsAvailable clouds sqlx readers db schedule c w k h

  -- If `New` returns no error, then under every order of the steps of its goroutines each configured
  -- object storage, redis and SQL database is there: the getter of its kind returns a connection under
  -- its name. This is so although the errors are appended with no lock, so that some may be lost.
  pub new-IsAvailable :
      (schedule : List ℕ) (c : Config) (w : W) (k : Kothak clouds sqlx)
      → new clouds sqlx readers schedule c w ≡ some (some k, none)
      → All (λ job. IsAvailable clouds sqlx job k) (jobs (set_default readers c.db_config).0 c)
  unfolding new
  new-IsAvailable schedule c w k h =
      new_with-IsAvailable schedule c w k (set_default readers c.db_config) h

  new_with-ended :
      (schedule : List ℕ) (c : Config) (w : W) (k : Kothak clouds sqlx) (e : Error)
      (r : DbConfig × Option Error)
      → new_with clouds sqlx readers schedule c w r ≡ some (some k, some e)
      → AnyEnded clouds sqlx readers r.0 e (goroutines clouds sqlx readers r.0 schedule c w).1
  unfolding new_with
  new_with-ended schedule c w k e (db, some x) h = cc
  new_with-ended schedule c w k e (db, none) h =
      waited_ended clouds sqlx readers db schedule c w k e h

  -- If `New` returns a `Kothak` with an error, then the error is one with which some goroutine ended,
  -- under every order of their steps.
  pub new-AnyEnded :
      (schedule : List ℕ) (c : Config) (w : W) (k : Kothak clouds sqlx) (e : Error)
      → new clouds sqlx readers schedule c w ≡ some (some k, some e)
      → AnyEnded clouds sqlx readers
          (set_default readers c.db_config).0
          e
          (goroutines clouds sqlx readers (set_default readers c.db_config).0 schedule c w).1
  unfolding new
  new-AnyEnded schedule c w k e h =
      new_with-ended schedule c w k e (set_default readers c.db_config) h
