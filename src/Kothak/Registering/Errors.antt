-- ===== src/Kothak/Registering/Errors.antt =====
-- Where the error that `New` of internal/kothak/kothak.go returns comes from.
use go_project_example.Base.{
  ℕ, zero, suc, List, [], ◌∷◌, ◌≡◌, refl, some, All, All-append, inl, inr, ◌⊎◌,
}
use go_project_example.Xerrors.{Error}
use go_project_example.Effects.{Outcome, ok, err, panic}
use go_project_example.Defaults.{Readers}
use go_project_example.Sqldb.{Sqlx}
use go_project_example.ObjectStorage.Providers.{Clouds}
use go_project_example.Kothak.Sql.{DbConfig}
use go_project_example.Kothak.Registry.{Made}
use go_project_example.Kothak.Connecting.{Job, run_job}
use go_project_example.Kothak.Racing.{
  Pc, connecting, reporting, failing, appending, finished, panicked, Worker, Shared, connected,
  move, step, run,
}

module _ {W : Type 0} (clouds : Clouds W) (sqlx : Sqlx W) (readers : Readers) (db : DbConfig) where
  abbrev pub Workers : Type 0
  Workers = List (Worker clouds sqlx readers db)

  -- Some goroutine ended with the error.
  abbrev pub AnyEnded : Error → Workers → Type 0
  AnyEnded e [] = ⊥
  AnyEnded e (w ∷ ws) = (w.pc ≡ finished (some e)) ⊎ AnyEnded e ws

  -- The slice that was read before a write holds only such errors.
  abbrev pub Read : (Error → Type 0) → Pc clouds sqlx readers db → Type 0
  Read P (appending e es) = All P es
  Read P connecting = Unit
  Read P (reporting m) = Unit
  Read P (failing e) = Unit
  Read P (finished r) = Unit
  Read P panicked = Unit

  -- The errors, those that are shared and those that were read.
  abbrev pub AllErrs : (Error → Type 0) → Workers → Shared clouds sqlx readers db → Type 0
  AllErrs P ws s = All P s.errs × All (λ w. Read P w.pc) ws

  All-map :
      (P Q : Error → Type 0) (es : List Error) → ((e : Error) → P e → Q e) → All P es → All Q es
  All-map P Q [] f h = tt
  All-map P Q (e ∷ es) f (h, hs) = (f e h, All-map P Q es f hs)

  Read-map :
      (P Q : Error → Type 0) (pc : Pc clouds sqlx readers db)
      → ((e : Error) → P e → Q e)
      → Read P pc
      → Read Q pc
  Read-map P Q (appending e es) f h = All-map P Q es f h
  Read-map P Q connecting f h = tt
  Read-map P Q (reporting m) f h = tt
  Read-map P Q (failing e) f h = tt
  Read-map P Q (finished r) f h = tt
  Read-map P Q panicked f h = tt

  reads-map :
      (P Q : Error → Type 0) (ws : Workers)
      → ((e : Error) → P e → Q e)
      → All (λ w. Read P w.pc) ws
      → All (λ w. Read Q w.pc) ws
  reads-map P Q [] f h = tt
  reads-map P Q (w ∷ ws) f (h, hs) = (Read-map P Q w.pc f h, reads-map P Q ws f hs)

  connected-Read :
      (P : Error → Type 0) (s : Shared clouds sqlx readers db) (r : W × Outcome (Made clouds sqlx))
      → All P s.errs
      → All P (connected clouds sqlx readers db s r).0.errs
        × Read P (connected clouds sqlx readers db s r).1
  connected-Read P s (w, ok m) h = (h, tt)
  connected-Read P s (w, err e) h = (h, tt)
  connected-Read P s (w, panic) h = (h, tt)

  -- A step of one goroutine adds at most the error that it then ended with.
  move-Read :
      (P : Error → Type 0) (job : Job) (pc : Pc clouds sqlx readers db)
      (s : Shared clouds sqlx readers db)
      → All P s.errs
      → Read P pc
      → ((e : Error) → (move clouds sqlx readers db job pc s).1 ≡ finished (some e) → P e)
      → All P (move clouds sqlx readers db job pc s).0.errs
        × Read P (move clouds sqlx readers db job pc s).1
  unfolding move
  move-Read P job connecting s h r f =
      connected-Read P s (run_job clouds sqlx readers db job s.world) h
  move-Read P job (reporting m) s h r f = (h, tt)
  move-Read P job (failing e) s h r f = (h, h)
  move-Read P job (appending e es) s h r f = (All-append P es (e ∷ []) r (f e refl, tt), tt)
  move-Read P job (finished r') s h r f = (h, tt)
  move-Read P job panicked s h r f = (h, tt)

  step-AllErrs :
      (P : Error → Type 0) (i : ℕ) (ws : Workers) (s : Shared clouds sqlx readers db)
      → AllErrs P ws s
      → ((e : Error) → AnyEnded e (step clouds sqlx readers db i ws s).1 → P e)
      → AllErrs P (step clouds sqlx readers db i ws s).1 (step clouds sqlx readers db i ws s).0
  unfolding step
  step-AllErrs P i [] s h f = h
  step-AllErrs P zero (w ∷ ws) s (h, (r, rs)) f =
      let (h', r') = move-Read P w.job w.pc s h r (λ e k. f e (inl k)) in (h', (r', rs))
  step-AllErrs P (suc i) (w ∷ ws) s (h, (r, rs)) f =
      let (h', rs') = step-AllErrs P i ws s (h, rs) (λ e k. f e (inr k)) in (h', (r, rs'))

  move-ended :
      (job : Job) (pc : Pc clouds sqlx readers db) (s : Shared clouds sqlx readers db) (e : Error)
      → pc ≡ finished (some e)
      → (move clouds sqlx readers db job pc s).1 ≡ finished (some e)
  unfolding move
  move-ended job pc s e h = rw h refl

  -- A goroutine that ended stays ended.
  step-ended :
      (e : Error) (i : ℕ) (ws : Workers) (s : Shared clouds sqlx readers db)
      → AnyEnded e ws
      → AnyEnded e (step clouds sqlx readers db i ws s).1
  unfolding step
  step-ended e i [] s h = h
  step-ended e zero (w ∷ ws) s (inl h) = inl (move-ended w.job w.pc s e h)
  step-ended e zero (w ∷ ws) s (inr h) = inr h
  step-ended e (suc i) (w ∷ ws) s (inl h) = inl h
  step-ended e (suc i) (w ∷ ws) s (inr h) = inr (step-ended e i ws s h)

  -- Every error was one that a goroutine ended with.
  abbrev pub AllEnded : Workers → Shared clouds sqlx readers db → Type 0
  AllEnded ws s = AllErrs (λ e. AnyEnded e ws) ws s

  step-AllEnded :
      (i : ℕ) (ws : Workers) (s : Shared clouds sqlx readers db)
      → AllEnded ws s
      → AllEnded (step clouds sqlx readers db i ws s).1 (step clouds sqlx readers db i ws s).0
  step-AllEnded i ws s (h, rs) =
      let P : Error → Type 0 = λ e. AnyEnded e (step clouds sqlx readers db i ws s).1 in
      let lift : (e : Error) → AnyEnded e ws → P e = λ e k. step-ended e i ws s k in
      step-AllErrs P i ws s
        (All-map (λ e. AnyEnded e ws) P s.errs lift h, reads-map (λ e. AnyEnded e ws) P ws lift rs)
        (λ e k. k)

  pub run-AllEnded :
      (is : List ℕ) (ws : Workers) (s : Shared clouds sqlx readers db)
      → AllEnded ws s
      → AllEnded (run clouds sqlx readers db is ws s).1 (run clouds sqlx readers db is ws s).0
  unfolding run
  run-AllEnded [] ws s h = h
  run-AllEnded (i ∷ is) ws s h =
      run-AllEnded is (step clouds sqlx readers db i ws s).1 (step clouds sqlx readers db i ws s).0
        (step-AllEnded i ws s h)
