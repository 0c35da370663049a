-- ===== src/Kothak/Registering/Ending.antt =====
-- How long a goroutine of `New` in internal/kothak/kothak.go goes on.
use go_project_example.Base.{
  ℕ, zero, suc, ◌+◌, Bool, true, false, List, [], ◌∷◌, ◌==◌, if◌then◌else◌,
}
use go_project_example.Defaults.{Readers}
use go_project_example.Sqldb.{Sqlx}
use go_project_example.ObjectStorage.Providers.{Clouds}
use go_project_example.Kothak.Sql.{DbConfig}
use go_project_example.Kothak.Racing.{
  Pc, connecting, reporting, failing, appending, finished, panicked, Worker,
}

-- How often a goroutine is scheduled.
abbrev pub turns : ℕ → List ℕ → ℕ
turns j [] = 0
turns j (i ∷ is) = (if i == j then 1 else 0) + turns j is

module _ {W : Type 0} (clouds : Clouds W) (sqlx : Sqlx W) (readers : Readers) (db : DbConfig) where
  abbrev Workers : Type 0
  Workers = List (Worker clouds sqlx readers db)

  -- The steps that are left, at most.
  abbrev left : Pc clouds sqlx readers db → ℕ
  left connecting = 3
  left (reporting m) = 1
  left (failing e) = 2
  left (appending e es) = 1
  left (finished r) = 0
  left panicked = 0

  abbrev left_at : ℕ → Workers → ℕ
  left_at j [] = 0
  left_at zero (w ∷ ws) = left w.pc
  left_at (suc j) (w ∷ ws) = left_at j ws

  abbrev pub is_over : Pc clouds sqlx readers db → Bool
  is_over (finished r) = true
  is_over panicked = true
  is_over connecting = false
  is_over (reporting m) = false
  is_over (failing e) = false
  is_over (appending e es) = false

  -- The goroutine with the number has ended or panicked, or there is none.
  abbrev pub is_over_at : ℕ → Workers → Bool
  is_over_at j [] = true
  is_over_at zero (w ∷ ws) = is_over w.pc
  is_over_at (suc j) (w ∷ ws) = is_over_at j ws
