-- ===== src/Kothak/Registering/Availability.antt =====
-- The getters of internal/kothak/kothak.go for what a goroutine connected to.
use go_project_example.Base.{◌≡◌, refl, inl, inr, Option-cases, ok}
use go_project_example.Text.Maps.{lookup}
use go_project_example.Sqldb.{Sqlx, Db}
use go_project_example.ObjectStorage.Providers.{Clouds, Provider}
use go_project_example.Kothak.Registry.{Kothak, Redigo, get_sql_db, get_redis, get_object_storage}
use go_project_example.Kothak.Connecting.{Job, storage_job, redis_job, sql_db_job}
use go_project_example.Kothak.Registering.{IsRegistered}

module _ {W : Type 0} (clouds : Clouds W) (sqlx : Sqlx W) where
  -- The getter of a job's kind returns a connection under the job's name.
  abbrev pub IsAvailable : Job → Kothak clouds sqlx → Type 0
  IsAvailable (storage_job c) k =
      (p : Provider clouds) × (get_object_storage clouds sqlx c.name k ≡ ok p)
  IsAvailable (redis_job c) k = (r : Redigo) × (get_redis clouds sqlx c.name k ≡ ok r)
  IsAvailable (sql_db_job c) k = (d : Db sqlx) × (get_sql_db clouds sqlx c.name k ≡ ok d)

  pub available :
      (job : Job) (k : Kothak clouds sqlx) → IsRegistered clouds sqlx job k → IsAvailable job k
  unfolding get_object_storage get_redis get_sql_db
  available (storage_job c) k h = elim (Option-cases (lookup c.name k.obj_storages)) [
    | inl e ↦ absurd (h e)
    | inr (p, e) ↦ (p, rw e refl)
  ]
  available (redis_job c) k h = elim (Option-cases (lookup c.name k.rds)) [
    | inl e ↦ absurd (h e)
    | inr (r, e) ↦ (r, rw e refl)
  ]
  available (sql_db_job c) k h = elim (Option-cases (lookup c.name k.dbs)) [
    | inl e ↦ absurd (h e)
    | inr (d, e) ↦ (d, rw e refl)
  ]
