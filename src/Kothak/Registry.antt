-- ===== src/Kothak/Registry.antt =====
-- internal/kothak/kothak.go: the `Kothak` and its methods.
use go_project_example.Base.{List, [], ◌∷◌, ◌++◌, Option, none, some, Bytes, codes, Result}
use go_project_example.Base.{ok, err}
use go_project_example.Text.Maps.{lookup, insert}
use go_project_example.Xerrors.{Error, message}
use go_project_example.Effects.{M, return, ◌>>◌}
use go_project_example.Log.Global.{drop_error}
use go_project_example.Sqldb
use go_project_example.Sqldb.{Sqlx, Db}
use go_project_example.ObjectStorage.Providers
use go_project_example.ObjectStorage.Providers.{Clouds, Provider}

-- `*redigo.Redigo`: a pool that dials the address when a connection is asked for.
pub record Redigo : Type 0 where
  pub address : Bytes

-- What ends a `MustGet`: the value, or `os.Exit(1)`.
pub data Must (A : Type 0) : Type 0 where
  value : A → Must A
  exits : Must A

abbrev pub must : {A : Type 0} → Result Error A → Must A
must (ok a) = value a
must (err e) = exits

module _ {W : Type 0} (clouds : Clouds W) (sqlx : Sqlx W) where
  -- `Kothak`
  pub record Kothak : Type 0 where
    pub obj_storages : List (Bytes × Provider clouds)
    pub dbs : List (Bytes × Db sqlx)
    pub rds : List (Bytes × Redigo)

  abbrev pub empty : Kothak
  empty = record { obj_storages = []; dbs = []; rds = [] }

  -- A connection that was made, with its name.
  pub data Made : Type 0 where
    made_storage : Bytes → Provider clouds → Made
    made_sql_db : Bytes → Db sqlx → Made
    made_redis : Bytes → Redigo → Made

  -- `setObjectStorage`, `setSQLDB` and `setRedis`
  unfoldable pub register : Made → Kothak → Kothak
  register (made_storage name p) k = record k { obj_storages = insert name p k.obj_storages }
  register (made_sql_db name db) k = record k { dbs = insert name db k.dbs }
  register (made_redis name r) k = record k { rds = insert name r k.rds }

  abbrev found : {A : Type 0} → Bytes → Bytes → Option A → Result Error A
  found what name none = err (
      message (codes "kothak: " ++ what ++ codes " with name " ++ name ++ codes " does not exists"))
  found what name (some a) = ok a

  -- `GetSQLDB`, `GetRedis` and `GetObjectStorage`
  unfoldable pub get_sql_db : Bytes → Kothak → Result Error (Db sqlx)
  get_sql_db name k = found (codes "sql database") name (lookup name k.dbs)

  unfoldable pub get_redis : Bytes → Kothak → Result Error Redigo
  get_redis name k = found (codes "redis") name (lookup name k.rds)

  unfoldable pub get_object_storage : Bytes → Kothak → Result Error (Provider clouds)
  get_object_storage name k = found (codes "object storage") name (lookup name k.obj_storages)

  -- `MustGetSQLDB`, `MustGetRedis` and `MustGetObjectStorage`
  unfoldable pub must_get_sql_db : Bytes → Kothak → Must (Db sqlx)
  unfolding get_sql_db
  must_get_sql_db name k = must (get_sql_db name k)

  unfoldable pub must_get_redis : Bytes → Kothak → Must Redigo
  unfolding get_redis
  must_get_redis name k = must (get_redis name k)

  unfoldable pub must_get_object_storage : Bytes → Kothak → Must (Provider clouds)
  unfolding get_object_storage
  must_get_object_storage name k = must (get_object_storage name k)

  abbrev close_each : {A : Type 0} → (A → M W (Unit {0})) → List (Bytes × A) → M W (Unit {0})
  close_each close [] = return tt
  close_each close ((name, a) ∷ m) = drop_error (close a) >> close_each close m

  -- `CloseAll`, over the `Close` of a pool of redis connections
  unfoldable pub close_all : (Redigo → M W (Unit {0})) → Kothak → M W (Unit {0})
  close_all close_redis k =
      close_each (Providers.close clouds) k.obj_storages
      >> close_each (λ db. Sqldb.close sqlx db) k.dbs
      >> close_each close_redis k.rds
