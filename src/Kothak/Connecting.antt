-- ===== src/Kothak/Connecting.antt =====
-- internal/kothak/kothak.go: what each goroutine of `New` does before it reports, with the
-- configurations of object_storage.go and redis.go.
use go_project_example.Base.{
  ◌||◌, Bool, false, List, [], ◌++◌, map, Option, none, some, Bytes, codes, ℤ, pos, if◌then◌else◌,
}
use go_project_example.Text.{bytes_eq}
use go_project_example.Text.Case.{to_lower}
use go_project_example.Xerrors.{Error, message}
use go_project_example.Effects.{M, return, throw, ◌>>=◌}
use go_project_example.Defaults.{Readers}
use go_project_example.Sqldb
use go_project_example.Sqldb.{Sqlx, Db, ConnectOptions}
use go_project_example.ObjectStorage.Providers.{
  Clouds, Provider, new_local, new_gcs, new_gcs_config, new_s3, new_s3_config,
  credentials_from_file,
}
use go_project_example.Kothak.Sql.{ConnectionConfig, SqlDbConfig, DbConfig, set_connection_default}
use go_project_example.Kothak.Registry.{Redigo, Made, made_storage, made_sql_db, made_redis}

-- `ObjectStorageConfig`, with `S3Config` and the part of `GCSConfig` that is read
pub record ObjectStorageConfig : Type 0 where
  pub name : Bytes
  pub provider : Bytes
  pub region : Bytes
  pub endpoint : Bytes
  pub bucket : Bytes
  pub bucket_proto : Bytes
  pub bucket_url : Bytes
  pub s3_client_id : Bytes
  pub s3_client_secret : Bytes
  pub s3_disable_ssl : Bool
  pub s3_force_path_style : Bool
  pub gcs_json_key : Bytes

-- `RedisConnConfig`
pub record RedisConnConfig : Type 0 where
  pub name : Bytes
  pub address : Bytes
  pub max_idle : ℤ
  pub max_active : ℤ
  pub timeout : ℤ

-- `RedisConfig`
pub record RedisConfig : Type 0 where
  pub max_idle : ℤ
  pub max_active : ℤ
  pub timeout : ℤ
  pub rds : List RedisConnConfig

pub record Config : Type 0 where
  pub db_config : DbConfig
  pub redis_config : RedisConfig
  pub object_storage : List ObjectStorageConfig

-- What a goroutine connects to.
pub data Job : Type 0 where
  storage_job : ObjectStorageConfig → Job
  redis_job : RedisConnConfig → Job
  sql_db_job : SqlDbConfig → Job

-- The goroutines, in the order in which they are started.
unfoldable pub jobs : DbConfig → Config → List Job
jobs db c =
    map storage_job c.object_storage
    ++ (map redis_job c.redis_config.rds ++ map sql_db_job db.sql_dbs)

module _ {W : Type 0} (clouds : Clouds W) (sqlx : Sqlx W) (readers : Readers) where
  abbrev connect_gcs : ObjectStorageConfig → M W (Provider clouds)
  connect_gcs c = do
    creds ← credentials_from_file clouds c.gcs_json_key
    config ← new_gcs_config clouds (some creds)
    new_gcs clouds (
        some (record config {
          bucket = c.bucket;
          bucket_proto = c.bucket_proto;
          bucket_url = c.bucket_url;
        }))

  abbrev connect_s3 : ObjectStorageConfig → M W (Provider clouds)
  connect_s3 c = new_s3 clouds (
      some
        (record (new_s3_config clouds
          (clouds.new_static_credentials c.s3_client_id c.s3_client_secret [])) {
            bucket = c.bucket;
            bucket_proto = c.bucket_proto;
            bucket_url = c.bucket_url;
            region = c.region;
            endpoint = c.endpoint;
            disable_ssl = c.s3_disable_ssl;
            force_path_style = c.s3_force_path_style;
          }))

  -- The switch on the provider, in lower case
  unfoldable pub connect_storage : ObjectStorageConfig → M W (Provider clouds)
  connect_storage c =
      let provider = to_lower c.provider in
      if bytes_eq provider (codes "local")
      then new_local clouds (codes "./" ++ c.bucket) false
      else if bytes_eq provider (codes "gcs")
      then connect_gcs c
      else if bytes_eq provider (codes "s3")
          || bytes_eq provider (codes "do")
          || bytes_eq provider (codes "minio")
      then connect_s3 c
      else throw (message (codes "kothak: object storage provider not found"))

  -- `redigo.New`: it does not connect, and drops the configuration.
  abbrev pub new_redigo : Bytes → M W Redigo
  new_redigo address = return (record { address = address })

  abbrev defaulted : ConnectionConfig × Option Error → M W ConnectionConfig
  defaulted (c, some e) = throw e
  defaulted (c, none) = return c

  -- One of the two connections of a database: the lifetime is not passed on.
  unfoldable pub connect_one : DbConfig → Bytes → ConnectionConfig → M W sqlx.Conn
  connect_one db driver config = do
    c ← defaulted (set_connection_default readers db config)
    Sqldb.connect sqlx driver c.dsn (
        some (record {
          retry = c.max_retry;
          max_open_connections = c.max_open_connections;
          max_idle_connections = c.max_idle_connections;
          connection_max_lifetime = pos 0;
        }))

  abbrev connect_follower : DbConfig → SqlDbConfig → sqlx.Conn → M W sqlx.Conn
  unfolding connect_one
  connect_follower db c leader =
      if bytes_eq c.replica.dsn [] then return leader else connect_one db c.driver c.replica

  unfoldable pub connect_sql_db : DbConfig → SqlDbConfig → M W (Db sqlx)
  unfolding connect_one
  connect_sql_db db c = do
    leader ← connect_one db c.driver c.leader
    follower ← connect_follower db c leader
    Sqldb.wrap sqlx leader follower

  -- A goroutine, up to what it reports
  unfoldable pub run_job : DbConfig → Job → M W (Made clouds sqlx)
  unfolding connect_storage connect_sql_db
  run_job db (storage_job c) = do p ← connect_storage c; return (made_storage c.name p)
  run_job db (redis_job c) = do r ← new_redigo c.address; return (made_redis c.name r)
  run_job db (sql_db_job c) = do d ← connect_sql_db db c; return (made_sql_db c.name d)
