-- ===== src/Kothak/Tests.antt =====
-- One SQL database, one redis and one bucket of a provider that is not known.
use go_project_example.Base.{
  ℕ, false, List, [], ◌∷◌, ◌≡◌, refl, none, some, Bytes, codes, pos, All, Result,
}
use go_project_example.Text.{bytes_eq}
use go_project_example.Text.Case.{to_lower}
use go_project_example.Text.Maps.{insert}
use go_project_example.Text.Decimal.{parse_int}
use go_project_example.Xerrors.{Error, backend, message}
use go_project_example.Effects.{return}
use go_project_example.Defaults.{Readers, set_fields, wrap, by_type, by_kind, converted}
use go_project_example.Sqldb
use go_project_example.Sqldb.{Sqlx}
use go_project_example.ObjectStorage.Providers.{Clouds}
use go_project_example.Kothak.Sql.{
  ConnectionConfig, SqlDbConfig, DbConfig, set_default, set_connection_default,
}
use go_project_example.Kothak.Registry.{Kothak, register}
use go_project_example.Kothak.Connecting.{
  Config, ObjectStorageConfig, RedisConnConfig, jobs, run_job, connect_one,
}
use go_project_example.Kothak.Racing.{new, goroutines}
use go_project_example.Kothak.Registering.Availability.{IsAvailable}
use go_project_example.Kothak.Registering.Reporting.{new-IsAvailable, new-AnyEnded}
use go_project_example.Kothak.Registering.Errors.{AnyEnded}

abbrev World : Type 0
World = Unit {0}

-- Every duration reads as thirty seconds.
abbrev readers : Readers
readers = record {
  parse_duration = λ s. some (pos 30000000000);
  parse_float = λ bits s. none;
  duration_error = λ s. backend 1;
  float_error = λ s. backend 2;
  int_error = λ s. backend 3;
}

-- A connection is known by its driver, and a bucket by its name.
abbrev sqlx : Sqlx World
sqlx = record {
  Conn = Bytes;
  connect = λ driver dsn w. (w, Result.ok driver);
  driver_name = λ c. c;
  set_max_open_conns = λ n c. return tt;
  set_max_idle_conns = λ n c. return tt;
  set_conn_max_lifetime = λ n c. return tt;
  close = λ c. return tt;
  sleep = λ n w. w;
  error_text = λ e. [];
}

abbrev clouds : Clouds World
clouds = record {
  Handle = Bytes;
  GoogleCredentials = Bytes;
  GoogleClient = Bytes;
  AwsCredentials = Bytes;
  AwsSession = Bytes;
  mkdir_all = λ name. return tt;
  open_file_bucket = λ name. return name;
  read_file = λ name. return name;
  getenv = λ name w. [];
  credentials_from_json = λ json. return json;
  default_credentials = return [];
  new_http_client = λ c. return c;
  open_gcs_bucket = λ c name. return name;
  new_static_credentials = λ id secret token. id;
  new_session = λ c. return (c.credentials);
  open_s3_bucket = λ s name. return name;
  close = λ h. return tt;
}

abbrev connection : Bytes → ConnectionConfig
connection dsn = record {
  dsn = dsn;
  max_open_connections = pos 0;
  max_idle_connections = pos 0;
  connection_max_lifetime = [];
  max_retry = pos 0;
  conn_max_lifetime = pos 0;
}

abbrev db_config : List SqlDbConfig → DbConfig
db_config dbs = record {
  max_retry = pos 3;
  max_open_connections = pos 0;
  max_idle_connections = pos 0;
  connection_max_lifetime = [];
  sql_dbs = dbs;
  conn_max_lifetime = pos 0;
}

abbrev users : SqlDbConfig
users = record {
  name = codes "user";
  driver = codes "postgres";
  leader = connection (codes "leader");
  replica = connection [];
}

abbrev cache : RedisConnConfig
cache = record {
  name = codes "cache";
  address = codes "localhost:6379";
  max_idle = pos 0;
  max_active = pos 0;
  timeout = pos 0;
}

abbrev images : Bytes → ObjectStorageConfig
images provider = record {
  name = codes "image";
  provider = provider;
  region = [];
  endpoint = [];
  bucket = codes "images";
  bucket_proto = [];
  bucket_url = [];
  s3_client_id = [];
  s3_client_secret = [];
  s3_disable_ssl = false;
  s3_force_path_style = false;
  gcs_json_key = [];
}

abbrev config : List ObjectStorageConfig → Config
config storages = record {
  db_config = db_config (users ∷ []);
  redis_config = record { max_idle = pos 0; max_active = pos 0; timeout = pos 0; rds = cache ∷ [] };
  object_storage = storages;
}

abbrev connected : Kothak clouds sqlx
connected = record {
  obj_storages = [];
  dbs =
      (
        codes "user",
        record {
          driver = codes "postgres";
          leader = codes "postgres";
          follower = codes "postgres";
        },
      )
      ∷ [];
  rds = (codes "cache", record { address = codes "localhost:6379" }) ∷ [];
}

abbrev interleaved : List ℕ
interleaved = 0 ∷ 1 ∷ 1 ∷ 0 ∷ []

new_connects : new clouds sqlx readers interleaved (config []) tt ≡ some (some connected, none)
unfolding new set_default set_connection_default set_fields wrap by_type by_kind converted bytes_eq
    parse_int run_job jobs connect_one Sqldb.connect Sqldb.connect_with_retry Sqldb.attempts
    Sqldb.wrap insert register
new_connects = refl

new-IsAvailable_example :
    All
      (λ job. IsAvailable clouds sqlx job connected)
      (jobs (set_default readers (db_config (users ∷ []))).0 (config []))
new-IsAvailable_example =
    new-IsAvailable clouds sqlx readers interleaved (config []) tt connected new_connects

abbrev not_found : Error
not_found = message (codes "kothak: object storage provider not found")

abbrev with_error : Config
with_error = config (images (codes "ftp") ∷ images (codes "azure") ∷ [])

-- Two goroutines fail, and the second one to write drops the error of the first.
abbrev racing : List ℕ
racing = 0 ∷ 1 ∷ 0 ∷ 1 ∷ 0 ∷ 1 ∷ 2 ∷ 2 ∷ 3 ∷ 3 ∷ []

new_fails : new clouds sqlx readers racing with_error tt ≡ some (some connected, some not_found)
unfolding new set_default set_connection_default set_fields wrap by_type by_kind converted bytes_eq
    parse_int run_job jobs connect_one Sqldb.connect Sqldb.connect_with_retry Sqldb.attempts
    Sqldb.wrap insert register to_lower
new_fails = refl

new-AnyEnded_example :
    AnyEnded clouds sqlx readers
      (set_default readers (db_config (users ∷ []))).0
      not_found
      (goroutines clouds sqlx readers
        (set_default readers (db_config (users ∷ []))).0
        racing
        with_error
        tt).1
new-AnyEnded_example =
    new-AnyEnded clouds sqlx readers racing with_error tt connected not_found new_fails
