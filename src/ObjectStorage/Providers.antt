-- ===== src/ObjectStorage/Providers.antt =====
-- internal/pkg/objectstorage/{local,gcs,s3}: the providers of a bucket, over gocloud.dev, Google's and
-- Amazon's clients and the file system, which are parameters.
use go_project_example.Base.{
  Bool, false, [], ◌∷◌, ◌++◌, Option, none, some, Bytes, codes, if◌then◌else◌,
}
use go_project_example.Text.{bytes_eq}
use go_project_example.Text.Paths.{dir}
use go_project_example.Xerrors.{Error, sentinel, message}
use go_project_example.Effects.{M, return, throw, ◌>>=◌, ◌>>◌}
use go_project_example.Log.{forgive}

-- `aws.Config`, as far as it is set.
pub record AwsConfig (Credentials : Type 0) : Type 0 where
  pub region : Bytes
  pub credentials : Credentials
  pub disable_ssl : Bool
  pub s3_force_path_style : Bool
  pub endpoint : Option Bytes

pub record Clouds (W : Type 0) : Type 1 where
  pub Handle : Type 0
  pub GoogleCredentials : Type 0
  pub GoogleClient : Type 0
  pub AwsCredentials : Type 0
  pub AwsSession : Type 0
  pub mkdir_all : Bytes → M W (Unit {0})
  pub open_file_bucket : Bytes → M W Handle
  pub read_file : Bytes → M W Bytes
  pub getenv : Bytes → W → Bytes
  pub credentials_from_json : Bytes → M W GoogleCredentials
  pub default_credentials : M W GoogleCredentials
  pub new_http_client : GoogleCredentials → M W GoogleClient
  pub open_gcs_bucket : GoogleClient → Bytes → M W Handle
  pub new_static_credentials : Bytes → Bytes → Bytes → AwsCredentials
  pub new_session : AwsConfig AwsCredentials → M W AwsSession
  pub open_s3_bucket : AwsSession → Bytes → M W Handle
  pub close : Handle → M W (Unit {0})

abbrev pub err_credentials_empty : Error
err_credentials_empty = sentinel (codes "credentials is empty")

module _ {W : Type 0} (clouds : Clouds W) where
  open clouds use {Handle, GoogleCredentials, GoogleClient, AwsCredentials}

  -- `gcs.Config`
  pub record GcsConfig : Type 0 where
    pub bucket : Bytes
    pub bucket_proto : Bytes
    pub bucket_url : Bytes
    pub credentials : Option GoogleCredentials

  -- `s3.Config`
  pub record S3Config : Type 0 where
    pub credentials : AwsCredentials
    pub region : Bytes
    pub endpoint : Bytes
    pub bucket : Bytes
    pub disable_ssl : Bool
    pub force_path_style : Bool
    pub bucket_proto : Bytes
    pub bucket_url : Bytes

  -- `StorageProvider`: a `Local`, a `GCS` or an `S3`
  pub data Provider : Type 0 where
    local : (path : Bytes) (bucket : Handle) (delete_on_close : Bool) → Provider
    gcs :
        (config : GcsConfig) (base_url : Bytes) (bucket : Handle) (client : GoogleClient) → Provider
    s3 : (bucket : Handle) (config : S3Config) → Provider

  -- `local.New`
  unfoldable pub new_local : Bytes → Bool → M W Provider
  new_local path delete_on_close = do
    λ w. forgive (clouds.mkdir_all (dir path) w)
    bucket ← clouds.open_file_bucket path
    return (local path bucket delete_on_close)

  abbrev given : Option GoogleCredentials → M W GoogleCredentials
  given none = clouds.default_credentials
  given (some creds) = return creds

  -- `gcs.NewConfig`
  unfoldable pub new_gcs_config : Option GoogleCredentials → M W GcsConfig
  new_gcs_config creds = do
    c ← given creds
    return (record {
      bucket = [];
      bucket_proto = codes "gs://";
      bucket_url = codes "gcr.io";
      credentials = some c;
    })

  -- `gcs.New`, with the credentials of the configuration
  abbrev pub new_gcs_with : GcsConfig → Option GoogleCredentials → M W Provider
  new_gcs_with c none = throw (message (codes "gcloud credentials is nil"))
  new_gcs_with c (some creds) = do
    client ← clouds.new_http_client creds
    bucket ← clouds.open_gcs_bucket client c.bucket
    return (gcs c (c.bucket_proto ++ c.bucket) bucket client)

  -- `gcs.New`
  unfoldable pub new_gcs : Option GcsConfig → M W Provider
  new_gcs none = throw (message (codes "gcs config cannot be nil"))
  new_gcs (some c) = new_gcs_with c c.credentials

  abbrev from_content : Bytes → M W GoogleCredentials
  from_content content =
      if bytes_eq content []
      then throw err_credentials_empty
      else clouds.credentials_from_json content

  -- `CredentialsFromFile` and `CredentialsFromEnvVar`
  unfoldable pub credentials_from_file : Bytes → M W GoogleCredentials
  credentials_from_file path = clouds.read_file path >>= from_content

  abbrev pub credentials_from_env_var : Bytes → M W GoogleCredentials
  credentials_from_env_var name w = from_content (clouds.getenv name w) w

  -- `s3.NewConfig`
  abbrev pub new_s3_config : AwsCredentials → S3Config
  new_s3_config creds = record {
    credentials = creds;
    region = [];
    endpoint = [];
    bucket = [];
    disable_ssl = false;
    force_path_style = false;
    bucket_proto = [];
    bucket_url = [];
  }

  abbrev pub aws_config : S3Config → AwsConfig AwsCredentials
  aws_config c = record {
    region = c.region;
    credentials = c.credentials;
    disable_ssl = c.disable_ssl;
    s3_force_path_style = c.force_path_style;
    endpoint = if bytes_eq c.endpoint [] then none else some c.endpoint;
  }

  -- `s3.New`
  unfoldable pub new_s3 : Option S3Config → M W Provider
  new_s3 none = throw (message (codes "s3 config cannot be nil"))
  new_s3 (some c) = do
    sess ← clouds.new_session (aws_config c)
    bucket ← clouds.open_s3_bucket sess c.bucket
    return (s3 bucket c)

  -- `Bucket`, `Name`, `BucketName`, `BucketURL` and `Close`
  abbrev pub handle_of : Provider → Handle
  handle_of (local path bucket d) = bucket
  handle_of (gcs c url bucket client) = bucket
  handle_of (s3 bucket c) = bucket

  abbrev pub name_of : Provider → Bytes
  name_of (local path bucket d) = codes "local"
  name_of (gcs c url bucket client) = codes "gcs"
  name_of (s3 bucket c) = codes "s3"

  abbrev pub bucket_name : Provider → Bytes
  bucket_name (local path bucket d) = path
  bucket_name (gcs c url bucket client) = c.bucket
  bucket_name (s3 bucket c) = c.bucket

  abbrev pub bucket_url : Provider → Bytes
  bucket_url (local path bucket d) = []
  bucket_url (gcs c url bucket client) = url ++ b'.' ∷ c.bucket_url
  bucket_url (s3 bucket c) = []

  abbrev pub close : Provider → M W (Unit {0})
  close p = clouds.close (handle_of p)
