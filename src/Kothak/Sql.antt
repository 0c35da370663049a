-- ===== src/Kothak/Sql.antt =====
-- internal/kothak/sql.go: the configuration of the SQL databases.
pub mod Defaulting
use go_project_example.Base.{
  Bool, true, false, List, [], ◌∷◌, Option, none, some, Bytes, codes, ℤ, pos, eqb_ℤ, if◌then◌else◌,
}
use go_project_example.Text.{bytes_eq}
use go_project_example.Xerrors.{Error}
use go_project_example.Defaults.{
  Kind, int_kind, string_kind, other_kind, FieldType, Content, int, text, opaque, Field, Readers,
  set_fields, time_duration,
}

-- `SQLDBConnectionConfig`
pub record ConnectionConfig : Type 0 where
  pub dsn : Bytes
  pub max_open_connections : ℤ
  pub max_idle_connections : ℤ
  pub connection_max_lifetime : Bytes
  pub max_retry : ℤ
  pub conn_max_lifetime : ℤ

-- `SQLDBConfig`
pub record SqlDbConfig : Type 0 where
  pub name : Bytes
  pub driver : Bytes
  pub leader : ConnectionConfig
  pub replica : ConnectionConfig

-- `DBConfig`
pub record DbConfig : Type 0 where
  pub max_retry : ℤ
  pub max_open_connections : ℤ
  pub max_idle_connections : ℤ
  pub connection_max_lifetime : Bytes
  pub sql_dbs : List SqlDbConfig
  pub conn_max_lifetime : ℤ

abbrev int_type : FieldType
int_type = record { kind = int_kind 64; type_name = codes "int" }

abbrev int_field : Bytes → Bytes → ℤ → Field
int_field name tag n = record {
  name = name;
  type = int_type;
  tag = tag;
  exported = true;
  content = int n;
}

abbrev lifetime_field : Bytes → Field
lifetime_field s = record {
  name = codes "ConnectionMaxLifetime";
  type = record { kind = string_kind; type_name = codes "string" };
  tag = codes "30s";
  exported = true;
  content = text s;
}

-- Of the list of databases only whether it is nil matters.
abbrev dbs_field : List SqlDbConfig → Field
dbs_field dbs = record {
  name = codes "SQLDBs";
  type = record { kind = other_kind 23; type_name = codes "[]kothak.SQLDBConfig" };
  tag = [];
  exported = true;
  content = opaque (elim dbs [ [] ↦ none | (d ∷ ds) ↦ some 0 ]);
}

abbrev parsed_field : ℤ → Field
parsed_field n = record {
  name = codes "connMaxLifetime";
  type = record { kind = int_kind 64; type_name = time_duration };
  tag = [];
  exported = false;
  content = int n;
}

-- The struct as reflection sees it.
abbrev pub fields : DbConfig → List Field
fields c =
    int_field (codes "MaxRetry") (codes "1") c.max_retry
    ∷ int_field (codes "MaxOpenConnections") (codes "10") c.max_open_connections
    ∷ int_field (codes "MaxIdleConnections") (codes "2") c.max_idle_connections
    ∷ lifetime_field c.connection_max_lifetime
    ∷ dbs_field c.sql_dbs
    ∷ parsed_field c.conn_max_lifetime
    ∷ []

abbrev to_int : Content → ℤ → ℤ
to_int (int n) old = n
to_int _ old = old

abbrev to_text : Content → Bytes → Bytes
to_text (text s) old = s
to_text _ old = old

-- The struct with the contents of its fields.
abbrev pub with_fields : List Field → DbConfig → DbConfig
with_fields (a ∷ b ∷ d ∷ l ∷ rest) c = record c {
  max_retry = to_int a.content c.max_retry;
  max_open_connections = to_int b.content c.max_open_connections;
  max_idle_connections = to_int d.content c.max_idle_connections;
  connection_max_lifetime = to_text l.content c.connection_max_lifetime;
}
with_fields _ c = c

module _ (readers : Readers) where
  abbrev parsed : DbConfig → Option ℤ → DbConfig × Option Error
  parsed c none = (c, some (readers.duration_error c.connection_max_lifetime))
  parsed c (some d) = (record c { conn_max_lifetime = d }, none)

  abbrev after_fields : DbConfig → Option Error → DbConfig × Option Error
  after_fields c (some e) = (c, some e)
  after_fields c none =
      if bytes_eq c.connection_max_lifetime []
      then (c, none)
      else parsed c (readers.parse_duration c.connection_max_lifetime)

  -- `DBConfig.SetDefault`
  unfoldable pub set_default : DbConfig → DbConfig × Option Error
  set_default c = let (fs, e) = set_fields readers (fields c) in after_fields (with_fields fs c) e

  abbrev or_int : ℤ → ℤ → ℤ
  or_int n default = if eqb_ℤ n (pos 0) then default else n

  abbrev or_text : Bytes → Bytes → Bytes
  or_text s default = if bytes_eq s [] then default else s

  -- The fields that `SQLDBConnectionConfig.SetDefault` takes from the configuration of all databases.
  abbrev pub inherit : DbConfig → ConnectionConfig → ConnectionConfig
  inherit db c = record {
    dsn = c.dsn;
    max_open_connections = or_int c.max_open_connections db.max_open_connections;
    max_idle_connections = or_int c.max_idle_connections db.max_idle_connections;
    connection_max_lifetime = or_text c.connection_max_lifetime db.connection_max_lifetime;
    max_retry = or_int c.max_retry db.max_retry;
    conn_max_lifetime = db.conn_max_lifetime;
  }

  abbrev connection_parsed : ConnectionConfig → Option ℤ → ConnectionConfig × Option Error
  connection_parsed c none = (c, some (readers.duration_error c.connection_max_lifetime))
  connection_parsed c (some d) = (record c { conn_max_lifetime = d }, none)

  abbrev with_lifetime : ConnectionConfig → ConnectionConfig × Option Error
  with_lifetime c =
      if bytes_eq c.connection_max_lifetime []
      then (c, none)
      else connection_parsed c (readers.parse_duration c.connection_max_lifetime)

  -- `SQLDBConnectionConfig.SetDefault`
  unfoldable pub set_connection_default :
      DbConfig → ConnectionConfig → ConnectionConfig × Option Error
  set_connection_default db c = with_lifetime (inherit db c)
