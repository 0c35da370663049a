-- ===== src/Sqldb.antt =====
-- internal/pkg/sqldb: a leader and a follower connection, over github.com/jmoiron/sqlx, which is a
-- parameter.
pub mod Retrying
mod Tests
use go_project_example.Base.{
  ℕ, zero, suc, ◌+◌, Bool, true, false, List, [], ◌∷◌, ◌++◌, Option, none, some, Bytes, codes, ℤ,
  pos, negsuc, Result, if◌then◌else◌,
}
use go_project_example.Text.{bytes_eq}
use go_project_example.Xerrors.{Error, message}
use go_project_example.Effects.{
  Outcome, ok, err, panic, M, return, throw, crash, ◌>>=◌, ◌>>◌, continue,
}

-- `*sqlx.DB`, `sqlx.ConnectContext`, the methods that are called here, `time.Sleep` and the text of
-- an error.
pub record Sqlx (W : Type 0) : Type 1 where
  pub Conn : Type 0
  pub connect : Bytes → Bytes → W → W × Result Error Conn
  pub driver_name : Conn → Bytes
  pub set_max_open_conns : ℤ → Conn → M W (Unit {0})
  pub set_max_idle_conns : ℤ → Conn → M W (Unit {0})
  pub set_conn_max_lifetime : ℤ → Conn → M W (Unit {0})
  pub close : Conn → M W (Unit {0})
  pub sleep : ℕ → W → W
  pub error_text : Error → Bytes

pub record ConnectOptions : Type 0 where
  pub retry : ℤ
  pub max_open_connections : ℤ
  pub max_idle_connections : ℤ
  pub connection_max_lifetime : ℤ

abbrev pub zero_options : ConnectOptions
zero_options = record {
  retry = pos 0;
  max_open_connections = pos 0;
  max_idle_connections = pos 0;
  connection_max_lifetime = pos 0;
}

-- The methods that pass a call on to one of the two connections.
pub data Method : Type 0 where
  get select query named_query query_row : Method
  get_context select_context query_context query_row_context : Method
  exec named_exec begin beginx exec_context named_exec_context : Method

module _ {W : Type 0} (sqlx : Sqlx W) where
  open sqlx use {Conn}

  -- `DB`
  pub record Db : Type 0 where
    pub driver : Bytes
    pub leader : Conn
    pub follower : Conn

  -- `Wrap`
  unfoldable pub wrap : Conn → Conn → M W Db
  wrap leader follower =
      if bytes_eq (sqlx.driver_name leader) (sqlx.driver_name follower)
      then return
          (record { driver = sqlx.driver_name leader; leader = leader; follower = follower })
      else throw (
          message (
            codes "sqldb: leader and follower driver is not matched. leader = "
            ++ sqlx.driver_name leader
            ++ codes " follower = "
            ++ sqlx.driver_name follower))

  abbrev failed : Error → Error
  failed e = message (codes "sqldb: failed connect to database: " ++ sqlx.error_text e)

  abbrev pub once : W × Result Error Conn → W × Outcome (Option Conn)
  once (w, Result.ok db) = (w, ok (some db))
  once (w, Result.err e) = (w, err e)

  -- What follows an attempt when `n` more may be made, given what they would do.
  abbrev pub after :
      ℕ → (W → W × Outcome (Option Conn)) → W × Result Error Conn → W × Outcome (Option Conn)
  after n more (w, Result.ok db) = (w, ok (some db))
  after zero more (w, Result.err e) = (w, err (failed e))
  after (suc n) more (w, Result.err e) = more (sqlx.sleep 3 w)

  -- The loop of `connectWithRetry`, with so many rounds left; with no round at all the connection and
  -- the error are nil.
  unfoldable pub attempts : ℕ → Bytes → Bytes → M W (Option Conn)
  attempts zero driver dsn w = (w, ok none)
  attempts (suc n) driver dsn w = after n (attempts n driver dsn) (sqlx.connect driver dsn w)

  -- `connectWithRetry`
  unfoldable pub connect_with_retry : Bytes → Bytes → ℤ → M W (Option Conn)
  unfolding attempts
  connect_with_retry driver dsn (pos zero) w = once (sqlx.connect driver dsn w)
  connect_with_retry driver dsn (pos (suc n)) w = attempts (suc n) driver dsn w
  connect_with_retry driver dsn (negsuc n) w = attempts zero driver dsn w

  -- `Connect`, past `connectWithRetry`: a method of a nil connection panics.
  abbrev pub configure : ConnectOptions → Option Conn → M W Conn
  configure opts none = crash
  configure opts (some db) = do
    sqlx.set_max_open_conns opts.max_open_connections db
    sqlx.set_max_idle_conns opts.max_idle_connections db
    sqlx.set_conn_max_lifetime opts.connection_max_lifetime db
    return db

  abbrev or_zero : Option ConnectOptions → ConnectOptions
  or_zero none = zero_options
  or_zero (some opts) = opts

  -- `Connect`
  unfoldable pub connect : Bytes → Bytes → Option ConnectOptions → M W Conn
  unfolding connect_with_retry
  connect driver dsn options =
      connect_with_retry driver dsn (or_zero options).retry >>= configure (or_zero options)

  -- `Close`
  unfoldable pub close : Db → M W (Unit {0})
  close db = sqlx.close db.leader >> sqlx.close db.follower

  -- `SetMaxIdleConns`, `SetMaxOpenConns` and `SetConnMaxLifetime`
  abbrev pub set_max_idle_conns : ℤ → Db → M W (Unit {0})
  set_max_idle_conns n db =
      sqlx.set_max_idle_conns n db.leader >> sqlx.set_max_idle_conns n db.follower

  abbrev pub set_max_open_conns : ℤ → Db → M W (Unit {0})
  set_max_open_conns n db =
      sqlx.set_max_open_conns n db.leader >> sqlx.set_max_open_conns n db.follower

  abbrev pub set_conn_max_lifetime : ℤ → Db → M W (Unit {0})
  set_conn_max_lifetime t db =
      sqlx.set_conn_max_lifetime t db.leader >> sqlx.set_conn_max_lifetime t db.follower

  -- The connection that each method goes to.
  unfoldable pub target : Method → Db → Conn
  target get db = db.follower
  target select db = db.follower
  target query db = db.follower
  target named_query db = db.follower
  target query_row db = db.follower
  target get_context db = db.follower
  target select_context db = db.follower
  target query_context db = db.follower
  target query_row_context db = db.follower
  target exec db = db.leader
  target named_exec db = db.leader
  target begin db = db.leader
  target beginx db = db.leader
  target exec_context db = db.leader
  target named_exec_context db = db.leader
