-- ===== src/Sqldb/Tests.antt =====
-- A server that refuses a number of connections, and counts the attempts.
use go_project_example.Base.{ℕ, zero, suc, ◌+◌, [], ◌≡◌, refl, some, Bytes, codes, Result}
use go_project_example.Xerrors.{Error, backend}
use go_project_example.Effects.{ok, return}
use go_project_example.Sqldb.{Sqlx, connect_with_retry, attempts}
use go_project_example.Sqldb.Retrying.{Within, connect_with_retry-Within}

pub record Server : Type 0 where
  pub refusing : ℕ
  pub tried : ℕ

abbrev attempt : ℕ → ℕ → Server × Result Error Bytes
attempt zero tried = (record { refusing = 0; tried = tried + 1 }, Result.ok (codes "postgres"))
attempt (suc n) tried = (record { refusing = n; tried = tried + 1 }, Result.err (backend 111))

-- A connection is known by its driver.
abbrev sqlx : Sqlx Server
sqlx = record {
  Conn = Bytes;
  connect = λ driver dsn s. attempt s.refusing s.tried;
  driver_name = λ c. c;
  set_max_open_conns = λ n c. return tt;
  set_max_idle_conns = λ n c. return tt;
  set_conn_max_lifetime = λ n c. return tt;
  close = λ c. return tt;
  sleep = λ n s. s;
  error_text = λ e. [];
}

attempt-tried : (n t : ℕ) → (attempt n t).0.tried ≡ t + 1
attempt-tried zero t = refl
attempt-tried (suc n) t = refl

abbrev server : Server
server = record { refusing = 1; tried = 4 }

-- The second of three attempts succeeds.
connect_with_retry-Within_example :
    Within sqlx
      (λ s. s.tried)
      (λ d n s. attempt-tried s.refusing s.tried)
      (λ n s. refl)
      4
      3
      (record { refusing = 0; tried = 6 }, ok (some (codes "postgres")))
unfolding connect_with_retry attempts
connect_with_retry-Within_example =
    connect_with_retry-Within sqlx (λ s. s.tried) (λ d n s. attempt-tried s.refusing s.tried)
      (λ n s. refl) 3 (codes "postgres") (codes "dsn") server
