-- ===== src/Redis.antt =====
-- internal/pkg/redis/redigo/redigo.go: commands to a Redis server.
--
-- The redigo client and the server are not part of the repository: `Client` stands for
-- `redigo.String(conn.Do(...))` and its like, over the state of the server.
pub mod Keys
pub mod Lists
pub mod Laws
mod Tests
use go_project_example.Base.{ℕ, Bool, true, false, List, [], ◌∷◌, Bytes, codes, ℤ, if◌then◌else◌}
use go_project_example.Text.{bytes_eq}
use go_project_example.Xerrors.{Error, sentinel}
use go_project_example.Effects.{Outcome, ok, err, panic, M}

-- One argument of a command.
pub data Arg : Type 0 where
  text : Bytes → Arg
  int : ℤ → Arg

pub record Command : Type 0 where
  pub name : Bytes
  pub args : List Arg

-- `conn.Do` with the conversion of the reply, and `errors.Is(e, redigo.ErrNil)`.
pub record Client (S : Type 0) : Type 0 where
  pub do_string : Command → M S Bytes
  pub do_strings : Command → M S (List Bytes)
  pub do_int : Command → M S ℤ
  pub is_err_nil : Error → Bool

abbrev pub err_response_not_ok : Error
err_response_not_ok = sentinel (codes "redis: response is not ok")

-- `IsResponseOK`
unfoldable pub is_response_ok : Bytes → Bool
is_response_ok result = bytes_eq result (codes "OK")

module _ {S : Type 0} (client : Client S) where
  -- `if err != nil && !rdg.IsErrNil(err) { return 0, err }; return resp, err`
  unfoldable pub checked {ℓ} : {A : Type ℓ} → S × Outcome A → S × Outcome A
  checked (s, ok a) = (s, ok a)
  checked (s, err e) = if client.is_err_nil e then (s, err e) else (s, err e)
  checked (s, panic) = (s, panic)

  -- `if !rdg.IsResponseOK(ok) { return ok, redis.ErrResponseNotOK }`; with an error the reply is
  -- the empty string.
  unfoldable pub must_be_ok : S × Outcome Bytes → S × Outcome Bytes
  unfolding is_response_ok
  must_be_ok (s, ok a) = if is_response_ok a then (s, ok a) else (s, err err_response_not_ok)
  must_be_ok (s, err e) = (s, err err_response_not_ok)
  must_be_ok (s, panic) = (s, panic)
