-- ===== src/State/Repository.antt =====
-- internal/repository/state/state.go: the states of authentications in Redis.
--
-- The time left to a state is rounded to seconds as in the repository of the images. The two functions
-- of encoding/json are parameters.
use go_project_example.Base.{◌++◌, [], Bytes, codes, ℤ, Result, if◌then◌else◌}
use go_project_example.Text.{bytes_eq}
use go_project_example.Xerrors.{Error, sentinel}
use go_project_example.Effects.{Outcome, ok, err, panic, M, return, throw, ◌>>=◌}
use go_project_example.Redis.{text, Client}
use go_project_example.Redis.Keys.{set_ex, get, expire, delete}
use go_project_example.Image.Repository.{seconds}
use go_project_example.State.{State, StateRepo}

-- `json.Marshal` and `json.Unmarshal` of a state
pub record Json : Type 0 where
  pub marshal : State → Result Error Bytes
  pub unmarshal : Bytes → Result Error State

abbrev pub err_state_not_found : Error
err_state_not_found = sentinel (codes "state: not found")

-- `formatStateIDKey`
abbrev pub state_id_key : Bytes → Bytes
state_id_key id = codes "state:" ++ id

module _ {S : Type 0} (client : Client S) (json : Json) where
  abbrev pub or_throw {ℓ} : {A : Type ℓ} → Result Error A → M S A
  or_throw (Result.ok a) = return a
  or_throw (Result.err e) = throw e

  -- `Save`
  unfoldable pub save : Bytes → State → M S (Unit {0})
  unfolding seconds
  save id data_ = do
    out ← or_throw (json.marshal data_)
    reply ← set_ex client (state_id_key id) (text out) (seconds data_.expiry_time)
    return tt

  -- `Get`, from the reply on
  abbrev pub decode : S × Outcome Bytes → S × Outcome State
  decode (s, ok val) =
      if bytes_eq val [] then (s, err err_state_not_found) else or_throw (json.unmarshal val) s
  decode (s, err e) = if client.is_err_nil e then (s, err err_state_not_found) else (s, err e)
  decode (s, panic) = (s, panic)

  -- `Get`
  unfoldable pub load : Bytes → M S State
  load id s = decode (get client (state_id_key id) s)

  -- `SetExpire`
  unfoldable pub set_expire : Bytes → ℤ → M S (Unit {0})
  unfolding seconds
  set_expire id duration = expire client (state_id_key id) (seconds duration) >>= λ n. return tt

  -- `Delete`
  unfoldable pub remove : Bytes → M S (Unit {0})
  remove id = delete client (state_id_key id) >>= λ n. return tt

  -- The repository as the use case has it.
  abbrev pub states : StateRepo S
  states = record { save = save; get = load; delete = remove }
