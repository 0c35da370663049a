-- ===== src/State.antt =====
-- internal/entity/state, internal/usecase/state/state.go and internal/usecase/authentication:
-- the state of an authentication that is going on.
--
-- The id that `createID` draws, of a ULID, an identifier and the time, is an argument.
pub mod Creating
pub mod Repository
pub mod Stored
mod Tests
use go_project_example.Base.{
  ℕ, ◌*◌, Bool, true, false, List, [], ◌∷◌, ◌++◌, Option, none, some, Bytes, codes, ℤ, pos, ◌+ℤ◌,
  ltb_ℤ, eqb_ℤ, if◌then◌else◌,
}
use go_project_example.Text.{bytes_eq}
use go_project_example.Text.Parts.{join}
use go_project_example.Xerrors.{Error, sentinel, message}
use go_project_example.Effects.{Outcome, ok, err, panic, M, return, throw, ◌>>=◌, ◌>>◌, continue}
use go_project_example.Otp.{Otp, minute}
use go_project_example.Otp.Codec.{zero_time}

-- `authentity.Authentication`
pub record Authentication : Type 0 where
  pub action : ℤ
  pub provider : Bytes
  pub username : Bytes

pub record State : Type 0 where
  pub created_by : Bytes
  pub created_by_hash_id : Bytes
  pub authentication : Authentication
  pub meta_data : List (Bytes × Bytes)
  pub expiry_time : ℤ
  pub expired_at : ℤ
  pub created_at : ℤ

abbrev pub default_state_expiry_time : ℤ
default_state_expiry_time = pos (minute * 5)

abbrev pub min_state_expiry_time : ℤ
min_state_expiry_time = pos minute

abbrev pub max_state_expiry_time : ℤ
max_state_expiry_time = pos (minute * 30)

abbrev pub err_created_by_empty : Error
err_created_by_empty = sentinel (codes "state: created by is empty")

abbrev pub err_expiry_time_more_than_max : Error
err_expiry_time_more_than_max =
    sentinel (codes "state: expiry time is more than max expiry time allowed")

abbrev pub err_expiry_time_less_than_min : Error
err_expiry_time_less_than_min =
    sentinel (codes "state: expiry time is  less than min expiry time allowed")

-- `State.Validate`
unfoldable pub validate : State → Option Error
validate s =
    if bytes_eq s.created_by []
    then some err_created_by_empty
    else if ltb_ℤ max_state_expiry_time s.expiry_time
    then some err_expiry_time_more_than_max
    else if ltb_ℤ s.expiry_time min_state_expiry_time
    then some err_expiry_time_less_than_min
    else none

-- `IsExpired`
abbrev pub is_expired : ℤ → State → Bool
is_expired now s = if ltb_ℤ s.expired_at now then true else false

-- `stateRepository`, as far as the use case calls it.
pub record StateRepo (S : Type 0) : Type 0 where
  pub save : Bytes → State → M S (Unit {0})
  pub get : Bytes → M S State
  pub delete : Bytes → M S (Unit {0})

-- The zero duration is replaced by the default.
abbrev pub with_default : State → State
with_default state = record state {
  expiry_time =
      if eqb_ℤ state.expiry_time (pos 0) then default_state_expiry_time else state.expiry_time;
}

abbrev pub with_expiry : ℤ → State → State
with_expiry now state = record state { expired_at = now +ℤ state.expiry_time }

abbrev pub provider_otp : Bytes
provider_otp = codes "otp"

-- The state that `Authenticate` makes: it sets no expiry time.
abbrev pub new_state : Bytes → ℤ → Bytes → List (Bytes × Bytes) → ℤ → State
new_state username action provider metadata now = record {
  created_by = username;
  created_by_hash_id = [];
  authentication = record { action = action; provider = provider; username = username };
  meta_data = metadata;
  expiry_time = pos 0;
  expired_at = zero_time;
  created_at = now;
}

module _ {S : Type 0} (repo : StateRepo S) where
  -- The part of `Create` for a state that is valid.
  unfoldable pub save_new : Bytes → ℤ → State → M S Bytes
  save_new id now state =
      if bytes_eq id []
      then throw (message (codes "state id is empty"))
      else repo.save id (with_expiry now (with_default state)) >> return id

  -- `Create`
  unfoldable pub create : Bytes → ℤ → State → M S Bytes
  unfolding save_new
  create id now state = elim (validate state) [ some e ↦ throw e | none ↦ save_new id now state ]

  -- `Get` and `Delete`
  abbrev pub get : Bytes → M S State
  get = repo.get

  abbrev pub delete : Bytes → M S (Unit {0})
  delete = repo.delete

  -- `SetExpire` does nothing.
  abbrev pub set_expire : Bytes → ℤ → M S (Unit {0})
  set_expire id duration = return tt

  -- `Authenticate`, over the `Create` of the OTP use case. `action_text` is `string(action)`.
  unfoldable pub authenticate :
      (Bytes → ℕ → ℤ → M S Otp)
      → Bytes
      → Bytes
      → ℤ
      → Bytes
      → Bytes
      → List (Bytes × Bytes)
      → ℤ
      → M S Bytes
  unfolding create
  authenticate create_otp id username action action_text provider metadata now = do
    state_id ← create id now (new_state username action provider metadata now)
    if bytes_eq provider provider_otp
        then (create_otp (join b',' (username ∷ action_text ∷ [])) 6 (pos (minute * 5)) >>= λ otp.
            return state_id)
        else return state_id
