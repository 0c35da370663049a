-- ===== src/State/Tests.antt =====
-- A repository that keeps the last state.
use go_project_example.Base.{
  ℕ, ◌≤◌, false, refl, List, ◌∷◌, Bytes, Result, ◌↔◌, ◌*◌, [], ◌≡◌, arith, Option, none, some,
  codes, pos,
}
use go_project_example.Text.{bytes_eq}
use go_project_example.Effects.{Outcome, ok, err, panic, crash}
use go_project_example.Otp.{minute}
use go_project_example.State.{
  validate, State, StateRepo, create, authenticate, new_state, with_expiry,
  err_expiry_time_less_than_min,
}
use go_project_example.State
use go_project_example.Redis.{Arg, text, Client}
use go_project_example.Image.Repository.{seconds}
use go_project_example.State.Repository.{Json, states}
use go_project_example.State.Stored.{create-get}
use go_project_example.State.Creating.{IsValid, create-IsValid, authenticate_refused}

abbrev repo : StateRepo (Option State)
repo = record {
  save = λ id state s. (some state, ok tt);
  get = λ id s. (s, elim s [ none ↦ panic | some state ↦ ok state ]);
  delete = λ id s. (none, ok tt);
}

abbrev login : State
login = record (new_state (codes "ann") (pos 1) (codes "otp") [] (pos 9)) {
  expiry_time = pos (minute * 10);
}

login-IsValid : IsValid login
login-IsValid = record {
  created = ground arith;
  long_enough = ground arith;
  short_enough = ground arith;
}

create-IsValid_example :
    ((validate login ≡ none) ↔ IsValid login)
    × (create repo (codes "id") (pos 7) login none
        ≡ (some (with_expiry (pos 7) login), ok (codes "id")))
unfolding validate bytes_eq
create-IsValid_example = create-IsValid repo (codes "id") (pos 7) login none (ground arith)

authenticate_refused_example :
    authenticate repo
      (λ id n d. crash)
      (codes "id")
      (codes "ann")
      (pos 1)
      (codes "l")
      (codes "otp")
      []
      (pos 9)
      none
    ≡ (none, err err_expiry_time_less_than_min)
unfolding bytes_eq
authenticate_refused_example =
    authenticate_refused repo (λ id n d. crash) (codes "id") (codes "ann") (codes "l") (codes "otp")
      (pos 1) [] (pos 9) none

-- A server of one key that keeps what `SETEX` gives it, and JSON as the name of the creator.
abbrev set_reply : Bytes → List Arg → Bytes × Outcome Bytes
set_reply kept (key ∷ seconds ∷ text out ∷ []) = (out, ok (codes "OK"))
set_reply kept (key ∷ []) = (kept, ok kept)
set_reply kept args = (kept, panic)

abbrev server : Client Bytes
server = record {
  do_string = λ c kept. set_reply kept c.args;
  do_strings = λ c kept. (kept, panic);
  do_int = λ c kept. (kept, panic);
  is_err_nil = λ e. false;
}

abbrev names_json : Json
names_json = record {
  marshal = λ state. Result.ok state.created_by;
  unmarshal = λ out. Result.ok (with_expiry (pos 7) login);
}

create-get_example :
    (create (states server names_json) (codes "id") (pos 7) login []
      ≡ (codes "ann", ok (codes "id")))
    × (State.get (states server names_json) (codes "id") (codes "ann")
        ≡ (codes "ann", ok (with_expiry (pos 7) login)))
    × ((n : ℕ) × (60 ≤ n) × (n ≤ 1800) × (seconds login.expiry_time ≡ pos n))
create-get_example =
    create-get server names_json (codes "id") (codes "ann") (codes "OK") (pos 7) login []
      (codes "ann") (ground arith) (ground arith) login-IsValid refl refl refl refl
