-- ===== src/State/Creating.antt =====
-- `Create` of internal/usecase/state/state.go, and `Authenticate`, which calls it.
use go_project_example.Base.{
  ◌↔◌, ℕ, true, false, List, [], ◌≡◌, ◌≢◌, refl, ap, arith, inl, inr, none, some, Bytes, ℤ, pos,
  eqb_ℤ, ◌≤ℤ◌, if◌then◌else◌, Bool-cases, Option-cases,
}
use go_project_example.Text.{bytes_eq, bytes_eq_ne}
use go_project_example.Xerrors.{Error}
use go_project_example.Effects.{err, M, ◌>>◌, return}
use go_project_example.Otp.{Otp}
use go_project_example.State.{
  State, StateRepo, validate, save_new, create, authenticate, with_expiry, with_default, new_state,
  min_state_expiry_time, max_state_expiry_time, err_created_by_empty, err_expiry_time_less_than_min,
}

-- What makes a state valid.
pub record IsValid (state : State) : Type 0 where
  pub created : state.created_by ≢ []
  pub long_enough : min_state_expiry_time ≤ℤ state.expiry_time
  pub short_enough : state.expiry_time ≤ℤ max_state_expiry_time

valid-none : (state : State) → IsValid state → validate state ≡ none
unfolding validate
valid-none state v =
    rw (bytes_eq_ne state.created_by [] v.created) (ground (arith, v.long_enough, v.short_enough))

none-IsValid : (state : State) → validate state ≡ none → IsValid state
unfolding validate bytes_eq
none-IsValid state h = record {
  created = λ e. let empty : bytes_eq state.created_by [] ≡ true = rw e refl in ground arith;
  long_enough = ground arith;
  short_enough = ground arith;
}

with_default-valid : (state : State) → IsValid state → with_default state ≡ state
with_default-valid state v =
    let not_zero : eqb_ℤ state.expiry_time (pos 0) ≡ false = ground (arith, v.long_enough) in
    rw not_zero refl

-- The error for a state without an expiry time.
abbrev refusal : Bytes → Error
refusal username =
    if bytes_eq username [] then err_created_by_empty else err_expiry_time_less_than_min

validate-new_state :
    (username provider : Bytes) (action : ℤ) (metadata : List (Bytes × Bytes)) (now : ℤ)
    → validate (new_state username action provider metadata now) ≡ some (refusal username)
unfolding validate
validate-new_state username provider action metadata now =
    elim (Bool-cases (bytes_eq username [])) [ inl e ↦ rw e refl | inr e ↦ rw e refl ]

module _ {S : Type 0} (repo : StateRepo S) where
  -- For an id that is not empty, `Create` returns the error of `Validate`, and saves nothing then, or
  -- else saves the state with the time that it expires at and the expiry time that it came with. There
  -- is no error just when the state has a creator and an expiry time from 1 to 30 minutes.
  pub create-IsValid :
      (id : Bytes) (now : ℤ) (state : State) (s : S)
      → id ≢ []
      → ((validate state ≡ none) ↔ IsValid state)
        × (create repo id now state s ≡ elim (validate state) [
          | some e ↦ (s, err e)
          | none ↦ (repo.save id (with_expiry now state) >> return id) s
        ])
  unfolding create save_new
  create-IsValid id now state s n = (
    (none-IsValid state, valid-none state),
    elim (Option-cases (validate state)) [
      | inl e ↦
          rw (e, create, bytes_eq_ne id [] n, save_new)
            (ap (λ st. (repo.save id (with_expiry now st) >> return id) s)
              (with_default-valid state (none-IsValid state e)))
      | inr (e, h) ↦ rw (h, create) refl
    ],
  )

  -- `Authenticate` is refused for every user, action and provider: without a user name since the
  -- creator is empty, and else since the state that it makes has no expiry time. Nothing is saved,
  -- and no OTP is created.
  pub authenticate_refused :
      (create_otp : Bytes → ℕ → ℤ → M S Otp) (id username action_text provider : Bytes) (action : ℤ)
      (metadata : List (Bytes × Bytes)) (now : ℤ) (s : S)
      → authenticate repo create_otp id username action action_text provider metadata now s ≡ (
        s,
        err (if bytes_eq username [] then err_created_by_empty else err_expiry_time_less_than_min),
      )
  unfolding authenticate create
  authenticate_refused create_otp id username action_text provider action metadata now s =
      rw (validate-new_state username provider action metadata now, create, authenticate) refl
