-- ===== src/Otp/Creating.antt =====
-- `Create` of internal/usecase/otp/otp.go, whatever the repository.
use go_project_example.Base.{
  Bool-cases, inl, inr, ◌≢◌, ltb, ◌||◌, ◌==◌, ℕ, true, false, [], ◌≡◌, ◌⊎◌, refl, arith,
  if◌then◌else◌, Bytes, ℤ, none,
}
use go_project_example.Text.{bytes_eq}
use go_project_example.Xerrors.{Error}
use go_project_example.Effects.{panic, ok, err}
use go_project_example.Otp.{
  err_code_length_invalid, Otp, OtpRepo, create, validate_length, divides, threshold_otp_resend,
  resend_time_after_threshold, resend_time_default, or_crash, fail_if,
}
use go_project_example.Otp.Generator.{generate_code-length}

-- What the repository answers in the state `s`: the last OTP, how many there are, and the state
-- that a new one is saved in.
pub record Answers {S : Type 0} (repo : OtpRepo S) (unique_id : Bytes) (s : S) : Type 0 where
  pub last : Otp
  pub count : ℤ
  pub saved : Otp → S
  pub gets : repo.get_last unique_id s ≡ (s, ok last)
  pub counts : repo.len unique_id s ≡ (s, ok count)
  pub saves : (otp : Otp) → repo.save otp s ≡ (saved otp, ok tt)

-- How long the OTP that follows `last` is not resendable.
abbrev pub wait_after : Otp → ℤ → ℤ
wait_after last count =
    if bytes_eq last.code []
    then resend_time_default
    else if divides threshold_otp_resend count
    then resend_time_after_threshold
    else resend_time_default

module _ {S : Type 0} (repo : OtpRepo S) (unique_id : Bytes) (now : ℤ) (s : S) where
  validate_length_drawn : (n : ℕ) → (n ≡ 4) ⊎ (n ≡ 6) → validate_length n ≡ none
  unfolding validate_length
  validate_length_drawn n h = ground arith

  -- For a length that is neither 4 nor 6, `Create` asks the repository for nothing: it panics for the
  -- length 5, and returns the error that the length is invalid for every other one.
  create_other_lengths :
      (code_length draw : ℕ) (expire : ℤ)
      → code_length ≢ 4
      → code_length ≢ 6
      → create repo unique_id code_length expire draw now s
        ≡ (s, if code_length == 5 then panic else err err_code_length_invalid)
  unfolding create fail_if or_crash validate_length
  create_other_lengths code_length draw expire n₄ n₆ =
      elim (Bool-cases (ltb code_length 4 || ltb 6 code_length)) [
        | inl out ↦ let five : (code_length == 5) ≡ false = ground arith in rw (out, five) refl
        | inr out ↦
            let five : (code_length == 5) ≡ true = ground arith in
            rw (out, (generate_code-length code_length draw).1 n₄ n₆, five) refl
      ]

  -- For the lengths 4 and 6, an error of the repository on the last OTP is what `Create` returns, and
  -- nothing is saved.
  pub create_fails :
      (s₁ : S) (e : Error) (code_length draw : ℕ) (expire : ℤ)
      → (code_length ≡ 4) ⊎ (code_length ≡ 6)
      → repo.get_last unique_id s ≡ (s₁, err e)
      → create repo unique_id code_length expire draw now s ≡ (s₁, err e)
  unfolding create fail_if or_crash
  create_fails s₁ e code_length draw expire h g =
      let (code, drawn, _) = (generate_code-length code_length draw).0 h in
      rw (validate_length_drawn code_length h, drawn, g) refl
