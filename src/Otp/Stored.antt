-- ===== src/Otp/Stored.antt =====
-- internal/usecase/otp/otp.go over internal/repository/otp/otp.go.
--
-- The methods of the repository take an action that `otpRepo` does not have: `at_action` gives the
-- interface its methods at one action.
use go_project_example.Base.{
  ℕ, false, [], ◌∷◌, ◌≡◌, ◌≢◌, ◌⊎◌, inl, inr, refl, Bytes, codes, ℤ, pos, ltb_ℤ, Bool-cases,
}
use go_project_example.Text.{bytes_eq_ne}
use go_project_example.Xerrors.{Error}
use go_project_example.Effects.{ok, err}
use go_project_example.Redis.{text, int, Command, Client, checked}
use go_project_example.Redis.Keys.{command, expire, increment_by}
use go_project_example.Redis.Lists.{lset, lindex, lpush}
use go_project_example.Otp.{Otp, OtpRepo, create, validate, check_code, refuse, otp_key_expiry}
use go_project_example.Otp.Codec.{flatten_otp, IsPrintable, kept, deflate_otp-flatten_otp}
use go_project_example.Otp.Repository.{
  Names, save, set_last, get_last, len, increase_validate_attempt, delete_validate_attempt,
  delete_all,
}
use go_project_example.Otp.Creating.{create_fails}

module _ {S : Type 0} (client : Client S) (names : Names) (action : ℤ) where
  abbrev pub at_action : OtpRepo S
  at_action = record {
    save = save client names;
    set_last = set_last client names;
    get_last = λ unique_id. get_last client names unique_id action;
    len = λ unique_id. len client names unique_id action;
    increase_validate_attempt = increase_validate_attempt client names;
    delete_validate_attempt = delete_validate_attempt client names;
    delete_all = λ unique_id. delete_all client names unique_id action;
  }

  abbrev pub lindex_command : Bytes → Command
  lindex_command unique_id =
      command (codes "LINDEX") (text (names.otp_key unique_id action) ∷ int (pos 0) ∷ [])

  checked_err {ℓ} :
      {A : Type ℓ} (s : S) (e : Error) → checked client {A = A} (s, err e) ≡ (s, err e)
  unfolding checked
  checked_err s e = elim (Bool-cases (client.is_err_nil e)) [
    | inl n ↦ rw n refl
    | inr n ↦ rw n refl
  ]

  get_last_fails :
      (unique_id : Bytes) (s s₁ : S) (e : Error)
      → client.do_string (lindex_command unique_id) s ≡ (s₁, err e)
      → get_last client names unique_id action s ≡ (s₁, err e)
  unfolding get_last lindex
  get_last_fails unique_id s s₁ e h = rw (h, checked_err {A = Bytes} s₁ e) refl

  -- While the server replies to `LINDEX` with an error, the nil reply for a user without an OTP among
  -- them, `Create` returns that error for the lengths 4 and 6 and saves nothing.
  pub create_first :
      (unique_id : Bytes) (code_length draw : ℕ) (expire now : ℤ) (s : S) (e : Error)
      → (code_length ≡ 4) ⊎ (code_length ≡ 6)
      → client.do_string (lindex_command unique_id) s ≡ (s, err e)
      → create at_action unique_id code_length expire draw now s ≡ (s, err e)
  create_first unique_id code_length draw expire now s e h l =
      create_fails at_action unique_id now s s e code_length draw expire h
        (get_last_fails unique_id s s e l)

  get_last_kept :
      (otp : Otp) (unique_id : Bytes) (s : S)
      → IsPrintable otp
      → client.do_string (lindex_command unique_id) s ≡ (s, ok (flatten_otp otp))
      → get_last client names unique_id action s ≡ (s, ok (kept otp))
  unfolding get_last lindex checked
  get_last_kept otp unique_id s p h = rw (h, deflate_otp-flatten_otp otp p) refl

  -- An OTP of the action that can be printed and that the server takes is saved, and what `GetLast`
  -- reads after that is the OTP, apart from the action, the creation time and the fractions of a
  -- second, if the server keeps a list's first line.
  get_last-save :
      (otp : Otp) (s s₁ s₂ : S) (n m : ℤ)
      → IsPrintable otp
      → otp.action ≡ action
      → (let key = names.otp_key otp.unique_id action in
          client.do_int (command (codes "LPUSH") (text key ∷ text (flatten_otp otp) ∷ [])) s
          ≡ (s₁, ok n))
      → (let key = names.otp_key otp.unique_id action in
          client.do_int (command (codes "EXPIRE") (text key ∷ int otp_key_expiry ∷ [])) s₁
          ≡ (s₂, ok m))
      → client.do_string (lindex_command otp.unique_id) s₂ ≡ (s₂, ok (flatten_otp otp))
      → (save client names otp s ≡ (s₂, ok tt))
        × (get_last client names otp.unique_id action s₂ ≡ (s₂, ok (kept otp)))
  unfolding save lpush expire checked flatten_otp
  get_last-save otp s s₁ s₂ n m p a pushes expires keeps =
      (rw (a, pushes, expires) refl, get_last_kept otp otp.unique_id s₂ p keeps)

  -- For an OTP that is stored and not expired, and a server that counts the wrong code but refuses
  -- `LSET` without a key: the reply to a wrong code is the server's error, whatever the number of
  -- wrong codes, and the server is left as it was after the count.
  pub validate_lset :
      (otp : Otp) (unique_id code : Bytes) (now : ℤ) (s s₁ s₂ : S) (n m : ℤ) (e : Error)
      → IsPrintable otp
      → client.do_string (lindex_command unique_id) s ≡ (s, ok (flatten_otp otp))
      → ltb_ℤ (kept otp).expired_at now ≡ false
      → otp.code ≢ code
      → (let key = names.attempt_key unique_id in
          client.do_int (command (codes "INCRBY") (text key ∷ int (pos 1) ∷ [])) s ≡ (s₁, ok n))
      → (let key = names.attempt_key unique_id in
          client.do_int (command (codes "EXPIRE") (text key ∷ int names.attempt_expiry ∷ [])) s₁
          ≡ (s₂, ok m))
      → ((line : Bytes)
          → client.do_int (command (codes "LSET") (int (pos 0) ∷ text line ∷ [])) s₂ ≡ (s₂, err e))
      → validate at_action unique_id code now s ≡ (s₂, err e)
  unfolding validate check_code refuse increase_validate_attempt set_last increment_by expire lset
      checked
  validate_lset otp unique_id code now s s₁ s₂ n m e p reads not_expired differs counts expires
        refuses =
      rw
        (
          get_last_kept otp unique_id s p reads,
          not_expired,
          bytes_eq_ne otp.code code differs,
          counts,
          expires,
          refuses _,
          checked_err {A = ℤ} s₂ e,
        )
        refl
