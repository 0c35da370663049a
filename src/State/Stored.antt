-- ===== src/State/Stored.antt =====
-- `Create` and `Get` of internal/usecase/state/state.go over the repository in Redis.
use go_project_example.Base.{
  ℕ, ◌/◌, ◌≤◌, ◌≤ℤ◌, [], ◌∷◌, ◌≡◌, ◌≢◌, refl, ap, ◌∙◌, arith, none, Bytes, codes, ℤ, pos, negsuc,
  Result,
}
use go_project_example.Text.{bytes_eq_ne}
use go_project_example.Effects.{ok, return, continue}
use go_project_example.Redis.{text, int, Client, checked}
use go_project_example.Redis.Keys.{command, set_ex, get}
use go_project_example.Otp.{second}
use go_project_example.Image.Repository.{seconds}
use go_project_example.State.{
  State, validate, create, with_expiry, min_state_expiry_time, max_state_expiry_time,
}
use go_project_example.State
use go_project_example.State.Creating.{IsValid, create-IsValid}
use go_project_example.State.Repository.{Json, state_id_key, save, load, states}

seconds-InWindow :
    (duration : ℤ)
    → (min_state_expiry_time ≤ℤ duration) × (duration ≤ℤ max_state_expiry_time)
    → (n : ℕ) × (60 ≤ n) × (n ≤ 1800) × (seconds duration ≡ pos n)
unfolding seconds
seconds-InWindow (pos n) (least, most) = (n / second, omega arith, omega arith, refl)
seconds-InWindow (negsuc n) (least, most) = absurd (omega (arith, least))

module _ {S : Type 0} (client : Client S) (json : Json) where
  save_lem :
      (id out reply : Bytes) (state : State) (s s₁ : S)
      → json.marshal state ≡ Result.ok out
      → client.do_string
          (command
            (codes "SETEX")
            (text (state_id_key id) ∷ int (seconds state.expiry_time) ∷ text out ∷ []))
          s
        ≡ (s₁, ok reply)
      → save client json id state s ≡ (s₁, ok tt)
  unfolding save set_ex checked
  save_lem id out reply state s s₁ written sent = rw (written, sent) refl

  load_lem :
      (id out : Bytes) (state : State) (s : S)
      → out ≢ []
      → json.unmarshal out ≡ Result.ok state
      → client.do_string (command (codes "GET") (text (state_id_key id) ∷ [])) s ≡ (s, ok out)
      → load client json id s ≡ (s, ok state)
  unfolding load get checked
  load_lem id out state s filled read sent = rw (sent, bytes_eq_ne out [] filled, read) refl

  -- A valid state that `Create` is given with an id that is not empty is stored, with an expiry from 60
  -- to 1800 seconds, and `Get` gives it back with the time that it expires at, once the server takes
  -- the `SETEX` and replies to `GET` with the text that it took, and JSON reads that text back.
  pub create-get :
      (id out reply : Bytes) (now : ℤ) (state : State) (s s₁ : S)
      → id ≢ []
      → out ≢ []
      → IsValid state
      → json.marshal (with_expiry now state) ≡ Result.ok out
      → json.unmarshal out ≡ Result.ok (with_expiry now state)
      → client.do_string
          (command
            (codes "SETEX")
            (text (state_id_key id) ∷ int (seconds state.expiry_time) ∷ text out ∷ []))
          s
        ≡ (s₁, ok reply)
      → client.do_string (command (codes "GET") (text (state_id_key id) ∷ [])) s₁ ≡ (s₁, ok out)
      → (create (states client json) id now state s ≡ (s₁, ok id))
        × (State.get (states client json) id s₁ ≡ (s₁, ok (with_expiry now state)))
        × ((n : ℕ) × (60 ≤ n) × (n ≤ 1800) × (seconds state.expiry_time ≡ pos n))
  create-get id out reply now state s s₁ named filled valid written read taken given =
      let saved = save_lem id out reply (with_expiry now state) s s₁ written taken in
      let (agrees, does) = create-IsValid (states client json) id now state s named in
      let passes : validate state ≡ none = agrees.1 valid in
      (
        does ∙ rw passes (ap (continue (λ u. return id)) saved),
        load_lem id out (with_expiry now state) s₁ filled read given,
        seconds-InWindow state.expiry_time (valid.long_enough, valid.short_enough),
      )
