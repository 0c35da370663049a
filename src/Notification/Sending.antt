-- ===== src/Notification/Sending.antt =====
-- What `Send` of internal/usecase/notification/notification.go sends and keeps.
use go_project_example.Base.{
  ◌≡◌, refl, ap, ◌∙◌, pos, inl, inr, Bool-cases, Option, Bytes, ℤ, if◌then◌else◌,
}
use go_project_example.Effects.{Outcome, ok, return, continue, Gives, continue-Gives_all}
use go_project_example.Notification.{
  Notification, NotifData, push_notification, sms_notification, email_notification, other_data,
  Options, Repos, deliver, send, inbox_entry, or_zero, type_sms, type_email, type_push_message,
}

-- The type of a notification.
abbrev pub type_of : NotifData → ℤ
type_of (push_notification token) = type_push_message
type_of (sms_notification from to) = type_sms
type_of (email_notification to cc) = type_email
type_of other_data = type_email

module _ {W : Type 0} (repos : Repos W) where
  deliver-Gives :
      (n : Notification) (d : NotifData) (w : W) → Gives (λ t. t ≡ type_of d) (deliver repos n d w)
  unfolding deliver
  deliver-Gives n (push_notification token) w =
      continue-Gives_all (λ t. t ≡ type_push_message) (λ _. return type_push_message)
        (repos.push_send (record { token = token; title = n.title; body = n.message }) w)
        (λ _ u. refl)
  deliver-Gives n (sms_notification from to_msisdn) w =
      continue-Gives_all (λ t. t ≡ type_sms) (λ _. return type_sms)
        (repos.sms_send
          (record { from = from; to = to_msisdn; message = n.message; purpose = pos 0 }) w)
        (λ _ u. refl)
  deliver-Gives n (email_notification to copy) w = refl
  deliver-Gives n other_data w = tt

  -- What `Send` does with what was delivered.
  abbrev keep : Notification → Option Options → W × Outcome ℤ → W × Outcome (Unit {0})
  keep n o =
      continue λ t. if (or_zero o).inbox_save then repos.save (inbox_entry n t) else return tt

  kept :
      (n : Notification) (o : Option Options) (t : ℤ) (w : W)
      → (if (or_zero o).inbox_save then repos.save (inbox_entry n t) else return tt) w
        ≡ (if (or_zero o).inbox_save then repos.save (inbox_entry n t) w else (w, ok tt))
  kept n o t w = elim (Bool-cases (or_zero o).inbox_save) [ inl e ↦ rw e refl | inr e ↦ rw e refl ]

  -- Once the provider accepted a notification, `Send` keeps it if the inbox is asked for, under the type
  -- of its data, and returns the error of the inbox; it does nothing else.
  send_accepted :
      (n : Notification) (o : Option Options) (w w' : W) (t : ℤ)
      → deliver repos n n.notif_data w ≡ (w', ok t)
      → send repos n o w ≡ (
          if (or_zero o).inbox_save
          then repos.save (inbox_entry n (type_of n.notif_data)) w'
          else (w', ok tt))
  unfolding send
  send_accepted n o w w' t h =
      let same : t ≡ type_of n.notif_data = rw h at (deliver-Gives n n.notif_data w) in
      ap (keep n o) h ∙ rw same (kept n o (type_of n.notif_data) w')

  -- A notification by email is sent to nobody, whatever its addresses: `Send` calls neither provider,
  -- writes the inbox if it is asked for, and returns no error of its own.
  send_email :
      (n : Notification) (o : Option Options) (w : W) (to copy : Bytes)
      → n.notif_data ≡ email_notification to copy
      → send repos n o w
        ≡ (if (or_zero o).inbox_save then repos.save (inbox_entry n type_email) w else (w, ok tt))
  unfolding send deliver
  send_email n o w to copy h = ap (λ d. keep n o (deliver repos n d w)) h ∙ kept n o type_email w
