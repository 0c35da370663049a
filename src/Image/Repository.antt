-- ===== src/Image/Repository.antt =====
-- internal/repository/image/image.go: temporary paths in Redis.
use go_project_example.Base.{zero, suc, ◌/◌, ◌++◌, Bytes, codes, ℤ, pos, negsuc, if◌then◌else◌}
use go_project_example.Effects.{Outcome, ok, err, panic, M, return, ◌>>=◌}
use go_project_example.Redis.{text, Client}
use go_project_example.Redis.Keys.{set_ex, get}
use go_project_example.Otp.{second}
use go_project_example.Image.{err_temp_path_not_found}
use go_project_example.Image.Usecase.{TempPaths}

-- `int(expiryTime.Seconds())`, rounded towards zero.
unfoldable pub seconds : ℤ → ℤ
seconds (pos n) = pos (n / second)
seconds (negsuc n) = elim (suc n / second) [ zero ↦ pos 0 | suc k ↦ negsuc k ]

abbrev pub image_key : Bytes → Bytes
image_key id = codes "image_temp:" ++ id

module _ {S : Type 0} (client : Client S) where
  unfoldable pub save_temp_path : Bytes → Bytes → ℤ → M S (Unit {0})
  unfolding seconds
  save_temp_path id original_path expiry_time = do
    reply ← set_ex client (image_key id) (text original_path) (seconds expiry_time)
    return tt

  abbrev not_found : S × Outcome Bytes → S × Outcome Bytes
  not_found (s, ok out) = (s, ok out)
  not_found (s, err e) =
      if client.is_err_nil e then (s, err err_temp_path_not_found) else (s, err e)
  not_found (s, panic) = (s, panic)

  unfoldable pub get_temp_path : Bytes → M S Bytes
  get_temp_path id s = not_found (get client (image_key id) s)

  abbrev pub temp_paths : TempPaths S
  unfolding save_temp_path get_temp_path
  temp_paths = record { save_temp_path = save_temp_path; get_temp_path = get_temp_path }
