-- ===== src/Otp/Usage.antt =====
-- `Create` and then `Validate` of internal/usecase/otp/otp.go, over one repository.
use go_project_example.Otp.{Otp}
