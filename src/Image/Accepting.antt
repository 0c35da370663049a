-- ===== src/Image/Accepting.antt =====
-- What `Upload` of internal/usecase/image/image.go refuses, and what it does with what it accepts.
use go_project_example.Base.{Bool, ◌≡◌, none, Bytes}
use go_project_example.Text.{bytes_eq}
use go_project_example.Image.{validate_mode, mode_private, mode_signed}

-- What the code asks of a mode.
ModeFacts : Bytes → Bool → Bool → Type 0
ModeFacts mode is_private is_signed =
    (validate_mode mode ≡ none)
    × (bytes_eq mode mode_private ≡ is_private)
    × (bytes_eq mode mode_signed ≡ is_signed)
