-- ===== src/Nsq/Handler/Order.antt =====
-- internal/pkg/nsq/handler.go with one goroutine, as in `AddHandler`: the order of the messages.
use go_project_example.Base.{ℕ, List, [], ◌∷◌, ◌++◌, ◌≡◌}
use go_project_example.Nsq.Message.{Message}
use go_project_example.Nsq.Handler.{Pc, System}
use go_project_example.Nsq.Handler.Conservation.{pending, ids}

-- What was handled, what is buffered and what the goroutine holds, one behind the other.
abbrev pub line : System → Pc → List ℕ
line s p = ids s.handled ++ (ids s.message_buff ++ pending p)

-- There is one goroutine, at `pc`, and the line is what was delivered.
pub record InOrder (s : System) : Type 0 where
  pub pc : Pc
  pub alone : s.pcs ≡ pc ∷ []
  pub ordered : line s pc ≡ s.delivered
