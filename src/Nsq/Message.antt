-- ===== src/Nsq/Message.antt =====
-- internal/pkg/nsq/handler.go: a message with the information that the worker adds to it.
use go_project_example.Base.{ℕ, Bytes}

-- `Info`
pub record Info : Type 0 where
  pub worker_total : ℕ
  pub worker_current : ℕ
  pub message_in_buffer : ℕ
  pub throttle_flag : ℕ
  pub throttled : ℕ

abbrev pub zero_info : Info
zero_info = record {
  worker_total = 0;
  worker_current = 0;
  message_in_buffer = 0;
  throttle_flag = 0;
  throttled = 0;
}

-- `Message`; the `*gonsq.Message` inside is known by its ID alone.
pub record Message : Type 0 where
  pub topic : Bytes
  pub channel : Bytes
  pub message : ℕ
  pub info : Info
