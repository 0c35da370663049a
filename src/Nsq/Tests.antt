-- ===== src/Nsq/Tests.antt =====
-- The producer and the middlewares at concrete values.
use Prim.Native.Nat.{ℕ, ◌+◌}
use go_project_example.Base.{ok}
use go_project_example.Nsq.Producer.{ProducerBackend}

-- A backend that counts the messages.
abbrev counting : ProducerBackend ℕ
counting = record {
  publish = λ topic body s. (s + 1, ok tt);
  multi_publish = λ topic bodies s. (s + 10, ok tt);
}
