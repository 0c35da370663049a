-- ===== src/Nsq.antt =====
-- internal/pkg/nsq: the wrapper of the NSQ producer and consumers.
pub mod Message
pub mod Handler
pub mod Middlewares
pub mod Consumer
pub mod Producer
pub mod Nsqio
mod Tests
