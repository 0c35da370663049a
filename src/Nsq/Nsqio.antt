-- ===== src/Nsq/Nsqio.antt =====
-- internal/pkg/nsq/nsqio/nsqio.go: producers and consumers over github.com/nsqio/go-nsq, which is a
-- parameter.
pub mod Configuring
mod Tests
use go_project_example.Base.{
  ℕ, zero, suc, Bool, false, List, [], Option, none, some, Bytes, codes, ℤ, pos, eqb_ℤ, ◌≡◌, ◌<ℤ◌,
  if◌then◌else◌,
}
use go_project_example.Text.{bytes_eq}
use go_project_example.Xerrors.{Error, message}
use go_project_example.Effects.{Outcome, ok, err, panic, M, return, throw, ◌>>=◌, ◌>>◌, continue}

-- `TimeoutConfig`, with durations in nanoseconds
pub record TimeoutConfig : Type 0 where
  pub dial : ℤ
  pub read : ℤ
  pub write : ℤ
  pub message_timeout : ℤ

-- `LookupdConfig`. The jitter, a float, is known by a number.
pub record LookupdConfig : Type 0 where
  pub pool_interval : ℤ
  pub poll_jitter : ℕ

pub record QueueConfig : Type 0 where
  pub max_in_flight : ℤ
  pub msg_timeout : ℤ
  pub max_requeue_delay : ℤ
  pub default_requeue_delay : ℤ

pub record CompressionConfig : Type 0 where
  pub deflate : Bool
  pub deflate_level : ℤ
  pub snappy : Bool

pub record Config : Type 0 where
  pub hostname : Bytes
  pub lookupd : LookupdConfig
  pub timeout : TimeoutConfig
  pub queue : QueueConfig
  pub compression : CompressionConfig

-- `nsqio.Config`, as far as it is set.
pub record NativeConfig : Type 0 where
  pub hostname : Bytes
  pub max_in_flight : ℤ
  pub msg_timeout : ℤ
  pub max_requeue_delay : ℤ
  pub default_requeue_delay : ℤ
  pub dial_timeout : ℤ
  pub read_timeout : ℤ
  pub write_timeout : ℤ
  pub lookupd_poll_interval : ℤ
  pub lookupd_poll_jitter : ℕ
  pub deflate : Bool
  pub deflate_level : ℤ
  pub snappy : Bool

-- The package go-nsq. Its documentation gives 10 milliseconds as the least interval for polling the
-- lookup daemons.
pub record GoNsq (W : Type 0) : Type 1 where
  pub NativeProducer : Type 0
  pub NativeConsumer : Type 0
  pub validate : NativeConfig → Option Error
  pub new_producer : Bytes → NativeConfig → M W NativeProducer
  pub new_consumer : Bytes → Bytes → NativeConfig → M W NativeConsumer
  pub validate-interval :
      (c : NativeConfig)
      → c.lookupd_poll_interval <ℤ pos 10000000
      → (e : Error) × (validate c ≡ some e)

-- What `newConfig` sets, in order: the timeout of a message twice.
abbrev pub native_config : Config → NativeConfig
native_config c = record {
  hostname = c.hostname;
  max_in_flight = c.queue.max_in_flight;
  msg_timeout = c.timeout.message_timeout;
  max_requeue_delay = c.queue.max_requeue_delay;
  default_requeue_delay = c.queue.default_requeue_delay;
  dial_timeout = c.timeout.dial;
  read_timeout = c.timeout.read;
  write_timeout = c.timeout.write;
  lookupd_poll_interval = c.lookupd.pool_interval;
  lookupd_poll_jitter = c.lookupd.poll_jitter;
  deflate = c.compression.deflate;
  deflate_level = c.compression.deflate_level;
  snappy = c.compression.snappy;
}

pub record ProducerConfig : Type 0 where
  pub hostname : Bytes
  pub address : Bytes
  pub compression : CompressionConfig
  pub timeout : TimeoutConfig

pub record ConsumerConfig : Type 0 where
  pub hostname : Bytes
  pub topic : Bytes
  pub channel : Bytes
  pub lookupd : LookupdConfig
  pub timeout : TimeoutConfig
  pub queue : QueueConfig
  pub compression : CompressionConfig
  pub concurrency : ℤ
  pub buffer_multiplier : ℤ

abbrev or_value : ℤ → ℤ → ℤ
or_value n default = if eqb_ℤ n (pos 0) then default else n

module _ {W : Type 0} where
  -- `ConsumerConfig.Validate`, with what it sets
  unfoldable pub validate : ConsumerConfig → M W ConsumerConfig
  validate c =
      if bytes_eq c.topic []
      then throw (message (codes "consumer_config: topic cannot be empty"))
      else if bytes_eq c.channel []
      then throw (message (codes "consumer_config: channel cannot be empty"))
      else return (record c {
        concurrency = or_value c.concurrency (pos 1);
        buffer_multiplier = or_value c.buffer_multiplier (pos 30);
      })

module _ {W : Type 0} (nsq : GoNsq W) where
  abbrev pub checked : NativeConfig → Option Error → M W NativeConfig
  checked c none = return c
  checked c (some e) = throw e

  -- `newConfig`
  unfoldable pub new_config : Config → M W NativeConfig
  new_config c = checked (native_config c) (nsq.validate (native_config c))

  -- The configuration that `NewProducer` makes: what it does not set is zero.
  abbrev pub producer_config : ProducerConfig → Config
  producer_config c = record {
    hostname = c.hostname;
    lookupd = record { pool_interval = pos 0; poll_jitter = 0 };
    timeout = c.timeout;
    queue = record {
      max_in_flight = pos 0;
      msg_timeout = pos 0;
      max_requeue_delay = pos 0;
      default_requeue_delay = pos 0;
    };
    compression = c.compression;
  }

  -- `NewProducer`
  unfoldable pub new_producer : ProducerConfig → M W nsq.NativeProducer
  unfolding new_config
  new_producer c = do native ← new_config (producer_config c); nsq.new_producer c.address native

  -- `NSQConsumer`, with `Topic`, `Channel`, `Concurrency` and `BufferMultiplier` as fields of its
  -- configuration
  pub record NsqConsumer : Type 0 where
    pub consumer : nsq.NativeConsumer
    pub config : ConsumerConfig

  abbrev consumer_config : ConsumerConfig → Config
  consumer_config c = record {
    hostname = c.hostname;
    lookupd = c.lookupd;
    timeout = c.timeout;
    queue = c.queue;
    compression = c.compression;
  }

  -- `NewConsumer`
  unfoldable pub new_consumer : ConsumerConfig → M W NsqConsumer
  unfolding validate new_config
  new_consumer config = do
    c ← validate config
    native ← new_config (consumer_config c)
    con ← nsq.new_consumer c.topic c.channel native
    return (record { consumer = con; config = c })

-- `NSQProducer.Stop`, which calls itself, on a stack of so many frames: `none` is an overflow.
unfoldable pub stop : ℕ → Option (Unit {0})
stop zero = none
stop (suc frames) = stop frames
