-- ===== src/Nsq/Nsqio/Tests.antt =====
-- A go-nsq that refuses short intervals of polling.
use go_project_example.Base.{
  ◌≡◌, refl, arith, true, false, Bytes, codes, [], Option, none, some, ℤ, pos, negsuc, ltb, ◌<ℤ◌,
  if◌then◌else◌,
}
use go_project_example.Xerrors.{Error, backend}
use go_project_example.Effects.{return}
use go_project_example.Nsq.Nsqio.{
  GoNsq, CompressionConfig, ConsumerConfig, ProducerConfig, TimeoutConfig, stop,
}

abbrev refuse_below : ℤ → Option Error
refuse_below (pos n) = if ltb n 10000000 then some (backend 7) else none
refuse_below (negsuc n) = some (backend 7)

refuse_below-refuses : (n : ℤ) → n <ℤ pos 10000000 → (e : Error) × (refuse_below n ≡ some e)
refuse_below-refuses (pos n) h =
    let below : ltb n 10000000 ≡ true = ground arith in (backend 7, rw below refl)
refuse_below-refuses (negsuc n) h = (backend 7, refl)

-- A producer is known by its address, and a consumer by its channel.
abbrev go_nsq : GoNsq (Unit {0})
go_nsq = record {
  NativeProducer = Bytes;
  NativeConsumer = Bytes;
  validate = λ c. refuse_below c.lookupd_poll_interval;
  new_producer = λ address c. return address;
  new_consumer = λ topic channel c. return channel;
  validate-interval = λ c h. refuse_below-refuses c.lookupd_poll_interval h;
}

abbrev no_compression : CompressionConfig
no_compression = record { deflate = false; deflate_level = pos 0; snappy = false }

abbrev timeouts : TimeoutConfig
timeouts = record { dial = pos 5; read = pos 6; write = pos 7; message_timeout = pos 8 }

abbrev consumer_config : ConsumerConfig
consumer_config = record {
  hostname = [];
  topic = codes "booking";
  channel = codes "mail";
  lookupd = record { pool_interval = pos 20000000; poll_jitter = 0 };
  timeout = timeouts;
  queue = record {
    max_in_flight = pos 1;
    msg_timeout = pos 0;
    max_requeue_delay = pos 0;
    default_requeue_delay = pos 0;
  };
  compression = no_compression;
  concurrency = pos 0;
  buffer_multiplier = pos 40;
}

abbrev producer_config : ProducerConfig
producer_config = record {
  hostname = [];
  address = codes "nsqd:4150";
  compression = no_compression;
  timeout = timeouts;
}

stop_overflows : stop 100 ≡ none
unfolding stop
stop_overflows = refl
