-- ===== src/Nsq/Consumer/Tests.antt =====
-- A consumer of two backends.
use go_project_example.Base.{
  ℕ, List, [], ◌∷◌, ◌≡◌, refl, some, Bytes, codes, Result, ok, All, pos, ◌*ℤ◌,
}
use go_project_example.Text.{bytes_eq}
use go_project_example.Xerrors.{Error}
use go_project_example.Nsq.Consumer.{
  Backend, ConsumerConfig, Entry, Consumer, find_backend, wrap_consumers, handle, start, bare_entry,
}
use go_project_example.Nsq.Middlewares.{wrap}
use go_project_example.Nsq.Consumer.Starting.{IsReady, wrapped, handled, IsUnaddressed, Built-start}

abbrev order_backend : Backend
order_backend = record {
  topic = codes "order";
  channel = codes "mail";
  concurrency = pos 2;
  buffer_multiplier = pos 3;
}

abbrev idle_backend : Backend
idle_backend = record {
  topic = codes "idle";
  channel = codes "mail";
  concurrency = pos 0;
  buffer_multiplier = pos 3;
}

abbrev config : ConsumerConfig
config = record {
  lookupds_addr = codes "lookupd:4161" ∷ [];
  concurrency = pos 0;
  buffer_multiplier = pos 0;
}

-- A handler function is known by a number, and a middleware is a function on these.
abbrev consumer : Consumer ℕ
consumer = record {
  config = config;
  backends = order_backend ∷ idle_backend ∷ [];
  handlers = [];
  middlewares = [];
  lookupds_address = [];
}

abbrev order_entry : Entry ℕ
order_entry = record {
  topic = codes "order";
  channel = codes "mail";
  handler = 5;
  concurrency = pos 2;
  buff_multiplier = pos 3;
  buff_length = pos 6;
  buffer = some 6;
}

abbrev lost_entry : Entry ℕ
lost_entry = bare_entry (codes "lost") (codes "mail") 5

abbrev busy : Consumer ℕ
busy = record consumer { handlers = order_entry ∷ lost_entry ∷ [] }

abbrev ready : Consumer ℕ
ready = record consumer { handlers = order_entry ∷ [] }

abbrev connects : Bytes → Bytes → List Bytes → Result Error (Unit {0})
connects topic channel addresses = ok tt

wrapped_consumer : wrap_consumers config (order_backend ∷ idle_backend ∷ []) ≡ ok consumer
unfolding wrap_consumers bytes_eq
wrapped_consumer = refl

handled_consumer : handle (codes "order") (codes "mail") 5 consumer ≡ some ready
unfolding handle find_backend bytes_eq ◌*ℤ◌ wrap
handled_consumer = refl

order-IsReady : All (IsReady connects busy) (order_entry ∷ [])
unfolding find_backend bytes_eq
order-IsReady = (((order_backend, refl), refl), tt)

Built-start_example : All IsUnaddressed (start connects ready).0
Built-start_example = Built-start connects ready (
    handled (codes "order") (codes "mail") 5
      (wrapped config (order_backend ∷ idle_backend ∷ []) wrapped_consumer) handled_consumer)
