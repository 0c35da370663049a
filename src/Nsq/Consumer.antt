-- ===== src/Nsq/Consumer.antt =====
-- internal/pkg/nsq/nsq.go: the consumer, which starts the handlers on their backends.
pub mod Starting
pub mod Handling
mod Tests
use go_project_example.Base.{
  ℕ, zero, suc, ◌+◌, ◌/◌, Bool, true, false, List, [], ◌∷◌, ◌++◌, Option, none, some, ltb,
  if◌then◌else◌, Bytes, codes, Result, ok, err, ℤ, pos, negsuc, ◌*ℤ◌, leb_ℤ, pos_part,
}
use go_project_example.Text.{bytes_eq}
use go_project_example.Xerrors.{Error, message, sentinel, with_op}
use go_project_example.Nsq.Middlewares.{wrap}

-- What the consumer reads of a `ConsumerBackend`.
pub record Backend : Type 0 where
  pub topic : Bytes
  pub channel : Bytes
  pub concurrency : ℤ
  pub buffer_multiplier : ℤ

-- `ConsumerConfig`
pub record ConsumerConfig : Type 0 where
  pub lookupds_addr : List Bytes
  pub concurrency : ℤ
  pub buffer_multiplier : ℤ

abbrev pub lookupd_empty : Error
lookupd_empty = message (codes "nsq: lookupd address cannot be empty")

-- `ConsumerConfig.Validate`
unfoldable pub validate : ConsumerConfig → Result Error (Unit {0})
validate config = elim config.lookupds_addr [ [] ↦ err lookupd_empty | _ ↦ ok tt ]

-- The `nsqHandler` that `Handle` makes; `buffer` is the capacity of `messageBuff`, if it was made.
pub record Entry (H : Type 0) : Type 0 where
  pub topic : Bytes
  pub channel : Bytes
  pub handler : H
  pub concurrency : ℤ
  pub buff_multiplier : ℤ
  pub buff_length : ℤ
  pub buffer : Option ℕ

-- `Consumer`; the maps of the backends are one list, with one entry for a topic and a channel.
pub record Consumer (H : Type 0) : Type 0 where
  pub config : ConsumerConfig
  pub backends : List Backend
  pub handlers : List (Entry H)
  pub middlewares : List (H → H)
  pub lookupds_address : List Bytes

abbrev pub is_backend : Bytes → Bytes → Backend → Bool
is_backend topic channel b = if bytes_eq b.topic topic then bytes_eq b.channel channel else false

-- `c.backends[topic][channel]`
unfoldable pub find_backend : Bytes → Bytes → List Backend → Option Backend
find_backend topic channel [] = none
find_backend topic channel (b ∷ bs) =
    if is_backend topic channel b then some b else find_backend topic channel bs

-- `b[topic][channel] = c`
unfoldable pub put_backend : Backend → List Backend → List Backend
put_backend b [] = b ∷ []
put_backend b (x ∷ xs) = if is_backend b.topic b.channel x then b ∷ xs else x ∷ put_backend b xs

unfoldable pub add_backends : List Backend → List Backend → List Backend
unfolding put_backend
add_backends [] known = known
add_backends (b ∷ bs) known = add_backends bs (put_backend b known)

abbrev pub max_one : ℤ → ℤ → ℤ
max_one n default = if leb_ℤ n (pos 0) then default else n

module _ {H : Type 0} where
  -- `WrapConsumers`
  unfoldable pub wrap_consumers : ConsumerConfig → List Backend → Result Error (Consumer H)
  unfolding add_backends validate
  wrap_consumers config bs = elim (validate config) [
    | err e ↦ err e
    | ok _ ↦ ok (record {
      config = config;
      backends = add_backends bs [];
      handlers = [];
      middlewares = [];
      lookupds_address = [];
    })
  ]

  -- `&im == &m`: the addresses of two loop variables, which are two variables.
  abbrev same_variable : (H → H) → (H → H) → Bool
  same_variable im m = false

  -- The inner loop of `Use`.
  is_used : List (H → H) → (H → H) → Bool
  is_used [] m = false
  is_used (im ∷ ims) m = if same_variable im m then true else is_used ims m

  -- `Use`
  unfoldable pub use_middlewares : List (H → H) → Consumer H → Consumer H
  unfolding is_used
  use_middlewares [] c = c
  use_middlewares (m ∷ ms) c =
      use_middlewares ms
        (if is_used c.middlewares m then c else record c { middlewares = c.middlewares ++ m ∷ [] })

  abbrev bare_entry : Bytes → Bytes → H → Entry H
  bare_entry topic channel h = record {
    topic = topic;
    channel = channel;
    handler = h;
    concurrency = pos 0;
    buff_multiplier = pos 0;
    buff_length = pos 0;
    buffer = none;
  }

  -- `make(chan *Message, buffLen)` panics at a negative length, which is `none`.
  make_buffer : ℤ → Entry H → Option (Entry H)
  make_buffer (pos n) e = some (record e { buff_length = pos n; buffer = some n })
  make_buffer (negsuc n) e = none

  -- The part of `Handle` for a backend that is found. The two raised values are not used.
  unfoldable pub size_entry : Backend → Entry H → Option (Entry H)
  unfolding make_buffer
  size_entry b e =
      let concurrency : ℤ = max_one b.concurrency (pos 1) in
      let buff_multiplier : ℤ = max_one b.buffer_multiplier (pos 30) in
      make_buffer (b.concurrency *ℤ b.buffer_multiplier)
        (record e { concurrency = b.concurrency; buff_multiplier = b.buffer_multiplier })

  append_entry : Consumer H → Option (Entry H) → Option (Consumer H)
  append_entry c none = none
  append_entry c (some e) = some (record c { handlers = c.handlers ++ e ∷ [] })

  -- `Handle`; `none` is a panic.
  unfoldable pub handle : Bytes → Bytes → H → Consumer H → Option (Consumer H)
  unfolding size_entry append_entry
  handle topic channel handler c =
      let e : Entry H = bare_entry topic channel (wrap c.middlewares handler) in
      append_entry c
        (elim (find_backend topic channel c.backends) [ none ↦ some e | some b ↦ size_entry b e ])

-- What `Start` and `Stop` do to the backends and the workers, in order.
pub data Call : Type 0 where
  add_handler : Bytes → Bytes → Call
  add_concurrent_handlers : Bytes → Bytes → ℕ → Call
  change_max_in_flight : Bytes → Bytes → ℤ → Call
  connect : Bytes → Bytes → List Bytes → Call
  work : Bytes → Bytes → Call
  stop_backend : Bytes → Bytes → Call
  stop_worker : Bytes → Bytes → Call

unfoldable pub repeat : ℕ → Call → List Call
repeat zero c = []
repeat (suc n) c = c ∷ repeat n c

abbrev pub backend_not_found : Bytes → Bytes → Error
backend_not_found topic channel =
    with_op (sentinel (codes "nsq: topic and channel not found")) (topic ++ channel) none

module _ {H : Type 0} (connects : Bytes → Bytes → List Bytes → Result Error (Unit {0})) where
  abbrev consumer_handlers : Entry H → Call
  consumer_handlers e =
      let n : ℕ = pos_part e.concurrency / 30 in
      if ltb 1 n then add_concurrent_handlers e.topic e.channel n else add_handler e.topic e.channel

  -- The calls for one handler, up to its connection.
  abbrev pub opening : List Bytes → Entry H → List Call
  opening addresses e =
      consumer_handlers e
      ∷ change_max_in_flight e.topic e.channel e.buff_length
      ∷ connect e.topic e.channel addresses
      ∷ []

  abbrev pub workers : Entry H → List Call
  workers e = repeat (pos_part e.concurrency) (work e.topic e.channel)

  -- The loop of `Start`.
  unfoldable pub start_loop :
      List Backend → List Bytes → List (Entry H) → List Call → List Call × Result Error (Unit {0})
  unfolding repeat
  start_loop bs addresses [] log = (log, ok tt)
  start_loop bs addresses (e ∷ es) log =
      let rest : List Call × Result Error (Unit {0}) =
        start_loop bs addresses es (log ++ (opening addresses e ++ workers e)) in
      elim (find_backend e.topic e.channel bs) [
        | none ↦ (log, err (backend_not_found e.topic e.channel))
        | some b ↦ elim (connects e.topic e.channel addresses) [
          | err x ↦ (log ++ opening addresses e, err x)
          | ok _ ↦ rest
        ]
      ]

  -- `Start`
  unfoldable pub start : Consumer H → List Call × Result Error (Unit {0})
  unfolding start_loop
  start c = start_loop c.backends c.lookupds_address c.handlers []

abbrev stop_backends : List Backend → List Call
stop_backends [] = []
stop_backends (b ∷ bs) = stop_backend b.topic b.channel ∷ stop_backends bs

module _ {H : Type 0} where
  abbrev stop_workers : List (Entry H) → List Call
  stop_workers [] = []
  stop_workers (e ∷ es) =
      repeat (pos_part e.concurrency) (stop_worker e.topic e.channel) ++ stop_workers es

  -- `Stop`, where each worker reads its `stopChan`.
  unfoldable pub stop : Consumer H → List Call
  unfolding repeat
  stop c = stop_backends c.backends ++ stop_workers c.handlers
