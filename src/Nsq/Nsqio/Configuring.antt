-- ===== src/Nsq/Nsqio/Configuring.antt =====
-- What can be made of a configuration of internal/pkg/nsq/nsqio/nsqio.go.
use go_project_example.Base.{
  [], ◌≡◌, ◌≢◌, refl, arith, true, false, inl, inr, Bytes, pos, Bool-cases,
}
use go_project_example.Text.{bytes_eq, bytes_eq_self}
use go_project_example.Xerrors.{Error}
use go_project_example.Effects.{ok, err, return, ◌>>=◌, Gives, continue-Gives, continue-Gives_all}
use go_project_example.Nsq.Nsqio.{
  GoNsq, ProducerConfig, ConsumerConfig, NsqConsumer, native_config, validate, new_config,
  new_producer, new_consumer, producer_config, consumer_config, or_value,
}

-- A configuration that `Validate` accepts, with what it sets.
abbrev pub completed : ConsumerConfig → ConsumerConfig
completed c = record c {
  concurrency = or_value c.concurrency (pos 1);
  buffer_multiplier = or_value c.buffer_multiplier (pos 30);
}

ne_nil : (s : Bytes) → bytes_eq s [] ≡ false → s ≢ []
ne_nil s h e = let same : bytes_eq s [] ≡ true = rw e (bytes_eq_self []) in cc

-- What `Validate` returns.
abbrev pub IsCompleted : ConsumerConfig → ConsumerConfig → Type 0
IsCompleted given c = (given.topic ≢ []) × (given.channel ≢ []) × (c ≡ completed given)

module _ {W : Type 0} where
  validate-Gives : (c : ConsumerConfig) (w : W) → Gives (IsCompleted c) (validate c w)
  unfolding validate
  validate-Gives c w = elim (Bool-cases (bytes_eq c.topic [])) [
    | inl no_topic ↦ rw no_topic tt
    | inr topic ↦ elim (Bool-cases (bytes_eq c.channel [])) [
      | inl no_channel ↦ rw (topic, no_channel) tt
      | inr channel ↦ simp (topic, channel) (ne_nil c.topic topic, ne_nil c.channel channel, refl)
    ]
  ]

module _ {W : Type 0} (nsq : GoNsq W) where
  -- `NewProducer` returns an error for every configuration: it leaves the interval for polling the
  -- lookup daemons zero, which is less than the least one.
  new_producer_refused :
      (c : ProducerConfig) (w : W) → (e : Error) × (new_producer nsq c w ≡ (w, err e))
  unfolding new_producer new_config
  new_producer_refused c w =
      let (e, refused) =
        nsq.validate-interval (native_config (producer_config nsq c)) (omega arith) in
      (e, rw refused refl)

  abbrev IsMade : ConsumerConfig → NsqConsumer nsq → Type 0
  IsMade given made = IsCompleted given made.config

  new_consumer-Gives : (c : ConsumerConfig) (w : W) → Gives (IsMade c) (new_consumer nsq c w)
  unfolding new_consumer
  new_consumer-Gives c w =
      continue-Gives (IsCompleted c) (IsMade c)
        (λ v. new_config nsq (consumer_config nsq v) >>= λ native.
          nsq.new_consumer v.topic v.channel native >>= λ con.
          return (record { consumer = con; config = v }))
        (validate c w) (validate-Gives c w)
        (λ v t h.
          continue-Gives_all (IsMade c)
            (λ native. nsq.new_consumer v.topic v.channel native >>= λ con.
              return (record { consumer = con; config = v }))
            (new_config nsq (consumer_config nsq v) t)
            (λ native u.
              continue-Gives_all (IsMade c) (λ con. return (record { consumer = con; config = v }))
                (nsq.new_consumer v.topic v.channel native u) (λ con x. h)))

  -- When `NewConsumer` returns a consumer, the configuration that was given has a topic and a
  -- channel, and the configuration that the consumer keeps is the given one with its concurrency, when
  -- zero, set to 1 and its buffer multiplier, when zero, to 30.
  new_consumer_lem :
      (c : ConsumerConfig) (w w' : W) (made : NsqConsumer nsq)
      → new_consumer nsq c w ≡ (w', ok made)
      → IsCompleted c made.config
  new_consumer_lem c w w' made returned =
      let gives : Gives (IsMade c) (new_consumer nsq c w) = new_consumer-Gives c w in
      rw returned at gives
