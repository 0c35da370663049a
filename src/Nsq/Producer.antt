-- ===== src/Nsq/Producer.antt =====
-- internal/pkg/nsq/nsq.go: the producer and its topics.
use go_project_example.Base.{
  Bool, true, false, List, [], ◌∷◌, ◌≡◌, refl, arith, Bytes, codes, Result, err, if◌then◌else◌,
}
use go_project_example.Text.{bytes_eq}
use go_project_example.Xerrors.{Error, message}

-- `ProducerBackend`, over the state of the outside.
pub record ProducerBackend (S : Type 0) : Type 0 where
  pub publish : Bytes → Bytes → S → S × Result Error (Unit {0})
  pub multi_publish : Bytes → List Bytes → S → S × Result Error (Unit {0})

-- `Producer`: the map from the topics to `true`.
pub record Producer (S : Type 0) : Type 0 where
  pub producer : ProducerBackend S
  pub topics : Bytes → Bool

abbrev pub not_allowed : Error
not_allowed = message (codes "nsq: topic is not allowed to be published by this producer")

add_topics : List Bytes → (Bytes → Bool) → Bytes → Bool
add_topics [] topics = topics
add_topics (t ∷ ts) topics = add_topics ts (λ u. if bytes_eq u t then true else topics u)

-- Whether a topic was named.
abbrev pub named : Bytes → List Bytes → Bool
named t [] = false
named t (u ∷ us) = if bytes_eq t u then true else named t us

add_topics-named :
    (ts : List Bytes) (topics : Bytes → Bool) (t : Bytes)
    → add_topics ts topics t ≡ (if named t ts then true else topics t)
unfolding add_topics
add_topics-named [] topics t = refl
add_topics-named (u ∷ us) topics t =
    ground (arith, add_topics-named us (λ v. if bytes_eq v u then true else topics v) t)

module _ {S : Type 0} where
  unfoldable pub wrap_producer : ProducerBackend S → List Bytes → Producer S
  unfolding add_topics
  wrap_producer backend ts = record { producer = backend; topics = add_topics ts (λ t. false) }

  unfoldable pub publish : Producer S → Bytes → Bytes → S → S × Result Error (Unit {0})
  publish p topic body s =
      if p.topics topic then p.producer.publish topic body s else (s, err not_allowed)

  unfoldable pub multi_publish : Producer S → Bytes → List Bytes → S → S × Result Error (Unit {0})
  multi_publish p topic body s =
      if p.topics topic then p.producer.multi_publish topic body s else (s, err not_allowed)

  -- A producer hands exactly the messages of the topics that it was made for to its backend, alone
  -- and in batches, and refuses all others with nothing sent.
  wrap_producer-publish :
      (backend : ProducerBackend S) (ts : List Bytes) (topic body : Bytes) (bodies : List Bytes)
      (s : S)
      → let p = wrap_producer backend ts in
        (publish p topic body s
          ≡ (if named topic ts then backend.publish topic body s else (s, err not_allowed)))
        × (multi_publish p topic bodies s ≡ (
            if named topic ts then backend.multi_publish topic bodies s else (s, err not_allowed)))
  unfolding wrap_producer publish multi_publish
  wrap_producer-publish backend ts topic body bodies s =
      ground (arith, add_topics-named ts (λ t. false) topic)
