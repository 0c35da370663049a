-- ===== src/Nsq/Consumer/Handling.antt =====
-- What `Use` and `Handle` add to a consumer.
use go_project_example.Base.{
  ℤ, ℕ, refl, none, some, false, List, [], ◌∷◌, ◌++◌, ◌≡◌, sym, ◌∙◌, arith, Bytes, append_assoc,
  append-nil, pos, negsuc, ◌*ℤ◌, Result,
}
use mathlib.Core.List.{foldr}
use go_project_example.Xerrors.{Error}
use go_project_example.Nsq.Middlewares.{wrap-foldr}
use go_project_example.Nsq.Consumer.{
  Backend, Entry, Consumer, find_backend, use_middlewares, handle, is_used, workers, bare_entry,
  repeat,
}

zero-*ℤ : (n : ℤ) → pos 0 *ℤ n ≡ pos 0
unfolding ◌*ℤ◌
zero-*ℤ n = ground arith

module _ {H : Type 0} where
  is_used-eq-false : (ims : List (H → H)) (m : H → H) → is_used ims m ≡ false
  unfolding is_used
  is_used-eq-false [] m = refl
  is_used-eq-false (im ∷ ims) m = is_used-eq-false ims m

  -- `Use` adds every middleware that it is given, one that is there already too.
  use_middlewares-append :
      (ms : List (H → H)) (c : Consumer H)
      → use_middlewares ms c ≡ record c { middlewares = c.middlewares ++ ms }
  unfolding use_middlewares
  use_middlewares-append [] c = λ i. record c { middlewares = sym (append-nil c.middlewares) i }
  use_middlewares-append (m ∷ ms) c = rw (is_used-eq-false c.middlewares m) (
      use_middlewares-append ms (record c { middlewares = c.middlewares ++ m ∷ [] }) ∙ λ i.
      record c { middlewares = append_assoc c.middlewares (m ∷ []) ms i })

  handle_cases :
      (topic channel : Bytes) (h : H) (c : Consumer H)
      → (find_backend topic channel c.backends ≡ none
          → handle topic channel h c
            ≡ some (record c {
              handlers =
                  c.handlers ++ bare_entry topic channel (foldr (λ m k. m k) h c.middlewares) ∷ [];
            }))
        × ((b : Backend) (n : ℕ)
            → find_backend topic channel c.backends ≡ some b
            → b.concurrency *ℤ b.buffer_multiplier ≡ pos n
            → handle topic channel h c
              ≡ some (record c {
                handlers =
                    c.handlers
                    ++ record {
                      topic = topic;
                      channel = channel;
                      handler = foldr (λ m k. m k) h c.middlewares;
                      concurrency = b.concurrency;
                      buff_multiplier = b.buffer_multiplier;
                      buff_length = pos n;
                      buffer = some n;
                    }
                      ∷ [];
              }))
        × ((b : Backend) (n : ℕ)
            → find_backend topic channel c.backends ≡ some b
            → b.concurrency *ℤ b.buffer_multiplier ≡ negsuc n
            → handle topic channel h c ≡ none)
  unfolding handle
  handle_cases topic channel h c = (
    (λ missing. rw missing (rw (wrap-foldr c.middlewares h))),
    (λ b n found size. rw (found, size) (rw (wrap-foldr c.middlewares h))),
    (λ b n found size. rw (found, size)),
  )

  -- A backend with no worker count gets no worker and no buffer: the counts 1 and 30 that `Handle`
  -- puts in the place of such values are not used.
  handle_no_workers :
      (topic channel : Bytes) (h : H) (c : Consumer H) (b : Backend)
      → find_backend topic channel c.backends ≡ some b
      → b.concurrency ≡ pos 0
      → (d : Consumer H) × (e : Entry H) × (handle topic channel h c ≡ some d)
        × (d.handlers ≡ c.handlers ++ e ∷ [])
        × (e.buffer ≡ some 0)
        × ((connects : Bytes → Bytes → List Bytes → Result Error (Unit {0}))
            → workers connects e ≡ [])
  unfolding repeat
  handle_no_workers topic channel h c b found idle =
      let size : b.concurrency *ℤ b.buffer_multiplier ≡ pos 0 =
        rw idle (zero-*ℤ b.buffer_multiplier) in
      let handled = (handle_cases topic channel h c).1 b 0 found size in
      (_, _, handled, refl, refl, λ connects. rw idle)
