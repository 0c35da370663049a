-- ===== src/Nsq/Middlewares.antt =====
-- internal/pkg/nsq/middleware.go, and the chain that `Handle` builds of the middlewares.
use go_project_example.Base.{
  ℕ, zero, suc, ◌≤◌, List, [], ◌∷◌, ◌≡◌, refl, Option, none, some, arith, length, get_elem?,
  if◌then◌else◌, ◌==◌, ap, ◌∙◌,
}
use mathlib.Core.List.{foldr}
use go_project_example.Nsq.Message.{Message}

module _ {ℓ} {H : Type ℓ} where
  abbrev apply_at : Option (H → H) → H → H
  apply_at none h = h
  apply_at (some m) h = m h

  -- `for i := range c.middlewares { handler = c.middlewares[len(c.middlewares)-i-1](handler) }`,
  -- with `left` rounds to go.
  unfoldable pub wrap_loop : ℕ → List (H → H) → H → H
  wrap_loop zero ms h = h
  wrap_loop (suc left) ms h = wrap_loop left ms (apply_at (get_elem? ms left) h)

  unfoldable pub wrap : List (H → H) → H → H
  unfolding wrap_loop
  wrap ms h = wrap_loop (length ms) ms h

  wrap_loop-cons :
      (n : ℕ) (m : H → H) (ms : List (H → H)) (h : H)
      → n ≤ length ms
      → wrap_loop (suc n) (m ∷ ms) h ≡ m (wrap_loop n ms h)
  unfolding wrap_loop
  wrap_loop-cons zero m ms h b = refl
  wrap_loop-cons (suc n) m ms h b = wrap_loop-cons n m ms _ (omega arith)

  -- The first middleware is the outermost: it gets the message first.
  pub wrap-foldr : (ms : List (H → H)) (h : H) → wrap ms h ≡ foldr (λ m k. m k) h ms
  unfolding wrap
  wrap-foldr [] h = refl
  wrap-foldr (m ∷ ms) h = wrap_loop-cons (length ms) m ms h (omega arith) ∙ ap m (wrap-foldr ms h)

-- A handler function over a state of the outside; `sleep` stands for `time.Sleep`.
abbrev pub HandlerFunc : Type 0 → Type 0 → Type 0
HandlerFunc S E = Message → S → Message × S × Option E

abbrev mark_throttled : Message → Message
mark_throttled m = record m { info = record (m.info) { throttled = 1 } }

module _ {S E : Type 0} (sleep : ℕ → S → S) where
  -- `ThrottleMiddleware.Throttle` with a `TimeDelay`
  unfoldable pub throttle : ℕ → HandlerFunc S E → HandlerFunc S E
  throttle time_delay handler m s =
      if m.info.throttle_flag == 1
      then handler (mark_throttled m) (sleep time_delay s)
      else handler m s
