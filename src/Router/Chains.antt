-- ===== src/Router/Chains.antt =====
-- The order of the middlewares of internal/pkg/router/router.go.
use go_project_example.Base.{
  List, [], ◌∷◌, ◌++◌, ◌≡◌, refl, sym, ap, ◌∙◌, Bytes, append_assoc, append-nil,
}
use mathlib.Core.List.{foldr, reverse, reverse-cons}
use go_project_example.Nsq.Middlewares.{wrap-foldr}
use go_project_example.Router.{
  Route, Router, use_middlewares, handle, chain, chain_handle, chain_then, handle_func, serve,
  to_upper,
}

module _ {ℓ} {H : Type ℓ} where
  abbrev pub around : List (H → H) → H → H
  around ms h = foldr (λ m k. m k) h ms

  mw-use_middlewares :
      (ms : List (H → H)) (r : Router H) → use_middlewares ms r ≡ record r { mw = r.mw ++ ms }
  unfolding use_middlewares
  mw-use_middlewares [] r = rw (append-nil r.mw) refl
  mw-use_middlewares (m ∷ ms) r =
      mw-use_middlewares ms (record r { mw = r.mw ++ m ∷ [] })
      ∙ ap (λ l. record r { mw = l }) (append_assoc r.mw (m ∷ []) ms)

  around-append : (ms ns : List (H → H)) (h : H) → around (ms ++ ns) h ≡ around ms (around ns h)
  around-append [] ns h = refl
  around-append (m ∷ ms) ns h = ap m (around-append ms ns h)

  -- The last of two lists of middlewares given to `Use` is inside of the first, and so is a later one
  -- in the same list; the handler of the route is the innermost. Middlewares that are used after a
  -- route was made are around it too.
  pub serve-use_middlewares :
      (ms ns : List (H → H)) (r : Router H) (route : Route H)
      → serve (use_middlewares ns (use_middlewares ms r)) route
        ≡ around r.mw (around ms (around ns route.handler))
  unfolding serve
  serve-use_middlewares ms ns r route =
      wrap-foldr (use_middlewares ns (use_middlewares ms r)).mw route.handler
      ∙ rw (mw-use_middlewares ms r, mw-use_middlewares ns (record r { mw = r.mw ++ ms }))
          (around-append (r.mw ++ ms) ns route.handler
            ∙ around-append r.mw ms (around ns route.handler))

  chain-reverse : (ms : List (H → H)) (h : H) → chain ms h ≡ around (reverse ms) h
  unfolding chain
  chain-reverse [] h = refl
  chain-reverse (m ∷ ms) h =
      chain-reverse ms (m h)
      ∙ sym (around-append (reverse ms) (m ∷ []) h)
      ∙ ap (λ l. around l h) (sym (reverse-cons m ms))

  -- A route made by chained middlewares is added at the end, and its handler is inside of the
  -- router's middlewares, and then of the chained ones in the reverse order: the last one in the
  -- chain is the outermost, while of those given to the router the first one is.
  pub serve-chain_handle :
      (ms : List (H → H)) (method path : Bytes) (h : H) (r : Router H)
      → (route : Route H) × ((chain_handle ms method path h r).route ≡ r.route ++ route ∷ [])
        × ((chain_then ms method path h r).route
            ≡ r.route ++ (record route { method = to_upper method }) ∷ [])
        × (serve r route ≡ around r.mw (around (reverse ms) h))
  unfolding serve chain_handle chain_then handle_func handle
  serve-chain_handle ms method path h r = (
    record { method = method; path = path; handler = chain ms h },
    refl,
    refl,
    wrap-foldr r.mw (chain ms h) ∙ ap (around r.mw) (chain-reverse ms h),
  )
