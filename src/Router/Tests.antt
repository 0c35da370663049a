-- ===== src/Router/Tests.antt =====
-- Handlers are functions on numbers.
use go_project_example.Base.{ℕ, ◌+◌, ◌*◌, [], ◌∷◌, ◌≡◌, codes}
use go_project_example.Router.{
  Route, Router, use_middlewares, chain_handle, chain_then, serve, to_upper,
}
use go_project_example.Router.Chains.{serve-use_middlewares, serve-chain_handle}
use go_project_example.Router.Delegator.{
  IsFaithful, new_delegator, run, use_header, use_write, run-IsFaithful,
}

abbrev double : (ℕ → ℕ) → ℕ → ℕ
double h n = h (n * 2)

abbrev add_one : (ℕ → ℕ) → ℕ → ℕ
add_one h n = h (n + 1)

abbrev router : Router (ℕ → ℕ)
router = record { route = []; mw = add_one ∷ [] }

abbrev user_route : Route (ℕ → ℕ)
user_route = record { method = codes "GET"; path = codes "/user"; handler = λ n. n }

used_twice :
    serve (use_middlewares (add_one ∷ []) (use_middlewares (double ∷ []) router)) user_route
    ≡ add_one (double (add_one (λ n. n)))
used_twice = serve-use_middlewares (double ∷ []) (add_one ∷ []) router user_route

serve-chain_handle_example :
    (route : Route (ℕ → ℕ)) × ((chain_handle
        (double ∷ add_one ∷ [])
        (codes "get")
        (codes "/user")
        (λ n. n)
        router).route
      ≡ route ∷ [])
    × ((chain_then (double ∷ add_one ∷ []) (codes "get") (codes "/user") (λ n. n) router).route
        ≡ (record route { method = to_upper (codes "get") }) ∷ [])
    × (serve router route ≡ add_one (add_one (double (λ n. n))))
serve-chain_handle_example =
    serve-chain_handle (double ∷ add_one ∷ []) (codes "get") (codes "/user") (λ n. n) router

run-IsFaithful_example :
    IsFaithful (run new_delegator (use_write 5 ∷ use_header 404 ∷ use_write 7 ∷ []))
run-IsFaithful_example = run-IsFaithful (use_write 5 ∷ use_header 404 ∷ use_write 7 ∷ [])
