-- ===== src/Router.antt =====
-- internal/pkg/router/router.go: routes and the middlewares around their handlers.
--
-- The matching of requests by gorilla/mux is not part of the repository: a route is kept with its
-- method, its path and its handler. A handler stands for what a request is given to, of any type.
pub mod Delegator
pub mod Chains
mod Tests
use go_project_example.Base.{
  ℕ, ltb, ◌&&◌, ◌+◌, ◌-◌, Bool, true, false, List, [], ◌∷◌, ◌++◌, map, Bytes, codes, if◌then◌else◌,
}
use go_project_example.Nsq.Middlewares.{wrap}

-- `strings.ToUpper` on ASCII letters.
abbrev upper_code : ℕ → ℕ
upper_code c = if ltb 96 c && ltb c 123 then c - 32 else c

abbrev pub to_upper : Bytes → Bytes
to_upper s = map upper_code s

module _ {ℓ} (H : Type ℓ) where
  -- A route, and the handler without the router's middlewares.
  pub record Route : Type ℓ where
    pub method : Bytes
    pub path : Bytes
    pub handler : H

  pub record Router : Type ℓ where
    pub route : List Route
    pub mw : List (H → H)

module _ {ℓ} {H : Type ℓ} where
  -- `Use`
  unfoldable pub use_middlewares : List (H → H) → Router H → Router H
  use_middlewares [] r = r
  use_middlewares (m ∷ ms) r = use_middlewares ms (record r { mw = r.mw ++ m ∷ [] })

  -- `Get`, `Head`, `Post`, `Patch`, `Delete` and `Options`, by the method.
  unfoldable pub handle : Bytes → Bytes → H → Router H → Router H
  handle method path handler r = record r {
    route = r.route ++ (record { method = method; path = path; handler = handler }) ∷ [];
  }

  -- `HandleFunc`
  unfoldable pub handle_func : Bytes → Bytes → H → Router H → Router H
  unfolding handle
  handle_func method path handler r = handle (to_upper method) path handler r

  -- The loop of `ChainedMiddlewares`.
  unfoldable pub chain : List (H → H) → H → H
  chain [] handler = handler
  chain (m ∷ ms) handler = chain ms (m handler)

  -- `ChainedMiddlewares.Then`, and the methods for the HTTP methods.
  unfoldable pub chain_then : List (H → H) → Bytes → Bytes → H → Router H → Router H
  unfolding chain handle_func
  chain_then middlewares method path handler r =
      handle_func method path (chain middlewares handler) r

  unfoldable pub chain_handle : List (H → H) → Bytes → Bytes → H → Router H → Router H
  unfolding chain handle
  chain_handle middlewares method path handler r = handle method path (chain middlewares handler) r

  -- What a request to a route is given to: `handleRoute` wraps the handler in the middlewares that
  -- the router has when the request comes.
  unfoldable pub serve : Router H → Route H → H
  serve r route = wrap r.mw route.handler
