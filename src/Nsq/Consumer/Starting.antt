-- ===== src/Nsq/Consumer/Starting.antt =====
-- What `Start` does, on all its ways out.
use go_project_example.Base.{
  append-nil, ◌⊎◌, ℕ, zero, suc, List, [], ◌∷◌, ◌++◌, ◌≡◌, refl, sym, ap, ◌∙◌, Option, none, some,
  arith, Bytes, Result, ok, err, Result-cases, Bool-cases, ◌/◌, All, All-append, append_assoc, ltb,
  pos_part, Option-cases, inl, inr,
}
use go_project_example.Xerrors.{Error}
use go_project_example.Nsq.Consumer.{
  Backend, Entry, Consumer, ConsumerConfig, Call, connect, work, find_backend, opening, workers,
  start_loop, start, backend_not_found, wrap_consumers, use_middlewares, handle, repeat,
  append_entry,
}

module _ {H : Type 0} (connects : Bytes → Bytes → List Bytes → Result Error (Unit {0})) where
  -- A handler whose backend is known and connects.
  abbrev pub IsReady : Consumer H → Entry H → Type 0
  IsReady c e =
      ((b : Backend) × (find_backend e.topic e.channel c.backends ≡ some b))
      × (connects e.topic e.channel c.lookupds_address ≡ ok tt)

  -- The calls for handlers that are all ready.
  abbrev pub started : List Bytes → List (Entry H) → List Call
  started addresses [] = []
  started addresses (e ∷ es) =
      (opening connects addresses e ++ workers connects e) ++ started addresses es

  start_loop-ready :
      (c : Consumer H) (before after : List (Entry H)) (log : List Call)
      → All (IsReady c) before
      → start_loop connects c.backends c.lookupds_address (before ++ after) log
        ≡ start_loop connects c.backends c.lookupds_address after
            (log ++ started c.lookupds_address before)
  unfolding start_loop
  start_loop-ready c [] after log r = rw (append-nil log)
  start_loop-ready c (e ∷ before) after log (((b, found), connected), r) =
      let one = opening connects c.lookupds_address e ++ workers connects e in
      rw (found, connected, start_loop)
        (start_loop-ready c before after (log ++ one) r
          ∙ rw (append_assoc log one (started c.lookupds_address before)))

  -- If every handler is ready, `Start` succeeds: for each handler in turn it adds the handler to its
  -- backend, sets `MaxInFlight` to the buffer length, connects, and starts as many workers as the
  -- handler's concurrency.
  start_ready :
      (c : Consumer H)
      → All (IsReady c) c.handlers
      → start connects c ≡ (started c.lookupds_address c.handlers, ok tt)
  unfolding start
  start_ready c r =
      ap (λ es. start_loop connects c.backends c.lookupds_address es [])
        (sym (append-nil c.handlers))
      ∙ start_loop-ready c c.handlers [] [] r
      ∙ (unfold start_loop in refl)

  missing_step :
      (c : Consumer H) (e : Entry H) (after : List (Entry H)) (log : List Call)
      → find_backend e.topic e.channel c.backends ≡ none
      → start_loop connects c.backends c.lookupds_address (e ∷ after) log
        ≡ (log, err (backend_not_found e.topic e.channel))
  unfolding start_loop
  missing_step c e after log missing = rw (missing, start_loop)

  failed_step :
      (c : Consumer H) (e : Entry H) (after : List (Entry H)) (b : Backend) (x : Error)
      (log : List Call)
      → find_backend e.topic e.channel c.backends ≡ some b
      → connects e.topic e.channel c.lookupds_address ≡ err x
      → start_loop connects c.backends c.lookupds_address (e ∷ after) log
        ≡ (log ++ opening connects c.lookupds_address e, err x)
  unfolding start_loop
  failed_step c e after b x log found failed = rw (found, failed, start_loop)

  start_cases :
      (c : Consumer H) (before after : List (Entry H)) (e : Entry H)
      → c.handlers ≡ before ++ e ∷ after
      → All (IsReady c) before
      → (find_backend e.topic e.channel c.backends ≡ none
          → start connects c
            ≡ (started c.lookupds_address before, err (backend_not_found e.topic e.channel)))
        × ((b : Backend) (x : Error)
            → find_backend e.topic e.channel c.backends ≡ some b
            → connects e.topic e.channel c.lookupds_address ≡ err x
            → start connects c
              ≡ (started c.lookupds_address before ++ opening connects c.lookupds_address e, err x))
  unfolding start
  start_cases c before after e at r =
      let here = start_loop-ready c before (e ∷ after) [] r in
      (
        (λ missing. rw at (here ∙ missing_step c e after _ missing)),
        λ b x found failed. rw at (here ∙ failed_step c e after b x _ found failed),
      )

  -- How `e` stops `Start`: there is no backend for it, and it gets no call, or its backend does not
  -- connect, which is tried after the calls that open it.
  abbrev pub StopsAt : Consumer H → Entry H → List Call → Error → Type 0
  StopsAt c e calls x =
      ((find_backend e.topic e.channel c.backends ≡ none)
        × (calls ≡ [])
        × (x ≡ backend_not_found e.topic e.channel))
      ⊎ ((b : Backend) × (find_backend e.topic e.channel c.backends ≡ some b)
          × (connects e.topic e.channel c.lookupds_address ≡ err x)
          × (calls ≡ opening connects c.lookupds_address e))

  -- The first handler that is not ready stops `Start`: the handlers before it are started, its own
  -- calls follow, and the error says whether the backend is missing or did not connect.
  start_stops :
      (c : Consumer H) (before after : List (Entry H)) (e : Entry H) (calls : List Call) (x : Error)
      → c.handlers ≡ before ++ e ∷ after
      → All (IsReady c) before
      → StopsAt c e calls x
      → start connects c ≡ (started c.lookupds_address before ++ calls, err x)
  start_stops c before after e calls x at r (inl (missing, none_called, is_missing)) =
      rw (none_called, is_missing, append-nil (started c.lookupds_address before))
        ((start_cases c before after e at r).0 missing)
  start_stops c before after e calls x at r (inr (b, found, failed, opened)) =
      rw opened ((start_cases c before after e at r).1 b x found failed)

-- A consumer of `WrapConsumers`, after any calls of `Use` and `Handle`.
pub data Built {H : Type 0} : Consumer H → Type 0 where
  wrapped :
      (config : ConsumerConfig) (bs : List Backend) {c : Consumer H}
      → wrap_consumers config bs ≡ ok c
      → Built c
  used : (ms : List (H → H)) {c d : Consumer H} → Built c → use_middlewares ms c ≡ d → Built d
  handled :
      (topic channel : Bytes) (h : H) {c d : Consumer H}
      → Built c
      → handle topic channel h c ≡ some d
      → Built d

module _ {H : Type 0} where
  use_middlewares-address :
      (ms : List (H → H)) (c : Consumer H)
      → (use_middlewares ms c).lookupds_address ≡ c.lookupds_address
  unfolding use_middlewares
  use_middlewares-address [] c = refl
  use_middlewares-address (m ∷ ms) c = use_middlewares-address ms _ ∙ ground arith

  append_entry-address :
      (c d : Consumer H) (o : Option (Entry H))
      → append_entry c o ≡ some d
      → d.lookupds_address ≡ c.lookupds_address
  unfolding append_entry
  append_entry-address c d none h = cc
  append_entry-address c d (some e) h = ground arith

  handle-address :
      (topic channel : Bytes) (h : H) (c d : Consumer H)
      → handle topic channel h c ≡ some d
      → d.lookupds_address ≡ c.lookupds_address
  unfolding handle
  handle-address topic channel h c d e = append_entry-address c d _ e

  wrap_consumers-address :
      (config : ConsumerConfig) (bs : List Backend) (c : Consumer H)
      → wrap_consumers config bs ≡ ok c
      → c.lookupds_address ≡ []
  unfolding wrap_consumers
  wrap_consumers-address config bs c h = ground arith

  Built-address : {c : Consumer H} → Built c → c.lookupds_address ≡ []
  Built-address (wrapped config bs {c = c} h) = wrap_consumers-address config bs c h
  Built-address (used ms {c = c} b h) = rw (← h) (use_middlewares-address ms c ∙ Built-address b)
  Built-address (handled topic channel h {c = c} {d = d} b e) =
      handle-address topic channel h c d e ∙ Built-address b

-- A connection that names no lookupd.
abbrev pub IsUnaddressed : Call → Type 0
IsUnaddressed (connect topic channel addresses) = addresses ≡ []
IsUnaddressed _ = Unit {0}

repeat-IsUnaddressed :
    (n : ℕ) (topic channel : Bytes) → All IsUnaddressed (repeat n (work topic channel))
unfolding repeat
repeat-IsUnaddressed zero topic channel = tt
repeat-IsUnaddressed (suc n) topic channel = (tt, repeat-IsUnaddressed n topic channel)

module _ {H : Type 0} (connects : Bytes → Bytes → List Bytes → Result Error (Unit {0})) where
  opening-IsUnaddressed : (e : Entry H) → All IsUnaddressed (opening connects [] e)
  opening-IsUnaddressed e = elim (Bool-cases (ltb 1 (pos_part e.concurrency / 30))) [
    | inl t ↦ rw t (tt, (tt, (refl, tt)))
    | inr t ↦ rw t (tt, (tt, (refl, tt)))
  ]

  start_loop-IsUnaddressed :
      (bs : List Backend) (es : List (Entry H)) (log : List Call)
      → All IsUnaddressed log
      → All IsUnaddressed (start_loop connects bs [] es log).0
  unfolding start_loop
  start_loop-IsUnaddressed bs [] log l = l
  start_loop-IsUnaddressed bs (e ∷ es) log l =
      elim (Option-cases (find_backend e.topic e.channel bs)) [
        | inl missing ↦ rw (missing, start_loop) l
        | inr (b, found) ↦ elim (Result-cases (connects e.topic e.channel [])) [
          | inl (u, connected) ↦
              rw (found, connected, start_loop)
                (start_loop-IsUnaddressed bs es _ (
                  All-append IsUnaddressed log _ l (
                    All-append IsUnaddressed (opening connects [] e) _ (opening-IsUnaddressed e)
                      (repeat-IsUnaddressed _ e.topic e.channel))))
          | inr (x, failed) ↦
              rw (found, failed, start_loop)
                (All-append IsUnaddressed log _ l (opening-IsUnaddressed e))
        ]
      ]

  -- Whatever addresses a consumer was configured with, it hands none to its backends: the field
  -- that `Start` reads is set nowhere.
  pub Built-start : (c : Consumer H) → Built c → All IsUnaddressed (start connects c).0
  unfolding start
  Built-start c b = rw (Built-address b) (start_loop-IsUnaddressed c.backends c.handlers [] tt)
