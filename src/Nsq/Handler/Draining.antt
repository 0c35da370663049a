-- ===== src/Nsq/Handler/Draining.antt =====
-- internal/pkg/nsq/handler.go: a goroutine that waits for the buffer to drain.
use go_project_example.Base.{
  ℕ, suc, ◌≤◌, false, List, [], ◌∷◌, ◌++◌, ◌≡◌, refl, sym, ap, ◌∙◌, some, arith, get_elem?,
  append_assoc, append-nil,
}
use mathlib.Core.List.{map-append}
use go_project_example.Nsq.Message.{Message}
use go_project_example.Nsq.Handler.{
  Pc, idle, waiting, resuming, releasing, sending, System, Event, proceed, receive, finish, step,
  run, proceed_at, pc_of, goto, change_max_in_flight, to_message, work_on,
}
use go_project_example.Nsq.Handler.Conservation.{ids}
use go_project_example.Nsq.Handler.Deadlocks.{get_elem?-set_same}

-- A worker takes one message after the other.
abbrev pub drain : List Message → List Event
drain [] = []
drain (m ∷ ms) = receive ∷ finish ∷ drain ms

abbrev pub proceeds : ℕ → List Event
proceeds i = proceed i ∷ proceed i ∷ proceed i ∷ proceed i ∷ []

run-append : (s : System) (es fs : List Event) → run s (es ++ fs) ≡ run (run s es) fs
unfolding run
run-append s [] fs = refl
run-append s (e ∷ es) fs = run-append (step s e) es fs

run-cons : (s : System) (e : Event) (es : List Event) → run s (e ∷ es) ≡ run (step s e) es
unfolding run
run-cons s e es = refl

run-nil : (s : System) → run s [] ≡ s
unfolding run
run-nil s = refl

record Drained (ms : List Message) (s t : System) : Type 0 where
  pcs : t.pcs ≡ s.pcs
  empty : t.message_buff ≡ []
  locked : t.locked ≡ s.locked
  buff_length : t.buff_length ≡ s.buff_length
  handled : ids t.handled ≡ ids s.handled ++ ids ms

-- A worker has taken a message, and its handler function has returned.
abbrev taken : Message → List Message → System → System
taken m ms s = record s {
  handler = record (s.handler) { message_buff = ms };
  handled = s.handled ++ work_on s.handler ms m ∷ [];
}

step-taken :
    (m : Message) (ms : List Message) (n : ℕ) (s : System)
    → s.message_buff ≡ m ∷ ms
    → s.selecting ≡ suc n
    → step (step s receive) finish ≡ taken m ms s
unfolding step
step-taken m ms n s e w = ground arith

ids-append : (xs ys : List Message) → ids (xs ++ ys) ≡ ids xs ++ ids ys
ids-append xs ys = rw map-append

run-drain :
    (ms : List Message) (n : ℕ) (s : System)
    → s.message_buff ≡ ms
    → s.selecting ≡ suc n
    → Drained ms s (run s (drain ms))
run-drain [] n s e w = rw run-nil (record {
  pcs = refl;
  empty = e;
  locked = refl;
  buff_length = refl;
  handled = sym (append-nil (ids s.handled));
})
run-drain (m ∷ ms) n s e w =
    let d = run-drain ms n (taken m ms s) refl w in
    rw (run-cons, run-cons, step-taken m ms n s e w)
      (record {
        pcs = d.pcs;
        empty = d.empty;
        locked = d.locked;
        buff_length = d.buff_length;
        handled =
            d.handled
            ∙ ap (λ xs. xs ++ ids ms) (ids-append s.handled (work_on s.handler ms m ∷ []))
            ∙ append_assoc (ids s.handled) (m.message ∷ []) (ids ms);
      })

step-proceed :
    (i : ℕ) (p : Pc) (s : System) → pc_of s i ≡ some p → step s (proceed i) ≡ proceed_at i p s
unfolding step
step-proceed i p s h = rw h

module _ (i m : ℕ) where
  -- The states of the goroutine's four statements.
  abbrev resumed : System → System
  resumed s = goto i (resuming m) s

  abbrev released : System → System
  released s = goto i (releasing m) (change_max_in_flight s.buff_length (resumed s))

  abbrev unthrottled : System → System
  unthrottled s =
      let t : System = released s in
      goto i (sending m) (record t { handler = record (t.handler) { throttle = false } })

  abbrev sent : System → System
  sent s =
      let t : System = unthrottled s in
      goto i idle
        (record t { handler = record (t.handler) { message_buff = to_message t.handler m ∷ [] } })

  module _ (s : System) (h : pc_of s i ≡ some (waiting m)) where
    to_resumed : s.message_buff ≡ [] → 2 ≤ s.buff_length → step s (proceed i) ≡ resumed s
    to_resumed e b = step-proceed i (waiting m) s h ∙ (unfold proceed_at in ground arith)

    at_resumed : pc_of (resumed s) i ≡ some (resuming m)
    at_resumed = get_elem?-set_same s.pcs i (waiting m) (resuming m) h

    to_released : step (resumed s) (proceed i) ≡ released s
    to_released = step-proceed i (resuming m) (resumed s) at_resumed ∙ (unfold proceed_at in refl)

    at_released : pc_of (released s) i ≡ some (releasing m)
    at_released = get_elem?-set_same (resumed s).pcs i (resuming m) (releasing m) at_resumed

    to_unthrottled : s.locked ≡ false → step (released s) (proceed i) ≡ unthrottled s
    to_unthrottled l =
        step-proceed i (releasing m) (released s) at_released ∙ (unfold proceed_at in ground arith)

    at_unthrottled : pc_of (unthrottled s) i ≡ some (sending m)
    at_unthrottled = get_elem?-set_same (released s).pcs i (releasing m) (sending m) at_released

    to_sent : s.message_buff ≡ [] → 2 ≤ s.buff_length → step (unthrottled s) (proceed i) ≡ sent s
    to_sent e b =
        step-proceed i (sending m) (unthrottled s) at_unthrottled
        ∙ (unfold proceed_at in ground arith)

    at_sent : pc_of (sent s) i ≡ some idle
    at_sent = get_elem?-set_same (unthrottled s).pcs i (sending m) idle at_unthrottled

    -- The goroutine looks, resumes the client, takes the flag back and sends.
    run-proceeds :
        s.message_buff ≡ [] → s.locked ≡ false → 2 ≤ s.buff_length → run s (proceeds i) ≡ sent s
    run-proceeds e l b = rw (
      run-cons s,
      to_resumed e b,
      run-cons (resumed s),
      to_released,
      run-cons (released s),
      to_unthrottled l,
      run-cons (unthrottled s),
      to_sent e b,
      run-nil,
    )

-- A goroutine that waits, with the mutex free, at least one worker in its `select` and a buffer of
-- two messages or more: when the workers have taken what was buffered, four more statements of the
-- goroutine put its message into the buffer, clear the flag and restore `MaxInFlight`, and the
-- workers have handled the buffered messages in order.
pub run-drain-proceeds :
    (i m n : ℕ) (s : System)
    → pc_of s i ≡ some (waiting m)
    → s.locked ≡ false
    → s.selecting ≡ suc n
    → 2 ≤ s.buff_length
    → let t = run s (drain s.message_buff ++ proceeds i) in
      (pc_of t i ≡ some idle)
      × (ids t.message_buff ≡ m ∷ [])
      × (t.throttle ≡ false)
      × (t.max_in_flight ≡ s.buff_length)
      × (ids t.handled ≡ ids s.handled ++ ids s.message_buff)
run-drain-proceeds i m n s h l w b =
    let d = run-drain s.message_buff n s refl w in
    let t : System = run s (drain s.message_buff) in
    let at_t : pc_of t i ≡ some (waiting m) = ap (λ ps. get_elem? ps i) d.pcs ∙ h in
    let p : run t (proceeds i) ≡ sent i m t =
      run-proceeds i m t at_t d.empty (d.locked ∙ l) (omega (arith, d.buff_length)) in
    rw (run-append s (drain s.message_buff) (proceeds i), p)
      (at_sent i m t at_t, refl, refl, d.buff_length, d.handled)
