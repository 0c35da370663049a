-- ===== src/Nsq/Handler.antt =====
-- internal/pkg/nsq/handler.go: the buffer between the goroutines of the NSQ client, which run
-- `HandleMessage`, and the workers, which run `Work`, under every interleaving.
--
-- A goroutine stands at a statement of `HandleMessage`; an event lets it make that statement. A
-- statement that blocks (a full channel, a held mutex) leaves the system as it is.
pub mod Conservation
pub mod Order
pub mod Bounds
pub mod Throttling
pub mod Deadlocks
pub mod Draining
mod Tests
use go_project_example.Base.{
  ℕ, zero, suc, ◌+◌, ◌-◌, ◌/◌, Bool, true, false, List, [], ◌∷◌, ◌++◌, Option, none, some, ltb,
  ◌==◌, if◌then◌else◌, Bytes, length, get_elem?, set,
}
use go_project_example.Nsq.Message.{Info, zero_info, Message}

-- Where a goroutine stands in `HandleMessage`, and the message that it was given.
pub data Pc : Type 0 where
  -- between two calls
  idle : Pc
  -- `if len(dfh.messageBuff) > (dfh.buffLength / 2)`
  checking : ℕ → Pc
  -- `dfh.SetThrottle(true)`
  throttling : ℕ → Pc
  -- `dfh.consumerBackend.ChangeMaxInFlight(0)`
  pausing : ℕ → Pc
  -- `if len(dfh.messageBuff) < (dfh.buffLength / 2)`, after a second of sleep
  waiting : ℕ → Pc
  -- `dfh.consumerBackend.ChangeMaxInFlight(dfh.buffLength)`
  resuming : ℕ → Pc
  -- `dfh.SetThrottle(false)`
  releasing : ℕ → Pc
  -- `dfh.messageBuff <- &Message{...}`
  sending : ℕ → Pc

-- An `nsqHandler`, and the `MaxInFlight` of its backend.
pub record Handler : Type 0 where
  pub topic : Bytes
  pub channel : Bytes
  pub concurrency : ℕ
  pub buff_length : ℕ
  pub worker_number : ℕ
  pub message_buff : List Message
  pub throttle : Bool
  pub locked : Bool
  pub max_in_flight : ℕ

-- The handler among its goroutines. `selecting` workers wait in the `select`, `handling` workers
-- run the handler function. `delivered` and `handled` record what came in and what was taken out.
pub record System : Type 0 where
  pub handler : Handler
  pub open handler use *
  pub pcs : List Pc
  pub selecting : ℕ
  pub handling : ℕ
  pub delivered : List ℕ
  pub handled : List Message

pub data Event : Type 0 where
  -- the NSQ client calls `HandleMessage` on goroutine i with message m
  deliver : ℕ → ℕ → Event
  -- goroutine i makes its next statement
  proceed : ℕ → Event
  -- `go handler.Work()`
  start_worker : Event
  -- a worker takes a message from the buffer, or from a sender if there is no buffer
  receive : Event
  hand_over : ℕ → Event
  -- the handler function of a worker returns
  finish : Event
  -- `handler.Stop()` meets a worker in its `select`
  stop_worker : Event

abbrev pub to_message : Handler → ℕ → Message
to_message h m = record { topic = h.topic; channel = h.channel; message = m; info = zero_info }

abbrev pub goto : ℕ → Pc → System → System
goto i p s = record s { pcs = set s.pcs i p }

-- `SetThrottle`: the assignment waits for the mutex, and leaves it free.
unfoldable pub set_throttle : Bool → ℕ → Pc → System → System
set_throttle b i p s =
    if s.locked then s else goto i p (record s { handler = record (s.handler) { throttle = b } })

abbrev pub change_max_in_flight : ℕ → System → System
change_max_in_flight n s = record s { handler = record (s.handler) { max_in_flight = n } }

-- A send into a buffered channel waits while the buffer is full.
unfoldable pub send : ℕ → ℕ → System → System
send i m s =
    if ltb (length s.message_buff) s.buff_length
    then goto i idle (record s {
      handler = record (s.handler) { message_buff = s.message_buff ++ to_message s.handler m ∷ [] };
    })
    else s

-- The next statement of goroutine i, which stands at a given place.
unfoldable pub proceed_at : ℕ → Pc → System → System
unfolding set_throttle send
proceed_at i idle s = s
proceed_at i (checking m) s =
    goto i (if ltb (s.buff_length / 2) (length s.message_buff) then throttling m else sending m) s
proceed_at i (throttling m) s = set_throttle true i (pausing m) s
proceed_at i (pausing m) s = goto i (waiting m) (change_max_in_flight 0 s)
proceed_at i (waiting m) s =
    goto i (if ltb (length s.message_buff) (s.buff_length / 2) then resuming m else waiting m) s
proceed_at i (resuming m) s = goto i (releasing m) (change_max_in_flight s.buff_length s)
proceed_at i (releasing m) s = set_throttle false i (sending m) s
proceed_at i (sending m) s = send i m s

-- The client calls a goroutine that is between two calls.
unfoldable pub deliver_at : ℕ → Pc → ℕ → System → System
deliver_at i idle m s = goto i (checking m) (record s { delivered = s.delivered ++ m ∷ [] })
deliver_at i _ m s = s

-- The head of `Work`: the early return leaves the mutex held.
unfoldable pub begin_work : System → System
begin_work s =
    if s.locked
    then s
    else if s.worker_number == s.concurrency
    then record s { handler = record (s.handler) { locked = true } }
    else record s {
      handler = record (s.handler) { worker_number = suc s.worker_number };
      selecting = suc s.selecting;
    }

-- What a worker writes into the message that it took, with `rest` left in the buffer.
abbrev pub work_on : Handler → List Message → Message → Message
work_on h rest m = record m {
  info = record (m.info) {
    worker_total = h.concurrency;
    worker_current = h.worker_number;
    message_in_buffer = length rest;
    throttle_flag = if h.throttle then 1 else m.info.throttle_flag;
  };
}

unfoldable pub take_message : List Message → ℕ → System → System
take_message [] n s = s
take_message (m ∷ rest) zero s = s
take_message (m ∷ rest) (suc n) s = record s {
  handler = record (s.handler) { message_buff = rest };
  selecting = n;
  handling = suc s.handling;
  handled = s.handled ++ work_on s.handler rest m ∷ [];
}

-- With no buffer, a sender and a worker meet.
unfoldable pub meet : ℕ → Pc → ℕ → System → System
meet i (sending m) (suc n) s =
    if s.buff_length == 0
    then goto i idle (record s {
      selecting = n;
      handling = suc s.handling;
      handled = s.handled ++ work_on s.handler [] (to_message s.handler m) ∷ [];
    })
    else s
meet i _ _ s = s

unfoldable pub end_message : ℕ → System → System
end_message zero s = s
end_message (suc n) s = record s { handling = n; selecting = suc s.selecting }

-- `Stop` sends to `stopChan`, which a worker reads in its `select`; then the worker returns.
unfoldable pub end_work : ℕ → System → System
end_work zero s = s
end_work (suc n) s = record s {
  handler = record (s.handler) { worker_number = s.worker_number - 1 };
  selecting = n;
}

abbrev pub pc_of : System → ℕ → Option Pc
pc_of s i = get_elem? s.pcs i

-- `f` at the place of goroutine i, if there is such a goroutine.
abbrev pub at_pc : Option Pc → (Pc → System → System) → System → System
at_pc none f s = s
at_pc (some p) f s = f p s

unfoldable pub step : System → Event → System
unfolding proceed_at deliver_at begin_work take_message meet end_message end_work
step s (deliver i m) = at_pc (pc_of s i) (λ p. deliver_at i p m) s
step s (proceed i) = at_pc (pc_of s i) (proceed_at i) s
step s start_worker = begin_work s
step s receive = take_message s.message_buff s.selecting s
step s (hand_over i) = at_pc (pc_of s i) (λ p. meet i p s.selecting) s
step s finish = end_message s.handling s
step s stop_worker = end_work s.selecting s

unfoldable pub run : System → List Event → System
unfolding step
run s [] = s
run s (e ∷ es) = run (step s e) es
