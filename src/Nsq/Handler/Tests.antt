-- ===== src/Nsq/Handler/Tests.antt =====
-- Schedules of one handler.
use go_project_example.Base.{ℕ, true, false, List, [], ◌∷◌, ◌++◌, ◌≡◌, refl, some, arith, codes}
use go_project_example.Nsq.Handler.{
  idle, waiting, Handler, System, Event, deliver, proceed, start_worker, receive, finish, step, run,
  to_message, pc_of,
}
use go_project_example.Nsq.Handler.Conservation.{present, count, ids, run-present}
use go_project_example.Nsq.Handler.Throttling.{IsThrottled, run-IsThrottled}
use go_project_example.Nsq.Handler.Deadlocks.{run-start_worker_full, run-waiting}
use go_project_example.Nsq.Handler.Draining.{drain, proceeds, run-drain-proceeds}

abbrev handler_of : ℕ → Handler
handler_of n = record {
  topic = codes "order";
  channel = codes "mail";
  concurrency = 1;
  buff_length = n;
  worker_number = 0;
  message_buff = [];
  throttle = false;
  locked = false;
  max_in_flight = n;
}

-- A handler with a buffer of n messages, one goroutine and no worker yet.
abbrev system : ℕ → System
system n = record {
  handler = handler_of n;
  pcs = idle ∷ [];
  selecting = 0;
  handling = 0;
  delivered = [];
  handled = [];
}

-- Three messages come in, and the goroutine starts to throttle at the third.
abbrev schedule : List Event
schedule =
    start_worker
    ∷ deliver 0 7
    ∷ proceed 0
    ∷ proceed 0
    ∷ deliver 0 8
    ∷ proceed 0
    ∷ proceed 0
    ∷ deliver 0 9
    ∷ proceed 0
    ∷ proceed 0
    ∷ receive
    ∷ finish
    ∷ []

schedule-run : ids (run (system 4) schedule).handled ≡ 7 ∷ []
unfolding run
schedule-run = refl

run-present_example :
    present 8 (run (system 4) schedule) ≡ count 8 (run (system 4) schedule).delivered
run-present_example = run-present 8 (system 4) schedule refl

run-IsThrottled_example : IsThrottled (run (system 4) schedule)
run-IsThrottled_example =
    run-IsThrottled (system 4) schedule
      (record { pc = idle; alone = refl; flagged = refl; limited = refl })

-- The handler is full with one worker.
abbrev full : System
full = record (system 4) { handler = record (handler_of 4) { worker_number = 1 }; selecting = 1 }

run-start_worker_full_example :
    let t = run (step full start_worker) schedule in (t.locked ≡ true) × (t.throttle ≡ false)
run-start_worker_full_example = run-start_worker_full full schedule refl refl

-- A goroutine waits with two messages in a buffer of n.
abbrev waits : ℕ → System
waits n = record full {
  handler = record (handler_of n) {
    worker_number = 1;
    throttle = true;
    max_in_flight = 0;
    message_buff = to_message (handler_of n) 7 ∷ to_message (handler_of n) 8 ∷ [];
  };
  pcs = waiting 9 ∷ [];
  delivered = 7 ∷ 8 ∷ 9 ∷ [];
}

run-waiting_example : pc_of (run (waits 1) schedule) 0 ≡ some (waiting 9)
run-waiting_example = run-waiting 0 9 (waits 1) schedule refl (omega arith)

-- A buffer of one message comes to this from the start.
one_message_waits :
    pc_of
      (run (system 1) (
        deliver 0 7 ∷ proceed 0 ∷ proceed 0 ∷ deliver 0 8 ∷ proceed 0 ∷ proceed 0 ∷ proceed 0 ∷ []))
      0
    ≡ some (waiting 8)
unfolding run
one_message_waits = refl

run-drain-proceeds_example :
    let t = run (waits 4) (drain (waits 4).message_buff ++ proceeds 0) in
    (pc_of t 0 ≡ some idle)
    × (ids t.message_buff ≡ 9 ∷ [])
    × (t.throttle ≡ false)
    × (t.max_in_flight ≡ 4)
    × (ids t.handled ≡ [] ++ 7 ∷ 8 ∷ [])
run-drain-proceeds_example = run-drain-proceeds 0 9 0 (waits 4) refl refl refl (omega arith)
