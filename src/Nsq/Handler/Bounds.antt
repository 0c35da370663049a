-- ===== src/Nsq/Handler/Bounds.antt =====
-- internal/pkg/nsq/handler.go: the length of the buffer and the number of workers.
use go_project_example.Base.{
  ℕ, ◌+◌, ◌≤◌, [], ◌∷◌, ◌≡◌, arith, length, length-append, Option-cases, inl, inr,
}
use go_project_example.Nsq.Handler.{
  Pc, sending, System, Event, deliver, proceed, start_worker, receive, hand_over, finish,
  stop_worker, step, proceed_at, pc_of, to_message,
}

-- The buffer is within its length, no worker is lost from the count, and no more run than the
-- concurrency allows.
pub record IsBounded (s : System) : Type 0 where
  pub buffered : length s.message_buff ≤ s.buff_length
  pub counted : s.selecting + s.handling ≡ s.worker_number
  pub allowed : s.worker_number ≤ s.concurrency

proceed_at-IsBounded : (i : ℕ) (p : Pc) (s : System) → IsBounded s → IsBounded (proceed_at i p s)
unfolding proceed_at
proceed_at-IsBounded i (sending m) s b =
    ground (arith, length-append s.message_buff (to_message s.handler m ∷ []))
proceed_at-IsBounded i _ s b = ground arith

pub step-IsBounded : (s : System) (e : Event) → IsBounded s → IsBounded (step s e)
unfolding step
step-IsBounded s (deliver i m) b = ground arith
step-IsBounded s (proceed i) b = elim (Option-cases (pc_of s i)) [
  | inl e ↦ rw e b
  | inr (p, e) ↦ rw e (proceed_at-IsBounded i p s b)
]
step-IsBounded s start_worker b = ground arith
step-IsBounded s receive b = ground arith
step-IsBounded s (hand_over i) b = ground arith
step-IsBounded s finish b = ground arith
step-IsBounded s stop_worker b = ground arith
