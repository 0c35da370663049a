-- ===== src/Nsq/Handler/Throttling.antt =====
-- internal/pkg/nsq/handler.go with one goroutine: the throttle flag and `MaxInFlight`.
use go_project_example.Base.{
  ℕ, zero, suc, ◌/◌, Bool, true, false, List, [], ◌∷◌, ◌≡◌, refl, ap, none, some, arith, ltb, ◌==◌,
  length, if◌then◌else◌, get_elem?,
}
use go_project_example.Nsq.Handler.{
  Pc, idle, checking, throttling, pausing, waiting, resuming, releasing, sending, System, Event,
  deliver, proceed, start_worker, receive, hand_over, finish, stop_worker, step, run, proceed_at,
  deliver_at, meet, pc_of, at_pc,
}

-- Whether the flag is set while the goroutine stands at a place.
abbrev pub is_throttled : Pc → Bool
is_throttled (pausing m) = true
is_throttled (waiting m) = true
is_throttled (resuming m) = true
is_throttled (releasing m) = true
is_throttled _ = false

-- The `MaxInFlight` while the goroutine stands at a place.
abbrev pub in_flight_limit : ℕ → Pc → ℕ
in_flight_limit n (waiting m) = 0
in_flight_limit n (resuming m) = 0
in_flight_limit n _ = n

pub record IsThrottled (s : System) : Type 0 where
  pub pc : Pc
  pub alone : s.pcs ≡ pc ∷ []
  pub flagged : s.throttle ≡ is_throttled pc
  pub limited : s.max_in_flight ≡ in_flight_limit s.buff_length pc

proceed_at-IsThrottled :
    (p : Pc) (s : System)
    → s.pcs ≡ p ∷ []
    → s.throttle ≡ is_throttled p
    → s.max_in_flight ≡ in_flight_limit s.buff_length p
    → IsThrottled (proceed_at 0 p s)
unfolding proceed_at
proceed_at-IsThrottled idle s a f l = record { pc = idle; alone = a; flagged = f; limited = l }
proceed_at-IsThrottled (checking m) s a f l = record {
  pc = if ltb (s.buff_length / 2) (length s.message_buff) then throttling m else sending m;
  alone = rw a;
  flagged = ground arith;
  limited = ground arith;
}
proceed_at-IsThrottled (throttling m) s a f l = record {
  pc = if s.locked then throttling m else pausing m;
  alone = ground arith;
  flagged = ground arith;
  limited = ground arith;
}
proceed_at-IsThrottled (pausing m) s a f l = record {
  pc = waiting m;
  alone = rw a;
  flagged = f;
  limited = refl;
}
proceed_at-IsThrottled (waiting m) s a f l = record {
  pc = if ltb (length s.message_buff) (s.buff_length / 2) then resuming m else waiting m;
  alone = rw a;
  flagged = ground arith;
  limited = ground arith;
}
proceed_at-IsThrottled (resuming m) s a f l = record {
  pc = releasing m;
  alone = rw a;
  flagged = f;
  limited = refl;
}
proceed_at-IsThrottled (releasing m) s a f l = record {
  pc = if s.locked then releasing m else sending m;
  alone = ground arith;
  flagged = ground arith;
  limited = ground arith;
}
proceed_at-IsThrottled (sending m) s a f l = record {
  pc = if ltb (length s.message_buff) s.buff_length then idle else sending m;
  alone = ground arith;
  flagged = ground arith;
  limited = ground arith;
}

deliver_at-IsThrottled :
    (p : Pc) (m : ℕ) (s : System)
    → s.pcs ≡ p ∷ []
    → s.throttle ≡ is_throttled p
    → s.max_in_flight ≡ in_flight_limit s.buff_length p
    → IsThrottled (deliver_at 0 p m s)
unfolding deliver_at
deliver_at-IsThrottled idle m s a f l = record {
  pc = checking m;
  alone = rw a;
  flagged = f;
  limited = l;
}
deliver_at-IsThrottled p m s a f l = record { pc = p; alone = a; flagged = f; limited = l }

meet-IsThrottled :
    (p : Pc) (n : ℕ) (s : System)
    → s.pcs ≡ p ∷ []
    → s.throttle ≡ is_throttled p
    → s.max_in_flight ≡ in_flight_limit s.buff_length p
    → IsThrottled (meet 0 p n s)
unfolding meet
meet-IsThrottled (sending m) (suc n) s a f l = record {
  pc = if s.buff_length == 0 then idle else sending m;
  alone = ground arith;
  flagged = ground arith;
  limited = ground arith;
}
meet-IsThrottled p n s a f l = record { pc = p; alone = a; flagged = f; limited = l }

at-IsThrottled :
    (i : ℕ) (f : ℕ → Pc → System → System) (s : System) (v : IsThrottled s)
    → IsThrottled (f 0 v.pc s)
    → IsThrottled (at_pc (pc_of s i) (f i) s)
at-IsThrottled zero f s v kept =
    let e : pc_of s 0 ≡ some v.pc = ap (λ ps. get_elem? ps 0) v.alone in rw e kept
at-IsThrottled (suc i) f s v kept =
    let e : pc_of s (suc i) ≡ none = ap (λ ps. get_elem? ps (suc i)) v.alone in rw e v

step-IsThrottled : (s : System) (e : Event) → IsThrottled s → IsThrottled (step s e)
unfolding step
step-IsThrottled s (deliver i m) v =
    at-IsThrottled i (λ j p. deliver_at j p m) s v
      (deliver_at-IsThrottled v.pc m s v.alone v.flagged v.limited)
step-IsThrottled s (proceed i) v =
    at-IsThrottled i proceed_at s v (proceed_at-IsThrottled v.pc s v.alone v.flagged v.limited)
step-IsThrottled s (hand_over i) v =
    at-IsThrottled i (λ j p. meet j p s.selecting) s v
      (meet-IsThrottled v.pc s.selecting s v.alone v.flagged v.limited)
step-IsThrottled s start_worker v = record {
  pc = v.pc;
  alone = ground (arith, v.alone);
  flagged = ground (arith, v.flagged);
  limited = ground (arith, v.limited);
}
step-IsThrottled s receive v = record {
  pc = v.pc;
  alone = ground (arith, v.alone);
  flagged = ground (arith, v.flagged);
  limited = ground (arith, v.limited);
}
step-IsThrottled s finish v = record {
  pc = v.pc;
  alone = ground (arith, v.alone);
  flagged = ground (arith, v.flagged);
  limited = ground (arith, v.limited);
}
step-IsThrottled s stop_worker v = record {
  pc = v.pc;
  alone = ground (arith, v.alone);
  flagged = ground (arith, v.flagged);
  limited = ground (arith, v.limited);
}

-- With one goroutine, under every interleaving: the flag is set exactly while the goroutine stands
-- between the two `SetThrottle` calls, and `MaxInFlight` is 0 exactly between the two calls of
-- `ChangeMaxInFlight`, and the buffer length elsewhere.
pub run-IsThrottled : (s : System) (es : List Event) → IsThrottled s → IsThrottled (run s es)
unfolding run
run-IsThrottled s [] v = v
run-IsThrottled s (e ∷ es) v = run-IsThrottled (step s e) es (step-IsThrottled s e v)
