-- ===== src/Nsq/Handler/Conservation.antt =====
-- internal/pkg/nsq/handler.go: where a message is between the NSQ client and the workers.
use go_project_example.Base.{
  ℕ, zero, suc, ◌+◌, List, [], ◌∷◌, ◌++◌, ◌≡◌, refl, some, arith, set, get_elem?, map, ◌==◌,
  if◌then◌else◌, Option-cases, inl, inr,
}
use mathlib.Core.List.{map-append}
use go_project_example.Nsq.Message.{Message}
use go_project_example.Nsq.Handler.{
  Pc, idle, checking, throttling, pausing, waiting, resuming, releasing, sending, System, Event,
  deliver, proceed, start_worker, receive, hand_over, finish, stop_worker, step, run, proceed_at,
  deliver_at, meet, take_message, pc_of, to_message, work_on, at_pc,
}

-- The message that a goroutine holds.
abbrev pub pending : Pc → List ℕ
pending idle = []
pending (checking m) = m ∷ []
pending (throttling m) = m ∷ []
pending (pausing m) = m ∷ []
pending (waiting m) = m ∷ []
pending (resuming m) = m ∷ []
pending (releasing m) = m ∷ []
pending (sending m) = m ∷ []

abbrev pub in_flight : List Pc → List ℕ
in_flight [] = []
in_flight (p ∷ ps) = pending p ++ in_flight ps

abbrev pub ids : List Message → List ℕ
ids = map (λ m. m.message)

abbrev pub count : ℕ → List ℕ → ℕ
count k [] = 0
count k (x ∷ xs) = let n = count k xs in if x == k then suc n else n

count-append : (k : ℕ) (xs ys : List ℕ) → count k (xs ++ ys) ≡ count k xs + count k ys
count-append k [] ys = omega arith
count-append k (x ∷ xs) ys = ground (arith, count-append k xs ys)

count-set :
    (k : ℕ) (ps : List Pc) (i : ℕ) (p q : Pc)
    → get_elem? ps i ≡ some p
    → count k (in_flight (set ps i q)) + count k (pending p)
      ≡ count k (in_flight ps) + count k (pending q)
count-set k [] i p q h = cc
count-set k (x ∷ ps) zero p q h =
    ground (
      arith,
      count-append k (pending q) (in_flight ps),
      count-append k (pending x) (in_flight ps),
      h,
    )
count-set k (x ∷ ps) (suc i) p q h = omega (
  arith,
  count-append k (pending x) (in_flight (set ps i q)),
  count-append k (pending x) (in_flight ps),
  count-set k ps i p q h,
)

-- How often message k was handled, is buffered, and is held by a goroutine.
abbrev pub present : ℕ → System → ℕ
present k s = count k (ids s.handled) + count k (ids s.message_buff) + count k (in_flight s.pcs)

count-ids-append :
    (k : ℕ) (xs ys : List Message) → count k (ids (xs ++ ys)) ≡ count k (ids xs) + count k (ids ys)
count-ids-append k xs ys = rw map-append (count-append k (ids xs) (ids ys))

proceed_at-present :
    (k i : ℕ) (p : Pc) (s : System)
    → pc_of s i ≡ some p
    → (present k (proceed_at i p s) ≡ present k s) × ((proceed_at i p s).delivered ≡ s.delivered)
unfolding proceed_at
proceed_at-present k i idle s h = ground arith
proceed_at-present k i (checking m) s h = ground (
  arith,
  count-set k s.pcs i (checking m) (throttling m),
  count-set k s.pcs i (checking m) (sending m),
)
proceed_at-present k i (throttling m) s h =
    ground (arith, count-set k s.pcs i (throttling m) (pausing m))
proceed_at-present k i (pausing m) s h = ground (arith, count-set k s.pcs i (pausing m) (waiting m))
proceed_at-present k i (waiting m) s h = ground (
  arith,
  count-set k s.pcs i (waiting m) (resuming m),
  count-set k s.pcs i (waiting m) (waiting m),
)
proceed_at-present k i (resuming m) s h =
    ground (arith, count-set k s.pcs i (resuming m) (releasing m))
proceed_at-present k i (releasing m) s h =
    ground (arith, count-set k s.pcs i (releasing m) (sending m))
proceed_at-present k i (sending m) s h = ground (
  arith,
  count-set k s.pcs i (sending m) idle,
  count-ids-append k s.message_buff (to_message s.handler m ∷ []),
)

-- How often message k was delivered, above how often it is present; the events keep both equal.
abbrev IsConserved : ℕ → System → Type 0
IsConserved k s = present k s ≡ count k s.delivered

deliver_at-IsConserved :
    (k i : ℕ) (p : Pc) (m : ℕ) (s : System)
    → pc_of s i ≡ some p
    → IsConserved k s
    → IsConserved k (deliver_at i p m s)
unfolding deliver_at
deliver_at-IsConserved k i idle m s h c =
    ground (arith, count-set k s.pcs i idle (checking m), count-append k s.delivered (m ∷ []))
deliver_at-IsConserved k i _ m s h c = c

meet-IsConserved :
    (k i : ℕ) (p : Pc) (n : ℕ) (s : System)
    → pc_of s i ≡ some p
    → IsConserved k s
    → IsConserved k (meet i p n s)
unfolding meet
meet-IsConserved k i (sending m) (suc n) s h c = ground (
  arith,
  count-set k s.pcs i (sending m) idle,
  count-ids-append k s.handled (work_on s.handler [] (to_message s.handler m) ∷ []),
)
meet-IsConserved k i _ _ s h c = c

take_message-IsConserved :
    (k n : ℕ) (ms : List Message) (s : System)
    → s.message_buff ≡ ms
    → IsConserved k s
    → IsConserved k (take_message ms n s)
unfolding take_message
take_message-IsConserved k n [] s h c = c
take_message-IsConserved k zero (m ∷ rest) s h c = c
take_message-IsConserved k (suc n) (m ∷ rest) s h c =
    ground (arith, count-ids-append k s.handled (work_on s.handler rest m ∷ []))

at-IsConserved :
    (k i : ℕ) (f : Pc → System → System) (s : System)
    → ((p : Pc) → pc_of s i ≡ some p → IsConserved k (f p s))
    → IsConserved k s
    → IsConserved k (at_pc (pc_of s i) f s)
at-IsConserved k i f s each c = elim (Option-cases (pc_of s i)) [
  | inl e ↦ rw e c
  | inr (p, e) ↦ rw e (each p e)
]

step-IsConserved : (k : ℕ) (s : System) (e : Event) → IsConserved k s → IsConserved k (step s e)
unfolding step
step-IsConserved k s (deliver i m) c =
    at-IsConserved k i (λ p. deliver_at i p m) s (λ p e. deliver_at-IsConserved k i p m s e c) c
step-IsConserved k s (proceed i) c =
    at-IsConserved k i (proceed_at i) s (λ p e. ground (arith, proceed_at-present k i p s e)) c
step-IsConserved k s start_worker c = ground arith
step-IsConserved k s receive c = take_message-IsConserved k s.selecting s.message_buff s refl c
step-IsConserved k s (hand_over i) c =
    at-IsConserved k i (λ p. meet i p s.selecting) s
      (λ p e. meet-IsConserved k i p s.selecting s e c) c
step-IsConserved k s finish c = ground arith
step-IsConserved k s stop_worker c = ground arith

-- Under every interleaving of any number of goroutines and workers, each message has been handled,
-- is in the buffer or is held by a goroutine as often as it was delivered, if that is so at first.
pub run-present :
    (k : ℕ) (s : System) (es : List Event)
    → present k s ≡ count k s.delivered
    → present k (run s es) ≡ count k (run s es).delivered
unfolding run
run-present k s [] c = c
run-present k s (e ∷ es) c = run-present k (step s e) es (step-IsConserved k s e c)
