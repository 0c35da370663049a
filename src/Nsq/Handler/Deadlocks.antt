-- ===== src/Nsq/Handler/Deadlocks.antt =====
-- internal/pkg/nsq/handler.go: the mutex after a worker too many, and the wait of a throttled goroutine.
use go_project_example.Base.{
  ℕ, zero, suc, ◌<◌, true, false, List, [], ◌∷◌, ◌≡◌, ◌≢◌, refl, ap, ◌∙◌, some, arith, set, inl,
  inr, get_elem?, Option-cases,
}
use native.Mathlib.Decide.{ℕ_discrete}
use go_project_example.Nsq.Handler.{
  Pc, idle, checking, throttling, pausing, waiting, resuming, releasing, sending, System, Event,
  deliver, proceed, start_worker, receive, hand_over, finish, stop_worker, step, run, proceed_at,
  deliver_at, meet, pc_of, at_pc,
}

-- The mutex is held by a `Work` that has returned.
step-locked :
    (s : System) (e : Event)
    → s.locked ≡ true
    → ((step s e).locked ≡ true) × ((step s e).throttle ≡ s.throttle)
unfolding step
step-locked s (deliver i m) h = ground arith
step-locked s (proceed i) h = ground arith
step-locked s start_worker h = ground arith
step-locked s receive h = ground arith
step-locked s (hand_over i) h = ground arith
step-locked s finish h = ground arith
step-locked s stop_worker h = ground arith

run-locked :
    (s : System) (es : List Event)
    → s.locked ≡ true
    → ((run s es).locked ≡ true) × ((run s es).throttle ≡ s.throttle)
unfolding run
run-locked s [] h = (h, refl)
run-locked s (e ∷ es) h =
    let (l, t) = step-locked s e h in let (l', t') = run-locked (step s e) es l in (l', t' ∙ t)

-- One `Work` more than the concurrency allows returns with the mutex held: from then on, under
-- every interleaving, the mutex stays held and the throttle flag keeps its value.
pub run-start_worker_full :
    (s : System) (es : List Event)
    → s.worker_number ≡ s.concurrency
    → s.locked ≡ false
    → let t = run (step s start_worker) es in (t.locked ≡ true) × (t.throttle ≡ s.throttle)
run-start_worker_full s es full free =
    let full_lock : (step s start_worker).locked ≡ true = unfold step in ground arith in
    let same : (step s start_worker).throttle ≡ s.throttle = unfold step in ground arith in
    let (l, t) = run-locked (step s start_worker) es full_lock in (l, t ∙ same)

-- A goroutine waits, and the half of the buffer is no message.
abbrev IsStuck : ℕ → ℕ → System → Type 0
IsStuck i m s = (pc_of s i ≡ some (waiting m)) × (s.buff_length < 2)

get_elem?-set_other :
    (ps : List Pc) (i j : ℕ) (p q : Pc)
    → get_elem? ps i ≡ some p
    → i ≢ j
    → get_elem? (set ps j q) i ≡ some p
get_elem?-set_other [] i j p q h n = cc
get_elem?-set_other (x ∷ ps) zero zero p q h n = absurd (n refl)
get_elem?-set_other (x ∷ ps) zero (suc j) p q h n = h
get_elem?-set_other (x ∷ ps) (suc i) zero p q h n = h
get_elem?-set_other (x ∷ ps) (suc i) (suc j) p q h n =
    get_elem?-set_other ps i j p q h (λ e. n (ap suc e))

pub get_elem?-set_same :
    (ps : List Pc) (i : ℕ) (p q : Pc) → get_elem? ps i ≡ some p → get_elem? (set ps i q) i ≡ some q
get_elem?-set_same [] i p q h = cc
get_elem?-set_same (x ∷ ps) zero p q h = refl
get_elem?-set_same (x ∷ ps) (suc i) p q h = get_elem?-set_same ps i p q h

proceed_length : (j : ℕ) (p : Pc) (s : System) → (proceed_at j p s).buff_length ≡ s.buff_length
unfolding proceed_at
proceed_length j p s = ground arith

module _ (i m j : ℕ) where
  -- The statement of another goroutine.
  proceed_other :
      (p : Pc) (s : System)
      → i ≢ j
      → pc_of s i ≡ some (waiting m)
      → pc_of (proceed_at j p s) i ≡ some (waiting m)
  unfolding proceed_at
  proceed_other idle s n h = h
  proceed_other (checking k) s n h = get_elem?-set_other s.pcs i j (waiting m) _ h n
  proceed_other (throttling k) s n h =
      ground (arith, get_elem?-set_other s.pcs i j (waiting m) (pausing k) h n)
  proceed_other (pausing k) s n h = get_elem?-set_other s.pcs i j (waiting m) _ h n
  proceed_other (waiting k) s n h = get_elem?-set_other s.pcs i j (waiting m) _ h n
  proceed_other (resuming k) s n h = get_elem?-set_other s.pcs i j (waiting m) _ h n
  proceed_other (releasing k) s n h =
      ground (arith, get_elem?-set_other s.pcs i j (waiting m) (sending k) h n)
  proceed_other (sending k) s n h =
      ground (arith, get_elem?-set_other s.pcs i j (waiting m) idle h n)

  -- The waiting goroutine looks again, and waits on.
  proceed_self :
      (s : System) → IsStuck i m s → pc_of (proceed_at i (waiting m) s) i ≡ some (waiting m)
  unfolding proceed_at
  proceed_self s k = ground (arith, get_elem?-set_same s.pcs i (waiting m) (waiting m) k.0)

  proceed_at-IsStuck :
      (p : Pc) (s : System) → pc_of s j ≡ some p → IsStuck i m s → IsStuck i m (proceed_at j p s)
  proceed_at-IsStuck p s h k = elim (ℕ_discrete i j) [
    | yes e ↦
        let q : p ≡ waiting m = cc in
        rw (q, ← e) (proceed_self s k, rw (proceed_length i (waiting m) s) k.1)
    | no n ↦ (proceed_other p s n k.0, rw (proceed_length j p s) k.1)
  ]

  deliver_at-IsStuck :
      (p : Pc) (n : ℕ) (s : System)
      → pc_of s j ≡ some p
      → IsStuck i m s
      → IsStuck i m (deliver_at j p n s)
  unfolding deliver_at
  deliver_at-IsStuck idle n s h k = elim (ℕ_discrete i j) [
    | yes e ↦ let q : idle ≡ waiting m = cc in cc
    | no d ↦ (get_elem?-set_other s.pcs i j (waiting m) _ k.0 d, k.1)
  ]
  deliver_at-IsStuck p n s h k = k

  meet-IsStuck :
      (p : Pc) (n : ℕ) (s : System)
      → pc_of s j ≡ some p
      → IsStuck i m s
      → IsStuck i m (meet j p n s)
  unfolding meet
  meet-IsStuck (sending o) (suc n) s h k = elim (ℕ_discrete i j) [
    | yes e ↦ let q : sending o ≡ waiting m = cc in cc
    | no d ↦ ground (arith, get_elem?-set_other s.pcs i j (waiting m) idle k.0 d)
  ]
  meet-IsStuck p n s h k = k

  at-IsStuck :
      (f : Pc → System → System) (s : System)
      → ((p : Pc) → pc_of s j ≡ some p → IsStuck i m (f p s))
      → IsStuck i m s
      → IsStuck i m (at_pc (pc_of s j) f s)
  at-IsStuck f s each k = elim (Option-cases (pc_of s j)) [
    | inl e ↦ rw e k
    | inr (p, e) ↦ rw e (each p e)
  ]

step-IsStuck : (i m : ℕ) (s : System) (e : Event) → IsStuck i m s → IsStuck i m (step s e)
unfolding step
step-IsStuck i m s (deliver j n) k =
    at-IsStuck i m j (λ p. deliver_at j p n) s (λ p e. deliver_at-IsStuck i m j p n s e k) k
step-IsStuck i m s (proceed j) k =
    at-IsStuck i m j (proceed_at j) s (λ p e. proceed_at-IsStuck i m j p s e k) k
step-IsStuck i m s (hand_over j) k =
    at-IsStuck i m j (λ p. meet j p s.selecting) s (λ p e. meet-IsStuck i m j p s.selecting s e k) k
step-IsStuck i m s start_worker k = ground arith
step-IsStuck i m s receive k = ground arith
step-IsStuck i m s finish k = ground arith
step-IsStuck i m s stop_worker k = ground arith

-- With a buffer of at most one message, a goroutine that waits for the buffer to drain waits for
-- ever, under every interleaving: no length is below half of 1.
pub run-waiting :
    (i m : ℕ) (s : System) (es : List Event)
    → pc_of s i ≡ some (waiting m)
    → s.buff_length < 2
    → pc_of (run s es) i ≡ some (waiting m)
unfolding run
run-waiting i m s [] h b = h
run-waiting i m s (e ∷ es) h b =
    let k = step-IsStuck i m s e (h, b) in run-waiting i m (step s e) es k.0 k.1
