-- ===== src/Randgen/Stopping.antt =====
-- What becomes of the goroutines of internal/pkg/randgen/randgen.go after `Stop`.
use go_project_example.Base.{
  ℕ, zero, suc, ◌≤◌, ◌<◌, true, false, List, [], ◌∷◌, ◌≡◌, refl, ap, ◌∙◌, arith, inl, inr,
  Bool-cases, if_cases, All, map, leb, ltb, length,
}
use go_project_example.Randgen.{
  Pc, checking, sending, ended, RandWorker, Generator, Event, work, take, stopping, crash, move,
  move_at, put_back, receive, stop, act, step, run, copies, started, new,
}
use go_project_example.Randgen.Closing.{turns, left, IsAlive, run-crashed, run_closed}

-- All goroutines, of which there are `n`, go on.
abbrev AreAlive : ℕ → List RandWorker → Type 0
AreAlive n ws = All IsAlive ws × (length ws ≡ n)

move-left : (draw : ℕ) (pc : Pc) (s : Generator) → 1 ≤ left pc → 1 ≤ left (move draw false pc s).1
unfolding move
move-left draw checking s h = ground (arith, Bool-cases (leb s.max s.min))
move-left draw (sending n) s h =
    ground (arith, Bool-cases s.closed, Bool-cases (ltb (length s.buffer) s.capacity))
move-left draw ended s h = absurd (omega (arith, h))

move_at-AreAlive :
    (i draw n : ℕ) (ws : List RandWorker) (s : Generator)
    → AreAlive n ws
    → AreAlive n (move_at i draw ws s).1
unfolding move_at
move_at-AreAlive i draw n [] s h = h
move_at-AreAlive zero draw n (w ∷ ws) s (((going, one), alive), same) =
    (((going, rw going (move-left draw w.pc s one)), alive), same)
move_at-AreAlive (suc i) draw n (w ∷ ws) s ((first, alive), same) =
    let (alive', same') = move_at-AreAlive i draw (length ws) ws s (alive, refl) in
    ((first, alive'), ap suc same' ∙ same)

put_back-AreAlive :
    (n : ℕ) (r : Generator × List RandWorker) → AreAlive n r.1 → AreAlive n (put_back r).workers
put_back-AreAlive n (s, ws) h = h

receive-AreAlive :
    (n : ℕ) (buffer : List ℕ) (s : Generator)
    → AreAlive n s.workers
    → AreAlive n (receive buffer s).workers
unfolding receive
receive-AreAlive n [] s h = elim (Bool-cases s.closed) [ inl c ↦ simp c h | inr o ↦ simp o h ]
receive-AreAlive n (x ∷ rest) s h = h

stop-AreAlive : (n : ℕ) (s : Generator) → AreAlive n s.workers → AreAlive n (stop s).workers
unfolding stop
stop-AreAlive n s h = elim (Bool-cases s.closed) [ inl c ↦ simp c h | inr o ↦ simp o h ]

act-AreAlive :
    (n : ℕ) (e : Event) (s : Generator) → AreAlive n s.workers → AreAlive n (act e s).workers
unfolding act
act-AreAlive n (work i draw) s h =
    put_back-AreAlive n (move_at i draw s.workers s) (move_at-AreAlive i draw n s.workers s h)
act-AreAlive n take s h = receive-AreAlive n s.buffer s h
act-AreAlive n stopping s h = stop-AreAlive n s h

run-AreAlive :
    (n : ℕ) (es : List Event) (s : Generator) → AreAlive n s.workers → AreAlive n (run es s).workers
unfolding run step
run-AreAlive n [] s h = h
run-AreAlive n (e ∷ es) s h = elim (Bool-cases s.crashed) [
  | inl crashed ↦ simp crashed (run-AreAlive n es s h)
  | inr going ↦ simp going (run-AreAlive n es (act e s) (act-AreAlive n e s h))
]

copies-AreAlive : (n : ℕ) → AreAlive n (copies n started)
copies-AreAlive zero = (tt, refl)
copies-AreAlive (suc n) =
    let (alive, same) = copies-AreAlive n in (((refl, omega arith), alive), ap suc same)

stop_then :
    (n i : ℕ) (after : List Event) (s : Generator)
    → i < n
    → 2 ≤ turns i after
    → AreAlive n s.workers
    → (run after (step stopping s)).crashed ≡ true
unfolding step act stop
stop_then n i after s h turned (alive, same) =
    if_cases (λ t. (run after t).crashed ≡ true) s.crashed s (act stopping s) (run-crashed after s)
      (λ going.
        if_cases (λ t. (run after t).crashed ≡ true) s.closed (crash s)
          (record s { kept = map (λ stopped. true) s.kept; closed = true })
          (λ closed. run-crashed after (crash s) refl)
          (λ opened.
            run_closed i after (record s { kept = map (λ stopped. true) s.kept; closed = true })
              refl alive (omega (arith, h, same)) turned))

-- After `Stop`, whatever went before, the process panics as soon as some goroutine has gone on twice:
-- none of them sees the stop, and each sends on the closed channel.
pub run-stop :
    (workers min max i : ℕ) (before after : List Event)
    → i < workers
    → 2 ≤ turns i after
    → (run after (step stopping (run before (new workers min max)))).crashed ≡ true
unfolding new
run-stop workers min max i before after h turned =
    stop_then workers i after (run before (new workers min max)) h turned
      (run-AreAlive workers before (new workers min max) (copies-AreAlive workers))
