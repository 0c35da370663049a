-- ===== src/Randgen/Closing.antt =====
-- The goroutines of internal/pkg/randgen/randgen.go on a closed channel.
use go_project_example.Base.{
  ℕ, zero, suc, ◌+◌, ◌-◌, ◌≤◌, ◌<◌, true, false, List, [], ◌∷◌, ◌≡◌, refl, ◌∙◌, arith, ◌==◌, inl,
  inr, ◌⊎◌, ap, Bool-cases, All, leb, if◌then◌else◌, length,
}
use go_project_example.Randgen.{
  Pc, checking, sending, ended, RandWorker, Generator, Event, work, take, stopping, move, move_at,
  put_back, receive, stop, act, step, run,
}

-- The turns that an event gives to the goroutine with the number.
abbrev taken : ℕ → Event → ℕ
taken j (work i draw) = if i == j then 1 else 0
taken j take = 0
taken j stopping = 0

-- How often the goroutine goes on.
abbrev pub turns : ℕ → List Event → ℕ
turns j [] = 0
turns j (e ∷ es) = taken j e + turns j es

-- The steps that are left on a closed channel, at most.
abbrev pub left : Pc → ℕ
left checking = 2
left (sending n) = 1
left ended = 0

-- A goroutine that has not ended and does not see a stop.
abbrev pub IsAlive : RandWorker → Type 0
IsAlive w = (w.stopped ≡ false) × (1 ≤ left w.pc)

abbrev left_at : ℕ → List RandWorker → ℕ
left_at i [] = 0
left_at zero (w ∷ ws) = left w.pc
left_at (suc i) (w ∷ ws) = left_at i ws

-- What a step on a closed channel leaves of a goroutine: fewer steps, or a panic.
abbrev Advanced : Pc → Generator × Pc → Type 0
Advanced pc (s, pc') =
    (s.crashed ≡ true) ⊎ ((s.closed ≡ true) × (1 ≤ left pc') × (left pc' + 1 ≤ left pc))

move-Advanced :
    (draw : ℕ) (pc : Pc) (s : Generator)
    → s.closed ≡ true
    → 1 ≤ left pc
    → Advanced pc (move draw false pc s)
unfolding move
move-Advanced draw checking s h l = elim (Bool-cases (leb s.max s.min)) [
  | inl empty ↦ rw empty (inl refl)
  | inr room ↦ rw room (inr (h, omega arith, omega arith))
]
move-Advanced draw (sending n) s h l = rw h (inl refl)
move-Advanced draw ended s h l = absurd (omega (arith, l))

-- The same of all goroutines, of which the one with the number `j` is looked at.
abbrev Left : ℕ → ℕ → List RandWorker → Generator × List RandWorker → Type 0
Left j taken ws (s, ws') =
    (s.crashed ≡ true)
    ⊎ ((s.closed ≡ true)
        × All IsAlive ws'
        × (length ws' ≡ length ws)
        × (left_at j ws' ≤ left_at j ws - taken))

move_first-Left :
    (j : ℕ) (w : RandWorker) (ws : List RandWorker) (r : Generator × Pc)
    → w.stopped ≡ false
    → All IsAlive ws
    → Advanced w.pc r
    → Left j (if 0 == j then 1 else 0) (w ∷ ws) (r.0, record w { pc = r.1 } ∷ ws)
move_first-Left j w ws r going alive (inl crashed) = inl crashed
move_first-Left zero w ws r going alive (inr (closed, one, fewer)) =
    inr (closed, ((going, one), alive), refl, omega (arith, fewer))
move_first-Left (suc j) w ws r going alive (inr (closed, one, fewer)) =
    inr (closed, ((going, one), alive), refl, ground arith)

passed_first-Left :
    (j taken : ℕ) (w : RandWorker) (ws : List RandWorker) (r : Generator × List RandWorker)
    → IsAlive w
    → Left j taken ws r
    → Left 0 0 (w ∷ ws) (r.0, w ∷ r.1)
passed_first-Left j taken w ws r first (inl crashed) = inl crashed
passed_first-Left j taken w ws r first (inr (closed, alive, same, fewer)) =
    inr (closed, (first, alive), ap suc same, omega arith)

passed_next-Left :
    (j taken : ℕ) (w : RandWorker) (ws : List RandWorker) (r : Generator × List RandWorker)
    → IsAlive w
    → Left j taken ws r
    → Left (suc j) taken (w ∷ ws) (r.0, w ∷ r.1)
passed_next-Left j taken w ws r first (inl crashed) = inl crashed
passed_next-Left j taken w ws r first (inr (closed, alive, same, fewer)) =
    inr (closed, (first, alive), ap suc same, fewer)

move_at-Left :
    (i j draw : ℕ) (ws : List RandWorker) (s : Generator)
    → s.closed ≡ true
    → All IsAlive ws
    → Left j (if i == j then 1 else 0) ws (move_at i draw ws s)
unfolding move_at
move_at-Left i j draw [] s h alive = inr (h, tt, refl, omega arith)
move_at-Left zero j draw (w ∷ ws) s h ((going, one), alive) =
    move_first-Left j w ws (move draw w.stopped w.pc s) going alive
      (rw going (move-Advanced draw w.pc s h one))
move_at-Left (suc i) zero draw (w ∷ ws) s h (first, alive) =
    let other : (suc i == 0) ≡ false = ground arith in
    rw other (
      passed_first-Left i (if i == i then 1 else 0) w ws (move_at i draw ws s) first
        (move_at-Left i i draw ws s h alive))
move_at-Left (suc i) (suc j) draw (w ∷ ws) s h (first, alive) =
    let same : (suc i == suc j) ≡ (i == j) = ground arith in
    rw same (
      passed_next-Left j (if i == j then 1 else 0) w ws (move_at i draw ws s) first
        (move_at-Left i j draw ws s h alive))

put_back-Left :
    (j t : ℕ) (ws : List RandWorker) (r : Generator × List RandWorker)
    → Left j t ws r
    → Left j t ws (put_back r, (put_back r).workers)
put_back-Left j t ws r (inl crashed) = inl crashed
put_back-Left j t ws r (inr kept) = inr kept

receive-Left :
    (j : ℕ) (buffer : List ℕ) (s : Generator)
    → s.closed ≡ true
    → All IsAlive s.workers
    → Left j 0 s.workers (receive buffer s, (receive buffer s).workers)
unfolding receive
receive-Left j [] s h alive = rw h (inr (refl, alive, refl, omega arith))
receive-Left j (n ∷ rest) s h alive = inr (h, alive, refl, omega arith)

-- A step, once the channel is closed and if nothing crashed.
act-Left :
    (j : ℕ) (e : Event) (s : Generator)
    → s.closed ≡ true
    → All IsAlive s.workers
    → Left j (taken j e) s.workers (act e s, (act e s).workers)
unfolding act stop
act-Left j (work i draw) s h alive =
    put_back-Left j (if i == j then 1 else 0) s.workers (move_at i draw s.workers s)
      (move_at-Left i j draw s.workers s h alive)
act-Left j take s h alive = receive-Left j s.buffer s h alive
act-Left j stopping s h alive = rw h (inl refl)

pub run-crashed : (es : List Event) (s : Generator) → s.crashed ≡ true → (run es s).crashed ≡ true
unfolding run step
run-crashed [] s h = h
run-crashed (e ∷ es) s h = simp h (run-crashed es s h)

run-Left :
    (j : ℕ) (es : List Event) (s : Generator)
    → s.closed ≡ true
    → All IsAlive s.workers
    → Left j (turns j es) s.workers (run es s, (run es s).workers)
unfolding run step
run-Left j [] s h alive = inr (h, alive, refl, omega arith)
run-Left j (e ∷ es) s h alive = elim (Bool-cases s.crashed) [
  | inl crashed ↦ inl (simp crashed (run-crashed es s crashed))
  | inr going ↦ simp going (elim (act-Left j e s h alive) [
    | inl crashed ↦ inl (run-crashed es (act e s) crashed)
    | inr (closed, rest, same, fewer) ↦ elim (run-Left j es (act e s) closed rest) [
      | inl crashed ↦ inl crashed
      | inr (closed', rest', same', fewer') ↦
          inr (closed', rest', same' ∙ same, omega (arith, fewer, fewer'))
    ]
  ])
]

IsAlive-left_at : (j : ℕ) (ws : List RandWorker) → All IsAlive ws → j < length ws → 1 ≤ left_at j ws
IsAlive-left_at j [] alive h = absurd (omega (arith, h))
IsAlive-left_at zero (w ∷ ws) ((going, one), alive) h = one
IsAlive-left_at (suc j) (w ∷ ws) (first, alive) h = IsAlive-left_at j ws alive (omega (arith, h))

left_two : (pc : Pc) → left pc ≤ 2
left_two checking = omega arith
left_two (sending n) = omega arith
left_two ended = omega arith

left_at_two : (j : ℕ) (ws : List RandWorker) → left_at j ws ≤ 2
left_at_two j [] = omega arith
left_at_two zero (w ∷ ws) = left_two w.pc
left_at_two (suc j) (w ∷ ws) = left_at_two j ws

-- On a closed channel a goroutine panics within two turns.
pub run_closed :
    (j : ℕ) (es : List Event) (s : Generator)
    → s.closed ≡ true
    → All IsAlive s.workers
    → j < length s.workers
    → 2 ≤ turns j es
    → (run es s).crashed ≡ true
run_closed j es s h alive there turned = elim (run-Left j es s h alive) [
  | inl crashed ↦ crashed
  | inr (closed, rest, same, fewer) ↦ absurd (
      omega (
        arith,
        fewer,
        turned,
        left_at_two j s.workers,
        IsAlive-left_at j (run es s).workers rest (omega (arith, same, there)),
      ))
]
