-- ===== src/Randgen/Bounds.antt =====
-- The numbers of internal/pkg/randgen/randgen.go.
use native.Mathlib.Nat.{mod-lt}
use go_project_example.Base.{
  ℕ, zero, suc, ◌-◌, ◌*◌, ◌≤◌, ◌<◌, Bool, true, false, List, [], ◌∷◌, ◌++◌, ◌≡◌, refl, arith, inl,
  inr, ◌⊎◌, if_cases, All, All-append, map, leb, ltb, length, length-append,
}
use go_project_example.Otp.{generate}
use go_project_example.Randgen.{
  Pc, checking, sending, ended, RandWorker, Generator, Event, work, take, stopping, crash,
  draw_next, send, move, move_at, put_back, receive, stop, act, step, run, copies, started, new,
}

module _ (min max : ℕ) where
  abbrev pub InRange : ℕ → Type 0
  InRange n = (min ≤ n) × (n < max)

  -- What a goroutine is about to send.
  abbrev Sends : Pc → Type 0
  Sends checking = Unit
  Sends (sending n) = InRange n
  Sends ended = Unit

  -- A number that `Generate` returned: the zeros come from a closed channel.
  abbrev pub IsGiven : Bool → ℕ → Type 0
  IsGiven closed n = InRange n ⊎ ((closed ≡ true) × (n ≡ 0))

  -- The bounds are the given ones, the buffer is no longer than its capacity, and all numbers are drawn
  -- within the bounds.
  abbrev pub IsBounded : ℕ → Generator → Type 0
  IsBounded c s =
      (s.min ≡ min)
      × (s.max ≡ max)
      × (s.capacity ≡ c)
      × (length s.buffer ≤ c)
      × All InRange s.buffer
      × All (IsGiven s.closed) s.given

  generate-InRange : (draw : ℕ) → min < max → InRange (generate min max draw)
  unfolding generate
  generate-InRange draw h =
      let below = mod-lt draw {m = max - min} (omega arith) in (omega arith, omega (arith, below))

  -- What a step leaves, with where the goroutine is then.
  abbrev Bounded : ℕ → Generator × Pc → Type 0
  Bounded c (s, pc) = IsBounded c s × Sends pc

  draw_next-Bounded :
      (draw : ℕ) (stopped : Bool) (c : ℕ) (s : Generator)
      → IsBounded c s
      → Bounded c (draw_next draw stopped s)
  unfolding draw_next
  draw_next-Bounded draw true c s h = (h, tt)
  draw_next-Bounded draw false c s h =
      let (least, most, capacity, fits, buffered, given) = h in
      if_cases (Bounded c) (leb s.max s.min) (crash s, checking)
        (s, sending (generate s.min s.max draw)) (λ empty. (h, tt))
        (λ room. (h, rw (least, most) (generate-InRange draw (ground arith))))

  send-Bounded : (n c : ℕ) (s : Generator) → IsBounded c s → InRange n → Bounded c (send n s)
  send-Bounded n c s h p =
      let (least, most, capacity, fits, buffered, given) = h in
      if_cases (Bounded c) s.closed (crash s, sending n) _ (λ closed. (h, p))
        (λ going.
          if_cases (Bounded c) (ltb (length s.buffer) s.capacity)
            (record s { buffer = s.buffer ++ n ∷ [] }, checking) (s, sending n)
            (λ room. (
              (
                least,
                most,
                capacity,
                ground (arith, length-append s.buffer (n ∷ [])),
                All-append InRange s.buffer (n ∷ []) buffered (p, tt),
                given,
              ),
              tt,
            ))
            (λ full. (h, p)))

  move-Bounded :
      (draw : ℕ) (stopped : Bool) (pc : Pc) (c : ℕ) (s : Generator)
      → IsBounded c s
      → Sends pc
      → Bounded c (move draw stopped pc s)
  unfolding move
  move-Bounded draw stopped checking c s h p = draw_next-Bounded draw stopped c s h
  move-Bounded draw stopped (sending n) c s h p = send-Bounded n c s h p
  move-Bounded draw stopped ended c s h p = (h, tt)

  abbrev AllSend : List RandWorker → Type 0
  AllSend ws = All (λ w. Sends w.pc) ws

  move_at-Bounded :
      (i draw c : ℕ) (ws : List RandWorker) (s : Generator)
      → IsBounded c s
      → AllSend ws
      → IsBounded c (move_at i draw ws s).0 × AllSend (move_at i draw ws s).1
  unfolding move_at
  move_at-Bounded i draw c [] s h a = (h, tt)
  move_at-Bounded zero draw c (w ∷ ws) s h (p, a) =
      let (h', p') = move-Bounded draw w.stopped w.pc c s h p in (h', (p', a))
  move_at-Bounded (suc i) draw c (w ∷ ws) s h (p, a) =
      let (h', a') = move_at-Bounded i draw c ws s h a in (h', (p, a'))

  abbrev Invariant : ℕ → Generator → Type 0
  Invariant c s = IsBounded c s × AllSend s.workers

  put_back-Invariant :
      (c : ℕ) (r : Generator × List RandWorker)
      → IsBounded c r.0
      → AllSend r.1
      → Invariant c (put_back r)
  put_back-Invariant c (s, ws) h a = (h, a)

  receive-Invariant :
      (c : ℕ) (buffer : List ℕ) (s : Generator)
      → s.buffer ≡ buffer
      → Invariant c s
      → Invariant c (receive buffer s)
  unfolding receive
  receive-Invariant c [] s same (h, a) =
      let (least, most, capacity, fits, buffered, given) = h in
      if_cases (Invariant c) s.closed (record s { given = s.given ++ 0 ∷ [] }) s
        (λ closed. (
          (
            least,
            most,
            capacity,
            fits,
            buffered,
            All-append (IsGiven s.closed) s.given (0 ∷ []) given (inr (closed, refl), tt),
          ),
          a,
        ))
        (λ opened. (h, a))
  receive-Invariant c (n ∷ rest) s same (h, a) =
      let (least, most, capacity, fits, buffered, given) = h in
      let (first, others) : All InRange (n ∷ rest) = rw same at buffered in
      let shorter : length rest ≤ c = omega (arith, rw same at fits) in
      (
        (
          least,
          most,
          capacity,
          shorter,
          others,
          All-append (IsGiven s.closed) s.given (n ∷ []) given (inl first, tt),
        ),
        a,
      )

  IsGiven-still : (b : Bool) (ns : List ℕ) → All (IsGiven b) ns → All (IsGiven true) ns
  IsGiven-still b [] h = tt
  IsGiven-still b (n ∷ ns) (inl within, h) = (inl within, IsGiven-still b ns h)
  IsGiven-still b (n ∷ ns) (inr (closed, none), h) = (inr (refl, none), IsGiven-still b ns h)

  act-Invariant : (c : ℕ) (e : Event) (s : Generator) → Invariant c s → Invariant c (act e s)
  unfolding act stop
  act-Invariant c (work i draw) s (h, a) =
      let (h', a') = move_at-Bounded i draw c s.workers s h a in
      put_back-Invariant c (move_at i draw s.workers s) h' a'
  act-Invariant c take s h = receive-Invariant c s.buffer s refl h
  act-Invariant c stopping s (h, a) =
      let (least, most, capacity, fits, buffered, given) = h in
      if_cases (Invariant c) s.closed (crash s)
        (record s { kept = map (λ stopped. true) s.kept; closed = true }) (λ closed. (h, a))
        (λ opened.
          ((least, most, capacity, fits, buffered, IsGiven-still s.closed s.given given), a))

  run-Invariant : (c : ℕ) (es : List Event) (s : Generator) → Invariant c s → Invariant c (run es s)
  unfolding run step
  run-Invariant c [] s h = h
  run-Invariant c (e ∷ es) s h =
      run-Invariant c es (step e s) (
        if_cases (Invariant c) s.crashed s (act e s) (λ crashed. h)
          (λ going. act-Invariant c e s h))

  copies-AllSend : (n : ℕ) → AllSend (copies n started)
  copies-AllSend zero = tt
  copies-AllSend (suc n) = (tt, copies-AllSend n)

-- Whatever the goroutines, the calls of `Generate` and those of `Stop` do in turn, the channel never
-- holds more than ten numbers for each worker, every number in it is at least the minimum and less than
-- the maximum, and so is every number that `Generate` returned, except for zeros from a channel that is
-- closed by then.
pub run-InRange :
    (workers min max : ℕ) (es : List Event)
    → let s = run es (new workers min max) in
      (length s.buffer ≤ workers * 10)
      × All (InRange min max) s.buffer
      × All (IsGiven min max s.closed) s.given
unfolding new
run-InRange workers min max es =
    let (h, a) =
      run-Invariant min max (workers * 10) es (new workers min max)
        ((refl, refl, refl, omega arith, tt, tt), copies-AllSend min max workers) in
    let (least, most, capacity, fits, buffered, given) = h in (fits, buffered, given)
