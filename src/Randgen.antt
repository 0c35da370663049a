-- ===== src/Randgen.antt =====
-- internal/pkg/randgen/randgen.go: numbers that goroutines draw and pass on through a channel.
--
-- The number of workers and the bounds are not negative. A step is a goroutine going on to its next
-- read of `stopped` or send, a call of `Generate`, or one of `Stop`; a step of what is blocked changes
-- nothing. After a panic, which ends the process, nothing changes any more.
pub mod Bounds
pub mod Closing
pub mod Stopping
mod Tests
use go_project_example.Base.{
  ℕ, zero, suc, ◌*◌, Bool, true, false, List, [], ◌∷◌, ◌++◌, map, leb, ltb, if◌then◌else◌, length,
}
use go_project_example.Otp.{generate}

-- Where a goroutine stands in the loop of `Work`.
pub data Pc : Type 0 where
  checking : Pc
  sending : ℕ → Pc
  ended : Pc

-- `RandWorker`, the one that its goroutine points to
pub record RandWorker : Type 0 where
  pub stopped : Bool
  pub pc : Pc

-- `Generator` with its channel and its goroutines; `kept` is the field `stopped` of each worker in the
-- slice `woker`, which holds copies; `given` is what the calls of `Generate` returned.
pub record Generator : Type 0 where
  pub min : ℕ
  pub max : ℕ
  pub capacity : ℕ
  pub workers : List RandWorker
  pub kept : List Bool
  pub buffer : List ℕ
  pub closed : Bool
  pub crashed : Bool
  pub given : List ℕ

abbrev pub crash : Generator → Generator
crash s = record s { crashed = true }

-- The test of `stopped`, and the number: `Intn` panics when its argument is not positive.
abbrev pub draw_next : ℕ → Bool → Generator → Generator × Pc
unfolding generate
draw_next draw stopped s =
    if stopped
    then (s, ended)
    else if leb s.max s.min
    then (crash s, checking)
    else (s, sending (generate s.min s.max draw))

-- The send, which panics on a closed channel and waits on a full one.
abbrev pub send : ℕ → Generator → Generator × Pc
send n s =
    if s.closed
    then (crash s, sending n)
    else if ltb (length s.buffer) s.capacity
    then (record s { buffer = s.buffer ++ n ∷ [] }, checking)
    else (s, sending n)

-- `Work`: one step of the goroutine, with what the source of random numbers gives next
unfoldable pub move : ℕ → Bool → Pc → Generator → Generator × Pc
unfolding generate
move draw stopped checking s = draw_next draw stopped s
move draw stopped (sending n) s = send n s
move draw stopped ended s = (s, ended)

-- A step of the goroutine with the given number, if there is one.
unfoldable pub move_at : ℕ → ℕ → List RandWorker → Generator → Generator × List RandWorker
unfolding move
move_at i draw [] s = (s, [])
move_at zero draw (w ∷ ws) s =
    let (s', pc) = move draw w.stopped w.pc s in (s', record w { pc = pc } ∷ ws)
move_at (suc i) draw (w ∷ ws) s = let (s', ws') = move_at i draw ws s in (s', w ∷ ws')

abbrev pub put_back : Generator × List RandWorker → Generator
put_back (s, ws) = record s { workers = ws }

-- `Generate`: a closed channel gives zeros once it is empty.
unfoldable pub receive : List ℕ → Generator → Generator
receive (n ∷ rest) s = record s { buffer = rest; given = s.given ++ n ∷ [] }
receive [] s = if s.closed then record s { given = s.given ++ 0 ∷ [] } else s

-- `Stop`: it writes to the slice, and closes the channel, which panics the second time.
unfoldable pub stop : Generator → Generator
stop s =
    if s.closed then crash s else record s { kept = map (λ stopped. true) s.kept; closed = true }

pub data Event : Type 0 where
  work : (worker draw : ℕ) → Event
  take : Event
  stopping : Event

unfoldable pub act : Event → Generator → Generator
unfolding move_at receive stop
act (work i draw) s = put_back (move_at i draw s.workers s)
act take s = receive s.buffer s
act stopping s = stop s

unfoldable pub step : Event → Generator → Generator
unfolding act
step e s = if s.crashed then s else act e s

unfoldable pub run : List Event → Generator → Generator
unfolding step
run [] s = s
run (e ∷ es) s = run es (step e s)

abbrev pub copies : {A : Type 0} → ℕ → A → List A
copies zero a = []
copies (suc n) a = a ∷ copies n a

abbrev pub started : RandWorker
started = record { stopped = false; pc = checking }

-- `New`: each worker is started, and a copy of it appended to the slice.
unfoldable pub new : ℕ → ℕ → ℕ → Generator
new workers min max = record {
  min = min;
  max = max;
  capacity = workers * 10;
  workers = copies workers started;
  kept = copies workers false;
  buffer = [];
  closed = false;
  crashed = false;
  given = [];
}
