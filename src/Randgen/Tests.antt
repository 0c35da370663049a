-- ===== src/Randgen/Tests.antt =====
-- Two goroutines that draw numbers from 3 to 5.
use go_project_example.Base.{◌≤◌, true, List, [], ◌∷◌, ◌≡◌, refl, arith, All, length}
use go_project_example.Randgen.{
  Event, work, take, stopping, run, step, new, act, move_at, move, receive, stop,
}
use go_project_example.Randgen.Bounds.{InRange, IsGiven, run-InRange}
use go_project_example.Randgen.Stopping.{run-stop}

-- Both goroutines draw and send, and one of the two numbers is taken.
abbrev before : List Event
before = work 0 7 ∷ work 1 11 ∷ work 1 0 ∷ work 0 0 ∷ take ∷ []

given_before : (run before (new 2 3 6)).given ≡ 5 ∷ []
unfolding run step act move_at move receive new
given_before = refl

buffer_before : (run before (new 2 3 6)).buffer ≡ 4 ∷ []
unfolding run step act move_at move receive new
buffer_before = refl

-- After `Stop` the number that is left is taken, and then a zero.
zero_given : (run (stopping ∷ take ∷ take ∷ []) (run before (new 2 3 6))).given ≡ 5 ∷ 4 ∷ 0 ∷ []
unfolding run step act move_at move receive stop new
zero_given = refl

run-InRange_example :
    (length (run before (new 2 3 6)).buffer ≤ 20)
    × All (InRange 3 6) (run before (new 2 3 6)).buffer
    × All (IsGiven 3 6 (run before (new 2 3 6)).closed) (run before (new 2 3 6)).given
run-InRange_example = run-InRange 2 3 6 before

run-stop_example :
    (run
      (take ∷ work 1 0 ∷ work 0 9 ∷ work 1 0 ∷ [])
      (step stopping (run before (new 2 3 6)))).crashed
    ≡ true
run-stop_example =
    run-stop 2 3 6 1 before (take ∷ work 1 0 ∷ work 0 9 ∷ work 1 0 ∷ []) (omega arith)
      (ground arith)
