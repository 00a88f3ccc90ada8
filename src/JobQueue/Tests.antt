-- ===== src/JobQueue/Tests.antt =====
-- Two jobs that add to a counter, on one thread and on two.
use mathlib.Core.List.{Perm}
use bsgame_server.Base.{ℕ, zero, suc, ◌+◌, ◌≡◌, refl, ◌++◌, List, [], ◌∷◌}
use bsgame_server.Base.Int.{pos}
use bsgame_server.Base.Run.{Run, done}
use bsgame_server.Base.Run
use bsgame_server.JobQueue.{JobQueue, empty, execute}
use bsgame_server.JobQueue.Order.{run_all, seen, execute_refines}
use bsgame_server.JobQueue.Threads.{
  Event, pushes, takes, runs, main_thread, worker, start, run, known, jobs_kept, overtaking,
}

-- The job 0 pushes the job 5 behind it.
abbrev add_job : ℕ → ℕ → Run (ℕ × List ℕ)
add_job zero s = done (s, 5 ∷ [])
add_job (suc j) s = done (s + suc j, [])

abbrev two_jobs : JobQueue ℕ
two_jobs = record { q = 0 ∷ 2 ∷ []; q_size = pos 2 }

execute_refines_example :
    Run.map (seen add_job) (execute add_job 10 two_jobs) ≡ run_all add_job (0 ∷ 2 ∷ []) 10
execute_refines_example = execute_refines add_job 10 two_jobs

abbrev events : List (Event ℕ)
events = pushes 1 ∷ takes main_thread ∷ pushes 2 ∷ takes worker ∷ runs worker ∷ []

jobs_kept_example : Perm (known (run (start ℕ) events)) (run (start ℕ) events).pushed
jobs_kept_example = jobs_kept events

abbrev race : List (Event ℕ)
race = pushes 1 ∷ takes main_thread ∷ pushes 2 ∷ takes worker ∷ runs worker ∷ runs main_thread ∷ []

overtaking_example :
    ((run (start ℕ) race).pushed ≡ ((start ℕ).pushed ++ (1 ∷ [])) ++ (2 ∷ []))
    × ((run (start ℕ) race).ran ≡ ((start ℕ).ran ++ (2 ∷ [])) ++ (1 ∷ []))
unfolding start empty
overtaking_example = overtaking (start ℕ) 1 2 refl refl refl
