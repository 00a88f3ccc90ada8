-- ===== src/Dispatch/Tests.antt =====
-- One thread that enters, and two of which the second follows the first.
use bsgame_server.Base.{ℕ, ◌≡◌, refl, List, [], ◌∷◌, true, arith}
use bsgame_server.Dispatch.{
  System, inside, outside, run, start, step_dispatch, step_room_task, dispatch_next, room_task_next,
  exchange, compare_exchange,
}
use bsgame_server.Dispatch.Exclusion.{room_task_exclusion, dispatch_overlap, overlap}

abbrev turns : List ℕ
turns = 0 ∷ 1 ∷ 0 ∷ 1 ∷ 0 ∷ 1 ∷ []

first_inside : (run step_room_task start turns).pc 0 ≡ inside
unfolding run step_room_task room_task_next exchange compare_exchange start
first_inside = refl

room_task_exclusion_example : ◌≡◌ {A = ℕ} 0 0
room_task_exclusion_example = room_task_exclusion turns 0 0 first_inside first_inside

abbrev reading : System
reading = run step_dispatch start (0 ∷ 0 ∷ 0 ∷ [])

reading_lem : (reading.flag ≡ true) × (reading.pc 0 ≡ inside) × (reading.pc 1 ≡ outside)
unfolding run step_dispatch dispatch_next exchange compare_exchange start
reading_lem = (refl, refl, refl)

dispatch_overlap_example :
    ((run step_dispatch reading (overlap 0 1)).pc 0 ≡ inside)
    × ((run step_dispatch reading (overlap 0 1)).pc 1 ≡ inside)
dispatch_overlap_example =
    dispatch_overlap reading 0 1 (omega arith) reading_lem.0 reading_lem.1 reading_lem.2
