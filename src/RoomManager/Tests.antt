-- ===== src/RoomManager/Tests.antt =====
-- Rooms that are their numbers.
use bsgame_server.Base.{◌≡◌, refl, List, [], ◌∷◌, none, contains}
use bsgame_server.Base.Int.{ℤ, pos}
use bsgame_server.RoomManager.{
  RoomManager, Op, creates, erases, run, run_table, get_room, run_refines,
}

abbrev no_rooms : RoomManager ℤ
no_rooms = record { id = pos 0; room_map = [] }

-- The first room goes, and so does one that was never there.
abbrev calls : List Op
calls = creates ∷ erases (pos 7) ∷ creates ∷ erases (pos 0) ∷ []

no_rooms_lem : (j : ℤ) → get_room j no_rooms ≡ none
unfolding get_room contains
no_rooms_lem j = refl

run_refines_example :
    ((run (λ i. i) calls no_rooms).id ≡ (run_table (λ i. i) calls (pos 0, λ _. none)).0)
    × ((j : ℤ)
        → get_room j (run (λ i. i) calls no_rooms)
          ≡ (run_table (λ i. i) calls (pos 0, λ _. none)).1 j)
run_refines_example = run_refines (λ i. i) calls no_rooms (pos 0, λ _. none) refl no_rooms_lem
