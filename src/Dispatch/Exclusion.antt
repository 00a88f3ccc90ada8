-- ===== src/Dispatch/Exclusion.antt =====
-- CoreLib/Service.cpp and GameBS/BS_GameRoom.cpp: which threads can be inside `RoomTask` and
-- inside `Dispatch` together.
use bsgame_server.Base.{ℕ, Bool, true, false, ◌≡◌, refl, ◌≢◌, List, [], ◌∷◌, arith}
use bsgame_server.Dispatch.{
  System, Pc, outside, loaded, checked, inside, step_dispatch, step_room_task, run, start,
  room_task_next,
}

-- The flag is up while a thread is inside, at most one is, and a thread about to exchange expects a
-- flag that is down.
pub record Exclusive (s : System) : Type 0 where
  pub raised : (t : ℕ) → s.pc t ≡ inside → s.flag ≡ true
  pub alone : (t u : ℕ) → s.pc t ≡ inside → s.pc u ≡ inside → t ≡ u
  pub expects : (t : ℕ) (b : Bool) → s.pc t ≡ checked b → b ≡ false

room_task_next-Exclusive :
    (p : Pc) (s : System) (t : ℕ) → s.pc t ≡ p → Exclusive s → Exclusive (room_task_next p s t)
unfolding room_task_next
room_task_next-Exclusive outside s t e v = record {
  raised = λ u h. ground (arith, v.raised u);
  alone = λ a b h k. ground (arith, v.alone a b);
  expects = λ a b h. ground (arith, v.expects a b);
}
room_task_next-Exclusive (loaded false) s t e v = record {
  raised = λ u h. ground (arith, v.raised u);
  alone = λ a b h k. ground (arith, v.alone a b);
  expects = λ a b h. ground (arith, v.expects a b);
}
room_task_next-Exclusive (loaded true) s t e v = record {
  raised = λ u h. ground (arith, v.raised u);
  alone = λ a b h k. ground (arith, v.alone a b);
  expects = λ a b h. ground (arith, v.expects a b);
}
room_task_next-Exclusive (checked b) s t e v = record {
  raised = λ u h. ground (arith, v.raised u, v.expects t b e);
  alone = λ a c h k. ground (arith, v.alone a c, v.expects t b e, v.raised a, v.raised c);
  expects = λ a c h. ground (arith, v.expects a c);
}
room_task_next-Exclusive inside s t e v = record {
  raised = λ u h. ground (arith, v.raised u, v.alone u t);
  alone = λ a b h k. ground (arith, v.alone a b);
  expects = λ a b h. ground (arith, v.expects a b);
}

step_room_task-Exclusive : {s : System} (t : ℕ) → Exclusive s → Exclusive (step_room_task s t)
unfolding step_room_task
step_room_task-Exclusive {s} t v = room_task_next-Exclusive (s.pc t) s t refl v

run-Exclusive : (ts : List ℕ) {s : System} → Exclusive s → Exclusive (run step_room_task s ts)
unfolding run
run-Exclusive [] v = v
run-Exclusive (t ∷ ts) v = run-Exclusive ts (step_room_task-Exclusive t v)

start-Exclusive : Exclusive start
unfolding start
start-Exclusive = record { raised = λ t h. cc; alone = λ t u h k. cc; expects = λ t b h. cc }

-- Whatever the number of threads and their schedule, two threads are never inside `RoomTask`
-- together.
pub room_task_exclusion :
    (ts : List ℕ) (t u : ℕ)
    → (run step_room_task start ts).pc t ≡ inside
    → (run step_room_task start ts).pc u ≡ inside
    → t ≡ u
room_task_exclusion ts t u h k = (run-Exclusive ts start-Exclusive).alone t u h k

-- The accesses by which thread `u` follows thread `t` into the section: `u` loads the raised flag,
-- `t` leaves, `u` sees the flag down, `t` enters again, and the exchange of `u`, which expects a raised
-- flag, succeeds.
abbrev pub overlap : ℕ → ℕ → List ℕ
overlap t u = u ∷ t ∷ u ∷ t ∷ t ∷ t ∷ u ∷ []

-- From every state in which the flag is up, a thread is inside `Dispatch` and another outside, a
-- schedule of the two alone puts both inside.
pub dispatch_overlap :
    (s : System) (t u : ℕ)
    → t ≢ u
    → s.flag ≡ true
    → s.pc t ≡ inside
    → s.pc u ≡ outside
    → ((run step_dispatch s (overlap t u)).pc t ≡ inside)
      × ((run step_dispatch s (overlap t u)).pc u ≡ inside)
unfolding run step_dispatch
dispatch_overlap s t u ne f ht hu = ground arith
