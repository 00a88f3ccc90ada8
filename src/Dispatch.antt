-- ===== src/Dispatch.antt =====
-- CoreLib/Service.cpp, `ServerService::Dispatch` with `CheckReading` and `OffReading`, and
-- GameBS/BS_GameRoom.cpp, `BS_GameRoom::RoomTask`: two sections that one thread at a time shall
-- run, each behind an atomic flag. A step of the model is one atomic access.
pub mod Exclusion
mod Tests
use bsgame_server.Base.{ℕ, Bool, true, false, List, [], ◌∷◌, if◌then◌else◌, ◌==◌}

-- Where a thread stands. `loaded b` is past the first load of the flag, which gave `b`; `checked b` is past
-- the second test, before the compare-and-exchange.
pub data Pc : Type 0 where
  outside : Pc
  loaded : Bool → Pc
  checked : Bool → Pc
  inside : Pc

pub record System : Type 0 where
  pub flag : Bool
  pub pc : ℕ → Pc

abbrev pub goto : System → ℕ → Pc → System
goto s t p = record s { pc = λ u. if u == t then p else s.pc u }

-- `flag.compare_exchange_strong(expected, true)`: whether it succeeds, and the flag after it.
pub compare_exchange : Bool → Bool → Bool × Bool
compare_exchange true true = (true, true)
compare_exchange false false = (true, true)
compare_exchange true false = (false, true)
compare_exchange false true = (false, false)

-- The compare-and-exchange of thread `t`, which expects `b`, and the store of `false` that ends its
-- turn.
exchange : System → ℕ → Bool → System
unfolding compare_exchange
exchange s t b =
    let (won, flag) = compare_exchange s.flag b in
    record (goto s t (if won then inside else outside)) { flag = flag }

leave : System → ℕ → System
leave s t = record (goto s t outside) { flag = false }

-- `Dispatch`: `int isReading = _reading; if (!_reading && CheckReading(isReading)) { … OffReading(); }`.
dispatch_next : Pc → System → ℕ → System
unfolding exchange leave
dispatch_next outside s t = goto s t (loaded s.flag)
dispatch_next (loaded b) s t = goto s t (if s.flag then outside else checked b)
dispatch_next (checked b) s t = exchange s t b
dispatch_next inside s t = leave s t

-- `RoomTask`: `bool cur = isLoopTask.load(); if (!cur && isLoopTask.compare_exchange_strong(cur, true))
-- { … isLoopTask.exchange(false); }`.
room_task_next : Pc → System → ℕ → System
unfolding exchange leave
room_task_next outside s t = goto s t (loaded s.flag)
room_task_next (loaded b) s t = goto s t (if b then outside else checked b)
room_task_next (checked b) s t = exchange s t b
room_task_next inside s t = leave s t

-- The next access of thread `t`.
pub step_dispatch : System → ℕ → System
unfolding dispatch_next
step_dispatch s t = dispatch_next (s.pc t) s t

pub step_room_task : System → ℕ → System
unfolding room_task_next
step_room_task s t = room_task_next (s.pc t) s t

-- A schedule says whose turn it is.
pub run : (System → ℕ → System) → System → List ℕ → System
run step s [] = s
run step s (t ∷ ts) = run step (step s t) ts

pub start : System
start = record { flag = false; pc = λ _. outside }
