-- ===== src/JobQueue.antt =====
-- CoreLib/JobQueue.h, CoreLib/JobQueue.cpp: the job queue of a room, shared by the threads of
-- main.cpp.
pub mod Order
pub mod Threads
mod Tests
use bsgame_server.Base.{ℕ, ◌+◌, List, [], ◌∷◌, ◌++◌, length}
use bsgame_server.Base.Int.{ℤ, pos, add_int32, sub_int32}
use bsgame_server.Base.Run.{Run, done, ◌>>=◌}

-- `J` is the type of jobs, oldest first in `q`.
pub record JobQueue (J : Type 0) : Type 0 where
  pub q : List J
  pub q_size : ℤ

unfoldable pub empty : (J : Type 0) → JobQueue J
empty J = record { q = []; q_size = pos 0 }

module _ {J : Type 0} where
  -- `Push`: the counter first, then the queue under its lock.
  unfoldable pub count_up : JobQueue J → JobQueue J
  count_up s = record s { q_size = add_int32 s.q_size (pos 1) }

  unfoldable pub enqueue : JobQueue J → J → JobQueue J
  enqueue s job = record s { q = s.q ++ (job ∷ []) }

  unfoldable pub push : JobQueue J → J → JobQueue J
  unfolding count_up enqueue
  push s job = enqueue (count_up s) job

  -- The locked part of `Execute` takes every job; the other jobs run outside the lock.
  unfoldable pub take_all : JobQueue J → List J × JobQueue J
  take_all s = (s.q, record s { q = [] })

  unfoldable pub count_down : JobQueue J → ℕ → JobQueue J
  count_down s n = record s { q_size = sub_int32 s.q_size (pos n) }

  unfoldable pub push_all : JobQueue J → List J → JobQueue J
  push_all s [] = s
  push_all s (j ∷ js) = push_all (push s j) js

-- A job runs on a state `S`, and names the jobs that it pushes to the same queue, in order.
module _ {S J : Type 0} (run_job : J → S → Run (S × List J)) where
  -- The loop over the batch. A job pushed meanwhile goes to the shared queue, behind the batch.
  unfoldable pub run_batch : List J → S → JobQueue J → Run (S × JobQueue J)
  run_batch [] s jobs = done (s, jobs)
  run_batch (j ∷ batch) s jobs =
      run_job j s >>= λ (s', pushed). run_batch batch s' (push_all jobs pushed)

  unfoldable pub execute : S → JobQueue J → Run (S × JobQueue J)
  unfolding run_batch
  execute s jobs =
      let (batch, jobs') = take_all jobs in
      run_batch batch s jobs' >>= λ (s', jobs''). done (s', count_down jobs'' (length batch))
