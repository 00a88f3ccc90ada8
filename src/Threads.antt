-- ===== src/Threads.antt =====
-- CoreLib/ThreadManager.h, CoreLib/ThreadManager.cpp, with the variables of CoreLib/CoreTLS.cpp: the number of each
-- thread, and the chunk that it gives up at its end. The system's own threads are not modelled: the callback is a
-- function on a state.
use bsgame_server.Base.{ℕ, zero, suc, ◌+◌, ◌^◌, ◌<◌, ◌≡◌, ◌≢◌, refl, ◌∙◌, Option, none, arith}
use native.Mathlib.Nat.{mod-eq_of_lt}
use bsgame_server.Base.Words.{uint32}
use bsgame_server.Base.Run.{Run, done, ◌>>=◌}

-- `LThreadId` and `LSendBufferChunk`; a chunk is its index in the store.
pub record ThreadLocal : Type 0 where
  pub thread_id : ℕ
  pub chunk : Option ℕ

abbrev new_thread : ThreadLocal
new_thread = record { thread_id = 0; chunk = none }

-- The value that `SThreadId` starts with.
abbrev first_id : ℕ
first_id = 1

-- `ThreadTLS`: `fetch_add` on the shared counter, which is an `uint32`.
thread_tls : ℕ → ThreadLocal → ℕ × ThreadLocal
thread_tls counter t = (uint32 (counter + 1), record t { thread_id = counter })

-- `ThreadDestory`: the thread's reference to its chunk goes; a chunk without a reference returns to the pool.
thread_destroy : ThreadLocal → ThreadLocal
thread_destroy t = record t { chunk = none }

module _ {ℓ} {S : Type ℓ} where
  -- What the thread of `CreateThread` runs: `ThreadTLS(); callback(); ThreadDestory();`.
  create_thread : (ThreadLocal → S → Run (ThreadLocal × S)) → ℕ → S → Run (ℕ × ThreadLocal × S)
  unfolding thread_tls thread_destroy
  create_thread callback counter s =
      let (counter', t) = thread_tls counter new_thread in
      callback t s >>= λ (t', s'). done (counter', thread_destroy t', s')

-- The counter when `n` threads have their number.
counter_after : ℕ → ℕ
unfolding thread_tls
counter_after zero = first_id
counter_after (suc n) = (thread_tls (counter_after n) new_thread).0

counter_after_lem : (n : ℕ) → n + 1 < 2 ^ 32 → counter_after n ≡ n + 1
unfolding counter_after thread_tls
counter_after_lem zero h = refl
counter_after_lem (suc n) h =
    let before = counter_after_lem n (omega arith) in
    mod-eq_of_lt {n = counter_after n + 1} {m = 2 ^ 32} (omega (arith, before))
    ∙ omega (arith, before)

-- Of fewer than 2 ^ 32 - 1 threads, no two have the same number.
thread_ids_differ : (i j : ℕ) → i < j → j + 1 < 2 ^ 32 → counter_after i ≢ counter_after j
thread_ids_differ i j l h e =
    absurd (omega (arith, counter_after_lem i (omega arith), counter_after_lem j h, e))
