-- ===== src/JobQueue/Threads.antt =====
-- The two threads of main.cpp on one job queue: `Push` from either, and `Execute` of either at once.
use mathlib.Core.List.{
  Perm, perm_append_comm, perm_middle, perm-append_left_iff, perm-append_right_iff,
}
use mathlib.Core.List.Perm
use bsgame_server.Base.{
  ◌≡◌, refl, ap, subst, ◌∙◌, List, [], ◌∷◌, ◌++◌, append_assoc, append-nil, arith,
}
use bsgame_server.JobQueue.{JobQueue, empty, push, take_all}

-- The thread that `main` is, and the one that it creates.
pub data Thread : Type 0 where
  main_thread worker : Thread

-- `batch` is the local `jobs` of a thread's `Execute`. `ran` and `pushed` record what has run and
-- what has been pushed, in order.
pub record System (J : Type 0) : Type 0 where
  pub queue : JobQueue J
  pub main_batch : List J
  pub worker_batch : List J
  pub ran : List J
  pub pushed : List J

-- `pushes` is a whole `Push`; `takes` is the locked part of an `Execute` that begins; `runs` is one
-- round of its loop.
pub data Event (J : Type 0) : Type 0 where
  pushes : J → Event J
  takes : Thread → Event J
  runs : Thread → Event J

module _ {J : Type 0} where
  batch : Thread → System J → List J
  batch main_thread s = s.main_batch
  batch worker s = s.worker_batch

  with_batch : Thread → System J → List J → System J
  with_batch main_thread s js = record s { main_batch = js }
  with_batch worker s js = record s { worker_batch = js }

  -- A thread takes a batch only when it has finished the last one.
  take_next : Thread → List J → System J → System J
  unfolding with_batch take_all
  take_next t [] s = record (with_batch t s (take_all s.queue).0) { queue = (take_all s.queue).1 }
  take_next t (j ∷ js) s = s

  run_next : Thread → List J → System J → System J
  unfolding with_batch
  run_next t [] s = s
  run_next t (j ∷ js) s = record (with_batch t s js) { ran = s.ran ++ (j ∷ []) }

  pub step : System J → Event J → System J
  unfolding take_next run_next batch push
  step s (pushes j) = record s { queue = push s.queue j; pushed = s.pushed ++ (j ∷ []) }
  step s (takes t) = take_next t (batch t s) s
  step s (runs t) = run_next t (batch t s) s

  pub run : System J → List (Event J) → System J
  unfolding step
  run s [] = s
  run s (e ∷ es) = run (step s e) es

unfoldable pub start : (J : Type 0) → System J
start J = record { queue = empty J; main_batch = []; worker_batch = []; ran = []; pushed = [] }

module _ {J : Type 0} where
  -- Every job that was pushed, wherever it is now.
  abbrev pub known : System J → List J
  known s = s.ran ++ (s.main_batch ++ (s.worker_batch ++ s.queue.q))

  abbrev pub Kept : System J → Type 0
  Kept s = Perm (known s) s.pushed

  push-Kept : (s : System J) (j : J) → Kept s → Kept (step s (pushes j))
  unfolding step
  push-Kept s j v =
      subst (λ l. Perm l (s.pushed ++ (j ∷ []))) (simp append_assoc)
        ((perm-append_right_iff (j ∷ [])).1 v)

  take-Kept :
      (s : System J) (t : Thread) (js : List J) → batch t s ≡ js → Kept s → Kept (take_next t js s)
  unfolding take_next batch
  take-Kept s main_thread [] e v =
      Perm.trans
        ((perm-append_left_iff s.ran).1
          (rw (append-nil s.worker_batch) (perm_append_comm s.queue.q s.worker_batch)))
        (subst (λ b. Perm (s.ran ++ (b ++ (s.worker_batch ++ s.queue.q))) s.pushed) e v)
  take-Kept s worker [] e v =
      rw (append-nil s.queue.q)
        (subst (λ b. Perm (s.ran ++ (s.main_batch ++ (b ++ s.queue.q))) s.pushed) e v)
  take-Kept s t (j ∷ js) e v = v

  run_next-Kept :
      (s : System J) (t : Thread) (js : List J) → batch t s ≡ js → Kept s → Kept (run_next t js s)
  unfolding run_next batch
  run_next-Kept s t [] e v = v
  run_next-Kept s main_thread (j ∷ js) e v =
      rw (append_assoc s.ran (j ∷ []) (js ++ (s.worker_batch ++ s.queue.q)))
        (subst (λ b. Perm (s.ran ++ (b ++ (s.worker_batch ++ s.queue.q))) s.pushed) e v)
  run_next-Kept s worker (j ∷ js) e v =
      rw (append_assoc s.ran (j ∷ []) (s.main_batch ++ (js ++ s.queue.q))) (
        Perm.trans
          ((perm-append_left_iff s.ran).1 (Perm.symm (perm_middle s.main_batch (js ++ s.queue.q))))
          (subst (λ b. Perm (s.ran ++ (s.main_batch ++ (b ++ s.queue.q))) s.pushed) e v))

  step-Kept : (s : System J) (e : Event J) → Kept s → Kept (step s e)
  unfolding step
  step-Kept s (pushes j) v = push-Kept s j v
  step-Kept s (takes t) v = take-Kept s t (batch t s) refl v
  step-Kept s (runs t) v = run_next-Kept s t (batch t s) refl v

  run-Kept : (es : List (Event J)) (s : System J) → Kept s → Kept (run s es)
  unfolding run
  run-Kept [] s v = v
  run-Kept (e ∷ es) s v = run-Kept es (step s e) (step-Kept s e v)

  start-Kept : Kept (start J)
  unfolding start empty
  start-Kept = Perm.nil

  -- However the two threads interleave, no job is lost and none runs twice: what has run, what the
  -- threads hold, and what is queued are together the jobs that were pushed.
  pub jobs_kept : (es : List (Event J)) → Perm (known (run (start J) es)) (run (start J) es).pushed
  jobs_kept es = run-Kept es (start J) start-Kept

  -- The events of one thread that pushes and executes.
  abbrev pub OnMain : List (Event J) → Type 0
  OnMain [] = Unit {0}
  OnMain (pushes j ∷ es) = OnMain es
  OnMain (takes main_thread ∷ es) = OnMain es
  OnMain (runs main_thread ∷ es) = OnMain es
  OnMain (takes worker ∷ es) = ⊥
  OnMain (runs worker ∷ es) = ⊥

  -- The jobs of a lone thread, in order.
  abbrev InOrder : System J → Type 0
  InOrder s = s.ran ++ (s.main_batch ++ s.queue.q) ≡ s.pushed

  take_main-InOrder :
      (s : System J) (js : List J)
      → s.main_batch ≡ js
      → InOrder s
      → InOrder (take_next main_thread js s)
  unfolding take_next
  take_main-InOrder s [] e v =
      rw (append-nil s.queue.q) (subst (λ b. s.ran ++ (b ++ s.queue.q) ≡ s.pushed) e v)
  take_main-InOrder s (j ∷ js) e v = v

  run_main-InOrder :
      (s : System J) (js : List J)
      → s.main_batch ≡ js
      → InOrder s
      → InOrder (run_next main_thread js s)
  unfolding run_next
  run_main-InOrder s [] e v = v
  run_main-InOrder s (j ∷ js) e v =
      append_assoc s.ran (j ∷ []) (js ++ s.queue.q)
      ∙ subst (λ b. s.ran ++ (b ++ s.queue.q) ≡ s.pushed) e v

  run-InOrder : (es : List (Event J)) (s : System J) → OnMain es → InOrder s → InOrder (run s es)
  unfolding run step batch
  run-InOrder [] s h v = v
  run-InOrder (pushes j ∷ es) s h v =
      run-InOrder es (step s (pushes j)) h
        (simp (← append_assoc) (ap (λ l. l ++ (j ∷ [])) (simp append_assoc v)))
  run-InOrder (takes main_thread ∷ es) s h v =
      run-InOrder es (step s (takes main_thread)) h (take_main-InOrder s s.main_batch refl v)
  run-InOrder (runs main_thread ∷ es) s h v =
      run-InOrder es (step s (runs main_thread)) h (run_main-InOrder s s.main_batch refl v)
  run-InOrder (takes worker ∷ es) s h v = absurd h
  run-InOrder (runs worker ∷ es) s h v = absurd h

  -- While the main thread alone executes, the jobs that ran are a front part of the jobs that
  -- were pushed, in the same order.
  pub one_thread_in_order :
      (es : List (Event J))
      → OnMain es
      → (rest : List J) × ((run (start J) es).ran ++ rest ≡ (run (start J) es).pushed)
  one_thread_in_order es h = (
    (run (start J) es).main_batch ++ (run (start J) es).queue.q,
    run-InOrder es (start J) h (unfold start empty in refl),
  )

  -- Two threads do not keep the order: from every state with nothing queued and nothing held, a
  -- job that is pushed second can run first.
  pub overtaking :
      (s : System J) (i j : J)
      → s.main_batch ≡ []
      → s.worker_batch ≡ []
      → s.queue.q ≡ []
      → let t = run s (
          pushes i
          ∷ takes main_thread
          ∷ pushes j
          ∷ takes worker
          ∷ runs worker
          ∷ runs main_thread
          ∷ []) in
        (t.pushed ≡ (s.pushed ++ (i ∷ [])) ++ (j ∷ [])) × (t.ran ≡ (s.ran ++ (j ∷ [])) ++ (i ∷ []))
  unfolding run step batch take_next run_next push
  overtaking s i j m w q = ground (arith)
