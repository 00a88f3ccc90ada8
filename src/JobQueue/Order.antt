-- ===== src/JobQueue/Order.antt =====
-- CoreLib/JobQueue.cpp: `Execute` of one thread, and the order in which the jobs run.
use bsgame_server.Base.{
  ℕ, ◌+◌, ◌^◌, ◌<◌, ◌≡◌, refl, sym, ap, ◌∙◌, List, [], ◌∷◌, ◌++◌, append_assoc, append-nil, length,
  arith, inl, inr,
}
use bsgame_server.Base.Int.{pos, add_int32, sub_int32, int32, ◌+ℤ◌, ◌-ℤ◌}
use bsgame_server.Base.Run.{Run, done, fault, ◌>>=◌, Run-cases, >>=-eq-done}
use bsgame_server.Base.Run
use bsgame_server.JobQueue.{JobQueue, push, push_all, take_all, count_down, run_batch, execute}

add_one_int32 : (n : ℕ) → n + 1 < 2 ^ 31 → add_int32 (pos n) (pos 1) ≡ pos (n + 1)
unfolding add_int32 ◌+ℤ◌ int32
add_one_int32 n h = ground arith

sub_pos_int32 : (n k : ℕ) → n + k < 2 ^ 31 → sub_int32 (pos (n + k)) (pos n) ≡ pos k
unfolding sub_int32 ◌-ℤ◌ int32
sub_pos_int32 n k h = ground arith

module _ {J : Type 0} where
  pub q-push_all : (s : JobQueue J) (js : List J) → (push_all s js).q ≡ s.q ++ js
  unfolding push_all push
  q-push_all s [] = sym (append-nil s.q)
  q-push_all s (j ∷ js) = q-push_all (push s j) js ∙ append_assoc s.q (j ∷ []) js

  q_size-push_all :
      (js : List J) (s : JobQueue J) (n : ℕ)
      → s.q_size ≡ pos n
      → n + length js < 2 ^ 31
      → (push_all s js).q_size ≡ pos (n + length js)
  unfolding push_all push
  q_size-push_all [] s n e h = e ∙ ap pos (omega arith)
  q_size-push_all (j ∷ js) s n e h =
      q_size-push_all js (push s j) (n + 1)
        (ap (λ z. add_int32 z (pos 1)) e ∙ add_one_int32 n (omega arith)) (omega arith)
      ∙ ap pos (omega arith)

module _ {S J : Type 0} (run_job : J → S → Run (S × List J)) where
  -- What the rest of the server sees of the state and of the shared queue.
  abbrev pub seen : S × JobQueue J → S × List J
  seen (s, jobs) = (s, jobs.q)

  abbrev behind : List J → S × List J → S × List J
  behind js (s, pushed) = (s, js ++ pushed)

  -- The specification: the jobs run one after the other, and what they push follows in order.
  pub run_all : List J → S → Run (S × List J)
  run_all [] s = done (s, [])
  run_all (j ∷ js) s =
      run_job j s >>= λ (s', pushed). run_all js s' >>= λ (s'', rest). done (s'', pushed ++ rest)

  regroup :
      (batch : List J) (s : S) (jobs : JobQueue J) (pushed : List J)
      → Run.map (behind (push_all jobs pushed).q) (run_all batch s)
        ≡ Run.map (behind jobs.q) (run_all batch s >>= λ r. done (r.0, pushed ++ r.1))
  regroup batch s jobs pushed = elim (Run-cases (run_all batch s)) [
    | inl ((s', rest), e) ↦ rw e (
        ap (λ l. done (s', l))
          (ap (λ l. l ++ rest) (q-push_all jobs pushed) ∙ append_assoc jobs.q pushed rest))
    | inr (x, e) ↦ rw e refl
  ]

  batch_lem :
      (batch : List J) (s : S) (jobs : JobQueue J)
      → Run.map seen (run_batch run_job batch s jobs) ≡ Run.map (behind jobs.q) (run_all batch s)
  unfolding run_batch run_all
  batch_lem [] s jobs = ap (λ l. done (s, l)) (sym (append-nil jobs.q))
  batch_lem (j ∷ batch) s jobs = elim (Run-cases (run_job j s)) [
    | inl ((s', pushed), e) ↦
        rw e (batch_lem batch s' (push_all jobs pushed) ∙ regroup batch s' jobs pushed)
    | inr (x, e) ↦ rw e refl
  ]

  batch_all :
      (batch : List J) (s : S) (jobs : JobQueue J)
      → jobs.q ≡ []
      → Run.map seen (run_batch run_job batch s jobs) ≡ run_all batch s
  batch_all batch s jobs h = elim (Run-cases (run_all batch s)) [
    | inl (r, e) ↦ batch_lem batch s jobs ∙ rw (e, h) refl
    | inr (x, e) ↦ batch_lem batch s jobs ∙ rw e refl
  ]

  -- `Execute` runs exactly the jobs that were queued, oldest first, and leaves in the queue what
  -- these pushed, in the order of the pushes; if a job faults, so does `Execute`.
  pub execute_refines :
      (s : S) (jobs : JobQueue J) → Run.map seen (execute run_job s jobs) ≡ run_all jobs.q s
  unfolding execute take_all count_down
  execute_refines s jobs = elim (Run-cases (run_batch run_job jobs.q s (take_all jobs).1)) [
    | inl (r, e) ↦ rw e (ap (Run.map seen) (sym e) ∙ batch_all jobs.q s (take_all jobs).1 refl)
    | inr (x, e) ↦ rw e (ap (Run.map seen) (sym e) ∙ batch_all jobs.q s (take_all jobs).1 refl)
  ]
