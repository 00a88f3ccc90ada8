-- ===== src/Server/Safe/Rounds.antt =====
-- GameBS/BS_GameRoom.cpp, `Execute` and `RoomTask`: who is connected after them.
use bsgame_server.Base.{
  ℕ, ◌+◌, ◌-◌, ◌%◌, ◌^◌, ◌≡◌, refl, sym, ap, ◌∙◌, subst, List, [], ◌∷◌, inl, inr, Bool-cases, ltb,
  lookup,
}
use bsgame_server.Base.Int.{ℤ, pos, rem_ℤ, add_int32}
use bsgame_server.Base.Run.{Run, done, ◌>>=◌, >>=-eq-done}
use bsgame_server.Geometry.{Floats}
use bsgame_server.JobQueue.{JobQueue, run_batch, execute, take_all, push_all}
use bsgame_server.SendBuffer.Chunk.{SendBuffer}
use bsgame_server.Packets.{
  Attack, make_load, make_player, make_my_player, make_move_list, make_attack_list,
}
use bsgame_server.Room.{monster_hit, span_monsters}
use bsgame_server.Room.Job.{RoomJob}
use bsgame_server.Room.Sessions.{del_session}
use bsgame_server.Room.State.{Room, send_to, send_all, send_others}
use bsgame_server.Room.State
use bsgame_server.Room.Entry.{add_session, enter, other_players, shown_monsters, player_data}
use bsgame_server.Room.Moves.{tell_attacks, move_all, move_monsters}
use bsgame_server.Room.Task.{hit_and_tell, run_job, execute_room, room_task}
use bsgame_server.Server.Safe.Ties.{
  Ties, Ties-refl, Ties-trans, send_to-Ties, send_all-Ties, send_others-Ties, push_all-Ties,
  erase-Ties, enter-Ties,
}

done_Ties : (r s t : Room) → done s ≡ done t → Ties r s → Ties r t
done_Ties r s t e a = let p : s ≡ t = cc in subst (λ x. Ties r x) p a

-- What a room keeps beside its sessions plays no part.
same_Ties : (r s t : Room) → t.sessions ≡ s.sessions → t.outside ≡ s.outside → Ties r s → Ties r t
same_Ties r s t e o a =
    Ties-trans a
      (record { source = λ k x f c. inl (x, sym (ap (λ m. lookup k m) e) ∙ f, c); outside = o })

module _ (results : ℤ → ℤ) where
  add_session-Ties : (fd : ℤ) (r r' : Room) → add_session results fd r ≡ done r' → Ties r r'
  unfolding add_session
  add_session-Ties fd room r' e =
      let r = enter fd room in
      let me = player_data (r.players fd) in
      let ((b1, m1), _, e1) =
        >>=-eq-done
          (make_load r.memory (other_players fd r.players r.sessions) (shown_monsters r.monsters)) _
          e in
      let ((b2, m2), _, e2) = >>=-eq-done (make_player m1 me) _ e1 in
      let ((b3, m3), _, e3) = >>=-eq-done (make_my_player m2 me) _ e2 in
      let r1 = send_to results fd b1 r in
      let r2 = send_others results b2 fd r1 in
      let r3 = send_to results fd b3 r2 in
      done_Ties room (record r3 { memory = m3 }) r' e3
        (same_Ties room r3 (record r3 { memory = m3 }) refl refl
          (Ties-trans (enter-Ties fd room) (
            Ties-trans (send_to-Ties results fd b1 r)
              (Ties-trans (send_others-Ties results b2 fd r1) (send_to-Ties results fd b3 r2)))))

  hit_and_tell-Ties :
      (b : SendBuffer) (code fd demage : ℤ) (r : Room)
      → Ties r (hit_and_tell results b code fd demage r)
  unfolding hit_and_tell
  hit_and_tell-Ties b code fd demage r =
      let hurt : Room = record r { monsters = (monster_hit r.monsters code fd demage).0 } in
      let a : Ties r hurt = same_Ties r r hurt refl refl (Ties-refl r) in
      elim (Bool-cases (monster_hit r.monsters code fd demage).1) [
        | inl e ↦ rw e (Ties-trans a (send_all-Ties results b hurt))
        | inr e ↦ rw e a
      ]

  run_job-Ties :
      (j : RoomJob) (r r' : Room) (js : List RoomJob)
      → run_job results j r ≡ done (r', js)
      → Ties r r'
  unfolding run_job del_session
  run_job-Ties j r r' js e = by_job j e
    where
      first : Run (Room × List RoomJob) → Run Room
      first m = m >>= λ x. done x.0

      by_job : (j : RoomJob) → run_job results j r ≡ done (r', js) → Ties r r'
      by_job (RoomJob.add_session fd) e =
          let (r1, p, q) = >>=-eq-done (add_session results fd r) _ e in
          done_Ties r r1 r' (ap first q) (add_session-Ties fd r r1 p)
      by_job (RoomJob.del_session fd) e = done_Ties r _ r' (ap first e) (erase-Ties fd r)
      by_job (RoomJob.broadcast_push b) e = done_Ties r _ r' (ap first e) (push_all-Ties b r)
      by_job (RoomJob.broadcast b) e = done_Ties r _ r' (ap first e) (send_all-Ties results b r)
      by_job (RoomJob.broadcast_another b fd) e =
          done_Ties r _ r' (ap first e) (send_others-Ties results b fd r)
      by_job (RoomJob.hit_monster b code fd demage) e =
          done_Ties r _ r' (ap first e) (hit_and_tell-Ties b code fd demage r)

  run_batch-Ties :
      (js : List RoomJob) (r r' : Room) (q q' : JobQueue RoomJob)
      → run_batch (run_job results) js r q ≡ done (r', q')
      → Ties r r'
  unfolding run_batch
  run_batch-Ties [] r r' q q' e =
      done_Ties r r r' (ap (λ (m : Run (Room × JobQueue RoomJob)). m >>= λ x. done x.0) e)
        (Ties-refl r)
  run_batch-Ties (j ∷ js) r r' q q' e =
      let ((r1, pushed), p, more) = >>=-eq-done (run_job results j r) _ e in
      Ties-trans (run_job-Ties j r r1 pushed p)
        (run_batch-Ties js r1 r' (push_all q pushed) q' more)

  pub execute_room-Ties :
      (r r' : Room) (q q' : JobQueue RoomJob) → execute_room results r q ≡ done (r', q') → Ties r r'
  unfolding execute_room execute
  execute_room-Ties r r' q q' e =
      let ((r1, q1), p, more) =
        >>=-eq-done (run_batch (run_job results) (take_all q).0 r (take_all q).1) _ e in
      done_Ties r r1 r' (ap (λ (m : Run (Room × JobQueue RoomJob)). m >>= λ x. done x.0) more)
        (run_batch-Ties (take_all q).0 r r1 (take_all q).1 q1 p)

tell_attacks-Ties : (as' : List Attack) (r r' : Room) → tell_attacks as' r ≡ done r' → Ties r r'
unfolding tell_attacks
tell_attacks-Ties [] r r' e = done_Ties r r r' e (Ties-refl r)
tell_attacks-Ties (a ∷ rest) r r' e =
    let ((b, m), _, more) = >>=-eq-done (make_attack_list r.memory (a ∷ rest)) _ e in
    let r1 : Room = record r { memory = m } in
    done_Ties r (State.push_all b r1) r' more
      (Ties-trans (same_Ties r r r1 refl refl (Ties-refl r)) (push_all-Ties b r1))

module _ (results : ℤ → ℤ) (f : Floats) (rotate : ℤ → ℤ) where
  move_monsters-Ties : (r r' : Room) → move_monsters f rotate results r ≡ done r' → Ties r r'
  unfolding move_monsters
  move_monsters-Ties r r' e =
      let all = move_all f rotate r.map r.sessions r.players r.tick r.monsters in
      let r0 : Room = record r { monsters = all.0 } in
      let (r1, p, e1) = >>=-eq-done (tell_attacks all.1.0 r0) _ e in
      let ((b, m), _, e2) = >>=-eq-done (make_move_list r1.memory all.1.1) _ e1 in
      let r2 : Room = record r1 { memory = m } in
      let r3 = send_all results b r2 in
      done_Ties r (record r3 { tick = rem_ℤ (add_int32 r3.tick (pos 1)) 2 }) r' e2
        (same_Ties r r3 (record r3 { tick = rem_ℤ (add_int32 r3.tick (pos 1)) 2 }) refl refl
          (Ties-trans
            (same_Ties r r1 r2 refl refl (
              Ties-trans (same_Ties r r r0 refl refl (Ties-refl r))
                (tell_attacks-Ties all.1.0 r0 r1 p)))
            (send_all-Ties results b r2)))

  pub room_task-Ties :
      (now later : ℕ) (r r' : Room) → room_task results f rotate now later r ≡ done r' → Ties r r'
  unfolding room_task
  room_task-Ties now later r r' e =
      elim (Bool-cases (ltb 500 ((now + 2 ^ 64 - r.tick_time) % 2 ^ 64))) [
        | inr c ↦ done_Ties r r r' (rw c at e) (Ties-refl r)
        | inl c ↦
            let (m, _, e1) = >>=-eq-done (span_monsters r.monsters) _ (rw c at e) in
            let r0 : Room = record r { monsters = m } in
            let (r1, p, e2) = >>=-eq-done (move_monsters f rotate results r0) _ e1 in
            done_Ties r (record r1 { tick_time = later }) r' e2
              (same_Ties r r1 (record r1 { tick_time = later }) refl refl
                (Ties-trans (same_Ties r r r0 refl refl (Ties-refl r))
                  (move_monsters-Ties r0 r1 p)))
      ]
