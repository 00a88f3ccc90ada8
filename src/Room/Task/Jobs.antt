-- ===== src/Room/Task/Jobs.antt =====
-- CoreLib/JobQueue.cpp with the jobs of GameBS/BS_GameRoom.cpp: `Execute` of a room.
use bsgame_server.Base.{
  ℕ, ◌+◌, ◌≤◌, ◌<◌, ◌≡◌, refl, sym, ◌∙◌, subst, List, [], ◌∷◌, none, some, lookup, length, arith,
  inl, inr, Option-cases, Bool-cases,
}
use bsgame_server.Base.Int.{ℤ, pos}
use bsgame_server.Base.Run.{done}
use bsgame_server.JobQueue.{JobQueue, run_batch, execute, take_all, push_all, count_down}
use bsgame_server.SendBuffer.Chunk.{SendBuffer}
use bsgame_server.SendBuffer.Store.{Memory}
use bsgame_server.SendBuffer.Alloc
use bsgame_server.Session.{push_buffer}
use bsgame_server.Room.{MonsterMap, monster_hit, hit}
use bsgame_server.Room.Monsters.{monster_hit-IsValid}
use bsgame_server.Room.Sessions.{broadcast_push_message, del_session}
use bsgame_server.Room.Job.{RoomJob}
use bsgame_server.Room.State
use bsgame_server.Room.State.{Room, send_to, send_all, send_others}
use bsgame_server.Room.Moves.Keep.{length-each}
use bsgame_server.Room.Entry.{other_players, shown_monsters, enter, add_session, player_data}
use bsgame_server.Room.Task.{hit_and_tell, run_job, execute_room}
use bsgame_server.Room.Seats.{keys, IsBelow, Seated, insert-Seated, erase-Seated}
use bsgame_server.Room.Task.Keys.{
  Seats, keys-send_to, keys-send_all, keys-send_others, keys-push_all,
}
use bsgame_server.Room.Task.Valid.{
  IsRoom, length-insert, length-insert_old, length-erase, length-other_players,
  length-shown_monsters, make_load-Packs, make_player-Packs, make_my_player-Packs, send_to-IsRoom,
  send_all-IsRoom, send_others-IsRoom,
}

-- A hit takes at most 100.
abbrev pub IsFair : RoomJob → Type 0
IsFair (RoomJob.hit_monster b code fd demage) = (d : ℕ) × (demage ≡ pos d) × (d ≤ 100)
IsFair _ = Unit {0}

abbrev pub AllFair : List RoomJob → Type 0
AllFair [] = Unit {0}
AllFair (j ∷ js) = IsFair j × AllFair js

IsRoom-mono : {n k : ℕ} {r : Room} → n ≤ k → IsRoom n r → IsRoom k r
IsRoom-mono h v = record {
  monsters = v.monsters;
  few = v.few;
  crowd = omega (arith, v.crowd);
  memory = v.memory;
  ordered = v.ordered;
}

with_memory-IsRoom :
    {n : ℕ} {r : Room} (m : Memory)
    → IsRoom n r
    → Alloc.IsValid m
    → IsRoom n (record r { memory = m })
with_memory-IsRoom m v w = record {
  monsters = v.monsters;
  few = v.few;
  crowd = v.crowd;
  memory = w;
  ordered = v.ordered;
}

enter-IsRoom : {n : ℕ} {r : Room} (fd : ℤ) → IsRoom n r → IsRoom (n + 1) (enter fd r)
unfolding enter
enter-IsRoom {r = r} fd v = record {
  monsters = v.monsters;
  few = v.few;
  crowd = omega (
    arith,
    v.crowd,
    length-insert fd (elim (lookup fd r.sessions) [ none ↦ r.outside fd | some s ↦ s ]) r.sessions,
  );
  memory = v.memory;
  ordered = v.ordered;
}

enter-Seated :
    (n : ℕ) (fd : ℤ) (r : Room)
    → IsBelow n fd
    → Seated n (keys r.sessions)
    → Seated n (keys (enter fd r).sessions)
unfolding enter
enter-Seated n fd r b s =
    insert-Seated n fd (elim (lookup fd r.sessions) [ none ↦ r.outside fd | some x ↦ x ]) r.sessions
      b s

hit-few : (m : MonsterMap) (code fd d : ℤ) → length (monster_hit m code fd d).0 ≡ length m
unfolding monster_hit
hit-few m code fd d = elim (Option-cases (lookup code m)) [
  | inl e ↦ rw (e, monster_hit) refl
  | inr (x, e) ↦ rw (e, monster_hit) (length-insert_old code (hit x fd d) x m e)
]

module _ (results : ℤ → ℤ) where
  add_session-Returns :
      {n : ℕ} (fd : ℤ) (r : Room)
      → n < 1500
      → IsRoom n r
      → (r' : Room) × (add_session results fd r ≡ done r')
        × IsRoom (n + 1) r'
        × (keys r'.sessions ≡ keys (enter fd r).sessions)
  unfolding add_session
  add_session-Returns {n} fd room h v =
      let r = enter fd room in
      let w : IsRoom (n + 1) r = enter-IsRoom fd v in
      let me = player_data (r.players fd) in
      let (b1, m1, e1, v1) =
        make_load-Packs r.memory (other_players fd r.players r.sessions) (shown_monsters r.monsters)
          w.memory (omega (arith, w.crowd, length-other_players fd r.players r.sessions))
          (omega (arith, w.few, length-shown_monsters r.monsters)) in
      let (b2, m2, e2, v2) = make_player-Packs m1 me v1 in
      let (b3, m3, e3, v3) = make_my_player-Packs m2 me v2 in
      (
        record (send_to results fd b3 (send_others results b2 fd (send_to results fd b1 r))) {
          memory = m3;
        },
        rw (e1, e2, e3) refl,
        with_memory-IsRoom m3
            (send_to-IsRoom results
              (send_others-IsRoom results (send_to-IsRoom results w fd b1) b2 fd) fd b3)
            v3,
        keys-send_to results fd b3 (send_others results b2 fd (send_to results fd b1 r))
            ∙ keys-send_others results b2 fd (send_to results fd b1 r)
            ∙ keys-send_to results fd b1 r,
      )

  keys-hit_and_tell :
      (b : SendBuffer) (code fd demage : ℤ) (r : Room)
      → keys (hit_and_tell results b code fd demage r).sessions ≡ keys r.sessions
  unfolding hit_and_tell
  keys-hit_and_tell b code fd demage r =
      elim (Bool-cases (monster_hit r.monsters code fd demage).1) [
        | inl e ↦ rw e (
            keys-send_all results b
              (record r { monsters = (monster_hit r.monsters code fd demage).0 }))
        | inr e ↦ rw e refl
      ]

  hit_and_tell-IsRoom :
      {n : ℕ} (b : SendBuffer) (code fd : ℤ) (d : ℕ) (r : Room)
      → d ≤ 100
      → IsRoom n r
      → IsRoom n (hit_and_tell results b code fd (pos d) r)
  unfolding hit_and_tell
  hit_and_tell-IsRoom {n} b code fd d r h v =
      elim (Bool-cases (monster_hit r.monsters code fd (pos d)).1) [
        | inl e ↦ rw e (send_all-IsRoom results struck b)
        | inr e ↦ rw e struck
      ]
    where
      struck : IsRoom n (record r { monsters = (monster_hit r.monsters code fd (pos d)).0 })
      struck = record {
        monsters = monster_hit-IsValid code fd d h v.monsters;
        few = omega (arith, v.few, hit-few r.monsters code fd (pos d));
        crowd = v.crowd;
        memory = v.memory;
        ordered = v.ordered;
      }

  pub run_job_lem :
      {n : ℕ} (j : RoomJob) (r : Room)
      → IsFair j
      → n < 1500
      → IsRoom n r
      → (r' : Room) × (run_job results j r ≡ done (r', [])) × IsRoom (n + 1) r' × Seats j r r'
  unfolding run_job State.push_all broadcast_push_message del_session
  run_job_lem (RoomJob.add_session fd) r f h v =
      let (r', e, w, same) = add_session-Returns fd r h v in
      (r', rw e refl, w, λ k b s. subst (Seated k) (sym same) (enter-Seated k fd r b s))
  run_job_lem (RoomJob.del_session fd) r f h v = (
    record r { sessions = del_session r.sessions fd },
    refl,
    record {
      monsters = v.monsters;
      few = v.few;
      crowd = omega (arith, v.crowd, length-erase fd r.sessions);
      memory = v.memory;
      ordered = v.ordered;
    },
    λ k b s. erase-Seated k fd r.sessions s,
  )
  run_job_lem (RoomJob.broadcast_push b) r f h v = (
    State.push_all b r,
    refl,
    record {
      monsters = v.monsters;
      few = v.few;
      crowd = omega (arith, v.crowd, length-each (λ _ s. push_buffer s b) r.sessions);
      memory = v.memory;
      ordered = v.ordered;
    },
    λ k _ s. subst (Seated k) (sym (keys-push_all b r)) s,
  )
  run_job_lem (RoomJob.broadcast b) r f h v = (
    send_all results b r,
    refl,
    IsRoom-mono (omega arith) (send_all-IsRoom results v b),
    λ k _ s. subst (Seated k) (sym (keys-send_all results b r)) s,
  )
  run_job_lem (RoomJob.broadcast_another b fd) r f h v = (
    send_others results b fd r,
    refl,
    IsRoom-mono (omega arith) (send_others-IsRoom results v b fd),
    λ k _ s. subst (Seated k) (sym (keys-send_others results b fd r)) s,
  )
  run_job_lem {n} (RoomJob.hit_monster b code fd demage) r (d, e, f) h v = (
    hit_and_tell results b code fd demage r,
    refl,
    subst (λ z. IsRoom (n + 1) (hit_and_tell results b code fd z r)) (sym e)
        (IsRoom-mono (omega arith) (hit_and_tell-IsRoom b code fd d r f v)),
    λ k _ s. subst (Seated k) (sym (keys-hit_and_tell b code fd demage r)) s,
  )

  run_batch_lem :
      (js : List RoomJob) {n : ℕ} (r : Room) (q : JobQueue RoomJob)
      → AllFair js
      → n + length js ≤ 1500
      → IsRoom n r
      → (r' : Room) × (run_batch (run_job results) js r q ≡ done (r', q))
        × IsRoom (n + length js) r'
  unfolding run_batch push_all
  run_batch_lem [] r q f h v = (r, refl, IsRoom-mono (omega arith) v)
  run_batch_lem (j ∷ js) {n} r q f h v =
      let (r1, e1, v1, _) = run_job_lem j r f.0 (omega arith) v in
      let (r2, e2, v2) = run_batch_lem js r1 q f.1 (omega arith) v1 in
      (r2, rw e1 e2, IsRoom-mono (omega arith) v2)

  -- In a valid room, with hits of at most 100 among the jobs and no more than 1500 sessions and jobs,
  -- `Execute` runs all jobs to the end without a fault, empties the queue and leaves the room valid.
  pub execute_room_lem :
      {n : ℕ} (r : Room) (q : JobQueue RoomJob)
      → IsRoom n r
      → AllFair q.q
      → n + length q.q ≤ 1500
      → (r' : Room) × (q' : JobQueue RoomJob) × (execute_room results r q ≡ done (r', q'))
        × IsRoom (n + length q.q) r'
        × (q'.q ≡ [])
  unfolding execute_room execute take_all count_down
  execute_room_lem r q v f h =
      let (r', e, w) = run_batch_lem q.q r (take_all q).1 f h v in
      (r', count_down (take_all q).1 (length q.q), rw e refl, w, refl)
