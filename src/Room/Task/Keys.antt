-- ===== src/Room/Task/Keys.antt =====
-- GameBS/BS_GameRoom.cpp: which sessions are in a room after a message or a job.
use bsgame_server.Base.{ℕ, ◌≡◌, refl, lookup, inl, inr, Option-cases, if◌then◌else◌}
use bsgame_server.Base.Int.{ℤ, eqb_ℤ}
use bsgame_server.SendBuffer.Chunk.{SendBuffer}
use bsgame_server.Session.{send, push_buffer}
use bsgame_server.Room.Job.{RoomJob}
use bsgame_server.Room.Sessions.{broadcast, broadcast_another, broadcast_push_message}
use bsgame_server.Room.State.{Room, send_to, send_all, send_others}
use bsgame_server.Room.State
use bsgame_server.Room.Seats.{keys, IsBelow, Seated, keys-each, keys-insert_old}

pub keys-send_to :
    (results : ℤ → ℤ) (fd : ℤ) (b : SendBuffer) (r : Room)
    → keys (send_to results fd b r).sessions ≡ keys r.sessions
unfolding send_to
keys-send_to results fd b r = elim (Option-cases (lookup fd r.sessions)) [
  | inl e ↦ rw (e, send_to) refl
  | inr (s, e) ↦ rw (e, send_to) (keys-insert_old fd (send (results fd) s b).2 s r.sessions e)
]

pub keys-send_all :
    (results : ℤ → ℤ) (b : SendBuffer) (r : Room)
    → keys (send_all results b r).sessions ≡ keys r.sessions
unfolding send_all broadcast
keys-send_all results b r = keys-each (λ k s. (send (results k) s b).2) r.sessions

pub keys-send_others :
    (results : ℤ → ℤ) (b : SendBuffer) (fd : ℤ) (r : Room)
    → keys (send_others results b fd r).sessions ≡ keys r.sessions
unfolding send_others broadcast_another
keys-send_others results b fd r =
    keys-each (λ k s. if eqb_ℤ fd k then s else (send (results k) s b).2) r.sessions

pub keys-push_all :
    (b : SendBuffer) (r : Room) → keys (State.push_all b r).sessions ≡ keys r.sessions
unfolding State.push_all broadcast_push_message
keys-push_all b r = keys-each (λ _ s. push_buffer s b) r.sessions

-- A session that a job brings has a descriptor below `n`.
abbrev pub Brings : ℕ → RoomJob → Type 0
Brings n (RoomJob.add_session fd) = IsBelow n fd
Brings n _ = Unit {0}

-- A job that keeps the sessions apart, and their descriptors below what it brings.
abbrev pub Seats : RoomJob → Room → Room → Type 0
Seats j r r' = (n : ℕ) → Brings n j → Seated n (keys r.sessions) → Seated n (keys r'.sessions)
