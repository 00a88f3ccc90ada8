-- ===== src/Room/State.antt =====
-- GameBS/BS_GameRoom.h: what a room keeps.
use bsgame_server.Base.{ℕ, List, [], ◌∷◌, ◌++◌, none, some, lookup, insert}
use bsgame_server.Base.Int.{ℤ}
use bsgame_server.MapInfo.{Rect}
use bsgame_server.Units.{UnitInfo}
use bsgame_server.SendBuffer.Chunk.{SendBuffer}
use bsgame_server.SendBuffer.Store.{Memory}
use bsgame_server.Session.{Session, send}
use bsgame_server.Room.{MonsterMap}
use bsgame_server.Room.Sessions.{SessionMap, broadcast, broadcast_another, broadcast_push_message}

-- `players fd` is the player of the session `fd`; the packets of a client change it while the room
-- holds the session. `outside fd` is the session `fd` as long as it is not in the room. `sent` lists
-- what each `sendmsg` was given.
pub record Room : Type 0 where
  pub monsters : MonsterMap
  pub sessions : SessionMap
  pub outside : ℤ → Session
  pub players : ℤ → UnitInfo
  pub map : Rect
  pub tick : ℤ
  pub tick_time : ℕ
  pub memory : Memory
  pub sent : List (ℤ × List SendBuffer)

-- `gameSession->Send(buffer)` for one session of the room. `results` says what `sendmsg` returns.
unfoldable pub send_to : (ℤ → ℤ) → ℤ → SendBuffer → Room → Room
send_to results fd b r = elim (lookup fd r.sessions) [
  | none ↦ r
  | some s ↦
      let (ok, out, s') = send (results fd) s b in
      record r { sessions = insert fd s' r.sessions; sent = r.sent ++ ((fd, out) ∷ []) }
]

-- The broadcasts, with what they send.
unfoldable pub send_all : (ℤ → ℤ) → SendBuffer → Room → Room
send_all results b r =
    let (sessions, out) = broadcast results b r.sessions in
    record r { sessions = sessions; sent = r.sent ++ out }

unfoldable pub send_others : (ℤ → ℤ) → SendBuffer → ℤ → Room → Room
send_others results b fd r =
    let (sessions, out) = broadcast_another results b fd r.sessions in
    record r { sessions = sessions; sent = r.sent ++ out }

unfoldable pub push_all : SendBuffer → Room → Room
push_all b r = record r { sessions = broadcast_push_message b r.sessions }
