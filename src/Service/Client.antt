-- ===== src/Service/Client.antt =====
-- From `epoll_wait` to the room: CoreLib/Service.cpp, `ReadClient`, with `OnRecv` and `HandlePacket` of
-- GameBS/BS_GameSession.cpp and `ReleaseSessionMesssage` of GameBS/BS_GameServerService.cpp.
use bsgame_server.Base.{
  ℕ, ◌<◌, ◌≡◌, refl, ap₂, ◌∙◌, subst, List, [], ◌∷◌, ◌++◌, Bool, true, some, lookup, insert,
  lookup-insert, length, take, take-all, arith, inl, inr,
}
use bsgame_server.Base.Int.{ℤ, pos, pos_part, ◌≤ℤ◌, eqb_ℤ_self}
use bsgame_server.Base.Words.{bytes16, bytes32}
use bsgame_server.Base.Run.{Run, done, ◌>>=◌, Run-cases}
use bsgame_server.RecvBuffer.{free_size}
use bsgame_server.RecvBuffer.Laws.{pending}
use bsgame_server.Framing
use bsgame_server.Framing.Packets.{AllPackets, IsPartial, join, handle_all}
use bsgame_server.Handler.{World, handle_packet}
use bsgame_server.JobQueue.{JobQueue}
use bsgame_server.Packets.{int_field}
use bsgame_server.SendBuffer.Alloc
use bsgame_server.Session.{Session, receive_message}
use bsgame_server.Session.Receive.{receive_message_lem}
use bsgame_server.Service.{Service, Reading, receive, read_loop, read_session, read_client}
use bsgame_server.Service.Table.{IsEntry, get_session-some}
use bsgame_server.Service.Game.{release_session_message}

-- `OnRecv` of the session with a descriptor; `fuel` bounds the rounds of its loop.
unfoldable pub on_recv : ℕ → ℤ → List ℕ → ℕ → World → Run (World × ℕ)
on_recv fuel fd buffer len w = Framing.on_recv (handle_packet fd) fuel buffer len w

-- `ReadClient` of the game server.
unfoldable pub read_game_client : ℕ → ℤ → List Reading → Service → World → Run (Service × World)
unfolding on_recv
read_game_client fuel fd reads v w = read_client (on_recv fuel) release_session_message fd reads v w

take_free :
    (s : Session) (bytes : List ℕ)
    → pos (length bytes) ≤ℤ free_size s.recv_buffer
    → take (pos_part (free_size s.recv_buffer)) bytes ≡ bytes
take_free s bytes h = take-all (pos_part (free_size s.recv_buffer)) bytes (omega (arith, h))

receive_lem :
    (fuel : ℕ) (fd : ℤ) (s : Session) (bytes : List ℕ) (w : World)
    (call : Run (Bool × Session × World))
    → s.socket_fd ≡ fd
    → pos (length bytes) ≤ℤ free_size s.recv_buffer
    → receive_message (Framing.on_recv (handle_packet fd) fuel) s bytes w ≡ call
    → receive
        (on_recv fuel)
        release_session_message
        (record { incoming = bytes; would_block = true })
        s
        w
      ≡ call
unfolding receive on_recv
receive_lem fuel fd s bytes w call own h e =
    ap₂ (λ k l. receive_message (Framing.on_recv (handle_packet k) fuel) s l w) own
      (take_free s bytes h)
    ∙ e

-- One call of `recv`, after which the loop ends.
read_loop-one :
    (fuel : ℕ) (x : Reading) (s s' : Session) (v : Service) (w : World) (call : Run World)
    → x.would_block ≡ true
    → receive (on_recv fuel) release_session_message x s w ≡ (call >>= λ w'. done (true, s', w'))
    → read_loop (on_recv fuel) release_session_message (x ∷ []) s v w ≡ (
        call >>= λ w'.
        done (record v { session_map = insert s'.socket_fd (some s') v.session_map }, w'))
unfolding read_loop
read_loop-one fuel x s s' v w call b e = elim (Run-cases call) [
  | inl (w', q) ↦ simp (e, q, b) refl
  | inr (y, q) ↦ simp (e, q) refl
]

-- A client of the table has sent bytes that the buffer has room for. With what was left from before they
-- are whole packets, at least one, and the start of another; `errno` is EAGAIN after this call of `recv`.
-- Then `ReadClient` hands each whole packet to `HandlePacket`, in order, and faults only if that does; the
-- session stays in the table, connected, and keeps exactly the bytes of the unfinished packet.
pub read_game_client_lem :
    (fuel : ℕ) (fd : ℤ) (s : Session) (b : ℕ) (bytes p : List ℕ) (ps : List (List ℕ))
    (rest : List ℕ) (v : Service) (w : World)
    → lookup fd v.session_map ≡ some (some s)
    → IsEntry fd s
    → pos (length (b ∷ bytes)) ≤ℤ free_size s.recv_buffer
    → pending s.recv_buffer ++ (b ∷ bytes) ≡ join (p ∷ ps) ++ rest
    → AllPackets (p ∷ ps)
    → IsPartial rest
    → length (p ∷ ps) < fuel
    → (s' : Session) × (junk : List ℕ) × (v' : Service) × (read_game_client fuel fd
          (record { incoming = b ∷ bytes; would_block = true } ∷ [])
          v
          w
        ≡ (handle_all (handle_packet fd) (p ∷ ps) (rest ++ junk) w >>= λ w'. done (v', w')))
      × (lookup fd v'.session_map ≡ some (some s'))
      × IsEntry fd s'
      × (pending s'.recv_buffer ≡ rest)
unfolding read_game_client read_client read_session
read_game_client_lem fuel fd s b bytes p ps rest v w e n h stream all part f =
    let (s', junk, received, valid, left, connected, sends, same) =
      receive_message_lem (handle_packet fd) fuel s b bytes p ps rest w n.buffer h stream all part
        f in
    let own = same ∙ n.own in
    (
      s',
      junk,
      record v { session_map = insert s'.socket_fd (some s') v.session_map },
      rw (get_session-some fd (some s) v e) (
          read_loop-one fuel (record { incoming = b ∷ bytes; would_block = true }) s s' v w
            (handle_all (handle_packet fd) (p ∷ ps) (rest ++ junk) w) refl
            (receive_lem fuel fd s (b ∷ bytes) w _ n.own h received)),
      subst (λ k. lookup k (insert s'.socket_fd (some s') v.session_map) ≡ some (some s')) own
          (lookup-insert s'.socket_fd s'.socket_fd (some s') v.session_map
            ∙ rw (eqb_ℤ_self s'.socket_fd) refl),
      record { own = own; connected = connected ∙ n.connected; buffer = valid },
      left,
    )

-- Packet 3 of a client.
abbrev pub move_packet : ℤ → ℤ → ℤ → ℕ → List ℕ
move_packet x y z yaw =
    bytes16 3
    ++ (bytes16 20 ++ (int_field x ++ (int_field y ++ (int_field z ++ (bytes32 yaw ++ [])))))
