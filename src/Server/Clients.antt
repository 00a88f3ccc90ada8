-- ===== src/Server/Clients.antt =====
-- CoreLib/Session.cpp, `ReciveMessage`, on the sessions of the game: whole packets, or the end.
use bsgame_server.Base.{
  ℕ, ◌≤◌, ◌≡◌, refl, sym, ap, ◌∙◌, subst, List, [], ◌∷◌, ◌++◌, true, false, append-nil, length,
  take, take-all, take-nil, drop, arith,
}
use bsgame_server.Base.Int.{ℤ, int32, ◌*ℤ◌, pos, pos_part, ◌≤ℤ◌}
use bsgame_server.Base.Run.{Run, done, ◌>>=◌}
use bsgame_server.Framing
use bsgame_server.Framing.Packets.{handle_all, join}
use bsgame_server.RecvBuffer.{create, data_size, read_ptr, free_size}
use bsgame_server.RecvBuffer.Laws.{pending, free_size_lem, data_size_lem}
use bsgame_server.Session.{Session, open_session, receive_message, disconnect}
use bsgame_server.Session.Receive.{IsCleared, receive_message-IsCleared}
use bsgame_server.Handler.Requests.{Request, request_packet}
use bsgame_server.Room.Seats.{IsBelow}
use bsgame_server.Room.Task.Endless.{max_files}
use bsgame_server.Service.{Reading, receive}
use bsgame_server.Service.Table.{IsEntry, open_session-IsEntry}
use bsgame_server.Service.Loop.{Keeps}
use bsgame_server.Server.{Game, handle_game, recv_game, release_game}
use bsgame_server.Server.Inputs.{
  recv_capacity, enough, packets, AllSound, IsRequests, AllSound-AllPackets, length-packets,
}
use bsgame_server.Server.Keep.{IsRunning, handle_all-IsRunning}

-- A session of the table of which nothing is left over.
pub record IsClient (fd : ℤ) (s : Session) : Type 0 where
  pub entry : IsEntry fd s
  pub cleared : IsCleared (pos recv_capacity) s.recv_buffer
  pub below : IsBelow max_files fd

free_size-IsClient :
    (fd : ℤ) (s : Session) → IsClient fd s → free_size s.recv_buffer ≡ pos recv_capacity
free_size-IsClient fd s c =
    free_size_lem c.entry.buffer ∙ rw (c.cleared.size, c.cleared.write_start) refl

pending-IsClient : (fd : ℤ) (s : Session) → IsClient fd s → pending s.recv_buffer ≡ []
pending-IsClient fd s c =
    let empty : data_size s.recv_buffer ≡ pos 0 =
      data_size_lem c.entry.buffer ∙ ap pos (omega (arith, ap pos_part c.cleared.write_start)) in
    ap (λ n. take (pos_part n) (read_ptr s.recv_buffer)) empty

pub open_session-IsClient : (fd : ℤ) → IsBelow max_files fd → IsClient fd (open_session fd)
unfolding open_session create int32 ◌*ℤ◌
open_session-IsClient fd b = record {
  entry = open_session-IsEntry fd;
  cleared = record { read_start = refl; write_start = refl; size = refl };
  below = b;
}

-- One call of `ReciveMessage` on such a session.
module _ (fuel : ℕ) (h : enough ≤ fuel) where
  receive_nothing :
      (x : Reading) (s : Session) (g : Game)
      → x.incoming ≡ []
      → IsRunning g
      → Keeps IsClient IsRunning s (receive (recv_game fuel) release_game x s g)
  unfolding receive receive_message disconnect
  receive_nothing x s g e v = (
    false,
    disconnect s,
    g,
    ap (λ l. receive_message (recv_game fuel s.socket_fd) s l g)
        (ap (take (pos_part (free_size s.recv_buffer))) e
          ∙ take-nil (pos_part (free_size s.recv_buffer))),
    refl,
    λ q. cc,
    v,
  )

  -- Whole packets, at least one: all are handled, and nothing is left over.
  pub receive_handles :
      (x : Reading) (r : Request) (rs : List Request) (s : Session) (g : Game)
      → AllSound (r ∷ rs)
      → x.incoming ≡ join (packets (r ∷ rs))
      → length x.incoming ≤ recv_capacity
      → IsClient s.socket_fd s
      → (s' : Session) × (junk : List ℕ) × (receive (recv_game fuel) release_game x s g ≡ (
          handle_all (handle_game s.socket_fd) (packets (r ∷ rs)) junk g >>= λ g'.
          done (true, s', g')))
        × (s'.socket_fd ≡ s.socket_fd)
        × IsClient s'.socket_fd s'
  unfolding receive recv_game
  receive_handles x r rs s g sound e l c =
      let bytes = join (packets (r ∷ rs)) in
      let few : length bytes ≤ recv_capacity = omega (arith, ap length e, l) in
      let room = free_size-IsClient s.socket_fd s c in
      let (s', junk, received, valid, cleared, connected, same) =
        receive_message-IsCleared (handle_game s.socket_fd) fuel s _ (drop 1 bytes)
          (request_packet r) (packets rs) g c.entry.buffer
          (subst (λ n. pos (length bytes) ≤ℤ n) (sym room) (omega (arith, few)))
          (ap (λ l. l ++ bytes) (pending-IsClient s.socket_fd s c) ∙ sym (append-nil bytes))
          (AllSound-AllPackets (r ∷ rs) sound) (omega (arith, length-packets (r ∷ rs), few, h)) in
      (
        s',
        junk,
        ap (λ l. receive_message (Framing.on_recv (handle_game s.socket_fd) fuel) s l g)
              (take-all (pos_part (free_size s.recv_buffer)) x.incoming
                  (omega (arith, l, ap pos_part room))
                ∙ e)
            ∙ received,
        same,
        record {
          entry = record { own = refl; connected = connected ∙ c.entry.connected; buffer = valid };
          cleared = subst (λ n. IsCleared n s'.recv_buffer) c.cleared.size cleared;
          below = subst (IsBelow max_files) (sym same) c.below;
        },
      )

  receive-packets :
      (x : Reading) (r : Request) (rs : List Request) (s : Session) (g : Game)
      → AllSound (r ∷ rs)
      → x.incoming ≡ join (packets (r ∷ rs))
      → length x.incoming ≤ recv_capacity
      → IsClient s.socket_fd s
      → IsRunning g
      → Keeps IsClient IsRunning s (receive (recv_game fuel) release_game x s g)
  receive-packets x r rs s g sound e l c v =
      let (s', junk, received, same, c') = receive_handles x r rs s g sound e l c in
      let (g', handled, v') = handle_all-IsRunning s.socket_fd (r ∷ rs) junk g sound c.below v in
      (
        true,
        s',
        g',
        received ∙ ap (λ (y : Run Game). y >>= λ st'. done (true, s', st')) handled,
        same,
        λ _. c',
        v',
      )

  pub receive-IsClient :
      (x : Reading) (s : Session) (g : Game)
      → IsRequests x
      → IsClient s.socket_fd s
      → IsRunning g
      → Keeps IsClient IsRunning s (receive (recv_game fuel) release_game x s g)
  receive-IsClient x s g ([], sound, e, l) c v = receive_nothing x s g e v
  receive-IsClient x s g ((r ∷ rs), sound, e, l) c v = receive-packets x r rs s g sound e l c v
