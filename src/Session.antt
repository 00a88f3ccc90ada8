-- ===== src/Session.antt =====
-- CoreLib/Session.h, CoreLib/Session.cpp: one client's connection, with its receive buffer and the
-- buffers that wait for the next `sendmsg`.
pub mod Process
pub mod Receive
pub mod Ending
pub mod Sending
mod Tests
use bsgame_server.Base.{ℕ, List, [], ◌∷◌, ◌++◌, Bool, true, false, not, ◌||◌, if◌then◌else◌, length}
use bsgame_server.Base.Int.{ℤ, pos, pos_part, ltb_ℤ, leb_ℤ}
use bsgame_server.Base.Run.{Run, done, ◌>>=◌}
use bsgame_server.RecvBuffer.{
  RecvBuffer, create, data_size, read_ptr, clean, on_read, on_write, fill,
}
use bsgame_server.SendBuffer.Chunk.{SendBuffer}

pub record Session : Type 0 where
  pub socket_fd : ℤ
  pub connected : Bool
  pub recv_buffer : RecvBuffer
  pub send_buffers : List SendBuffer

-- `Session(socketFd)`, with a receive buffer for `BUFFER_SIZE` and `Connect()`.
unfoldable pub open_session : ℤ → Session
open_session socket_fd = record {
  socket_fd = socket_fd;
  connected = true;
  recv_buffer = create (pos 0x10000);
  send_buffers = [];
}

unfoldable pub push_buffer : Session → SendBuffer → Session
push_buffer s b = record s { send_buffers = s.send_buffers ++ (b ∷ []) }

-- `Send`. `result` is what `sendmsg` returns. The second part is what `sendmsg` is given, if it is
-- called.
unfoldable pub send : ℤ → Session → SendBuffer → Bool × List SendBuffer × Session
unfolding push_buffer
send result s b =
    if s.connected
    then (
      (if leb_ℤ result (pos 0) then false else true),
      (push_buffer s b).send_buffers,
      record s { send_buffers = [] },
    )
    else (false, [], s)

unfoldable pub disconnect : Session → Session
disconnect s = record s { recv_buffer = clean s.recv_buffer; send_buffers = []; connected = false }

-- The virtual `OnRecv` acts on a state `S`, and is given the array from the unread bytes on and their
-- number.
module _ {ℓ} {S : Type ℓ} (on_recv : List ℕ → ℕ → S → Run (S × ℕ)) where
  -- `ReciveMessage` once the bytes are in the buffer.
  unfoldable pub process : Session → S → Run (Bool × Session × S)
  process s st =
      let size = data_size s.recv_buffer in
      on_recv (read_ptr s.recv_buffer) (pos_part size) st >>= λ (st', process_len).
      (let (ok, r) = on_read s.recv_buffer (pos process_len) in
        let read : Session = record s { recv_buffer = r } in
        if not ok || leb_ℤ (pos process_len) (pos 0) || ltb_ℤ size (pos process_len)
        then done (false, disconnect read, st')
        else done (true, record read { recv_buffer = clean r }, st'))

  -- `ReciveMessage`, with the bytes that `recv` stores; there are none when it returns 0 or fails.
  unfoldable pub receive_message : Session → List ℕ → S → Run (Bool × Session × S)
  unfolding process disconnect
  receive_message s [] st = done (false, disconnect s, st)
  receive_message s (b ∷ bytes) st =
      let (ok, r) = on_write (fill s.recv_buffer (b ∷ bytes)) (pos (length (b ∷ bytes))) in
      let written : Session = record s { recv_buffer = r } in
      if ok then process written st else done (false, disconnect written, st)
