-- ===== src/SendBuffer/Writer.antt =====
-- GameBS/BS_PacketHandler.h: `BufferWrite`, which fills the payload of a packet, and
-- `MakeSendBuffer`, which allocates the packet and writes its header.
use bsgame_server.Base.{
  ℕ, ◌+◌, ◌-◌, ◌^◌, List, [], ◌∷◌, Bool, true, false, none, some, if◌then◌else◌, ltb, length,
}
use bsgame_server.Base.Words.{uint16, bytes16}
use bsgame_server.Base.Run.{Run, done, fault, null_pointer, ◌>>=◌}
use bsgame_server.Framing.{header_size}
use bsgame_server.SendBuffer.Chunk.{SendBuffer}
use bsgame_server.SendBuffer.Store.{Memory, store, close}
use bsgame_server.SendBuffer.Manager

-- `_buffer` is the byte `base` of the chunk `target`.
pub record BufferWrite : Type 0 where
  pub target : ℕ
  pub base : ℕ
  pub size : ℕ
  pub at : ℕ

unfoldable pub free_size : BufferWrite → ℕ
free_size w = uint16 (w.size + 2 ^ 16 - w.at)

-- `Write(src, len)` with `len` the number of the bytes given.
unfoldable pub write : BufferWrite → List ℕ → Memory → Run (Bool × BufferWrite × Memory)
unfolding free_size
write w bytes m = if ltb (free_size w) (length bytes) then done (false, w, m) else (do
  m' ← store m w.target (w.base + w.at) bytes
  done (true, record w { at = uint16 (w.at + length bytes) }, m'))

-- A sequence of `bw.Write(…)` statements: the result of each is ignored.
unfoldable pub write_all : BufferWrite → List (List ℕ) → Memory → Run (BufferWrite × Memory)
write_all w [] m = done (w, m)
write_all w (bytes ∷ rest) m = write w bytes m >>= λ (ok, w', m'). write_all w' rest m'

-- `MakeSendBuffer`. Both fields of the header are 16 bits wide, and so is `packetSize`.
unfoldable pub make_send_buffer : Memory → ℕ → ℕ → Run (SendBuffer × Memory)
make_send_buffer m data_size packet_id =
    let packet_size = uint16 (data_size + header_size) in
    do
      (o, m1) ← Manager.open_buffer m packet_size
      b ← elim o [ none ↦ fault null_pointer | some b ↦ done b ]
      m2 ← store m1 b.owner b.start (bytes16 packet_id)
      m3 ← store m2 b.owner (b.start + 2) (bytes16 packet_size)
      close m3 b packet_size

-- The common shape of every `MakePacket`: `dataSize`, the packet id, and the fields in the order in
-- which they are written.
unfoldable pub make_packet : Memory → ℕ → ℕ → List (List ℕ) → Run (SendBuffer × Memory)
make_packet m data_size packet_id fields = do
  (b, m') ← make_send_buffer m data_size packet_id
  (w, m'') ←
      write_all
        (record { target = b.owner; base = b.start + header_size; size = data_size; at = 0 }) fields
        m'
  done (b, m'')
