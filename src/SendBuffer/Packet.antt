-- ===== src/SendBuffer/Packet.antt =====
-- What a packet that `MakePacket` (GameBS/BS_PacketHandler.h) makes is to be: its bytes, and its
-- place among the live buffers.
pub mod Header
pub mod After
pub mod Make
use bsgame_server.Base.{
  ℕ, ◌+◌, ◌-◌, ◌^◌, ◌≤◌, ◌<◌, ◌≡◌, refl, sym, ap, ◌∙◌, subst, ◌≢◌, List, [], ◌++◌, true, false,
  arith, some, length, take, drop, drop-take, take-take,
}
use native.Mathlib.Decide.{ℕ_discrete}
use native.Mathlib.Nat.{mod-eq_of_lt}
use bsgame_server.Base.Words.{bytes16, uint32}
use bsgame_server.Base.Run.{done}
use bsgame_server.Framing.{header_size}
use bsgame_server.Framing.Packets.{join}
use bsgame_server.SendBuffer.Chunk
use bsgame_server.SendBuffer.Manager
use bsgame_server.SendBuffer.Chunk.{Chunk, SendBuffer, chunk_size}
use bsgame_server.SendBuffer.Store
use bsgame_server.SendBuffer.Store.{Memory, put_chunk, content}
use bsgame_server.SendBuffer.Writer.{make_send_buffer, make_packet}
use bsgame_server.SendBuffer.Alloc.{IsValid, IsIdle, InUse, All, Distinct, Opened}
use bsgame_server.SendBuffer.Frame.{
  Frame, Frame-trans, At, fit, stored, store-stored, stored-Frame, stored-Holds, write_all_lem,
}
use bsgame_server.SendBuffer.Frame

-- A buffer that a reference still names: its chunk is in use, and its bytes are counted as used.
abbrev pub Live : Memory → SendBuffer → Type 0
Live m c = InUse m c.owner × (c.start + c.write_size ≤ (m.chunk c.owner).used_size)

-- What a packet's chunk holds from the packet on: the header, then the fields that fit.
abbrev pub packet_bytes : ℕ → ℕ → List (List ℕ) → List ℕ
packet_bytes id data_size fields =
    (bytes16 id ++ bytes16 (data_size + header_size)) ++ join (fit data_size fields)

pub record Packet (m : Memory) (data_size id : ℕ) (fields : List (List ℕ)) (b : SendBuffer)
    (m' : Memory) : Type 0 where
  pub valid : IsValid m'
  pub size : b.write_size ≡ data_size + header_size
  pub bytes : Frame.Holds m' b.owner b.start (packet_bytes id data_size fields)
  pub live : Live m' b
  pub stays : (c : SendBuffer) → Live m c → Live m' c × (content m' c ≡ content m c)
  pub apart : (c : SendBuffer) → Live m c → c.owner ≡ b.owner → c.start + c.write_size ≤ b.start
