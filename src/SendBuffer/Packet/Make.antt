-- ===== src/SendBuffer/Packet/Make.antt =====
-- `MakePacket` of GameBS/BS_PacketHandler.h: the header and the fields together.
use bsgame_server.Base.{ℕ, ◌+◌, ◌≤◌, ◌≡◌, refl, subst, List, ◌++◌, arith, some}
use bsgame_server.Base.Words.{bytes16}
use bsgame_server.Base.Run.{done}
use bsgame_server.Framing.{header_size}
use bsgame_server.Framing.Packets.{join}
use bsgame_server.SendBuffer.Manager
use bsgame_server.SendBuffer.Chunk.{SendBuffer, chunk_size}
use bsgame_server.SendBuffer.Store.{Memory}
use bsgame_server.SendBuffer.Writer.{make_packet}
use bsgame_server.SendBuffer.Alloc.{IsValid, Opened}
use bsgame_server.SendBuffer.Frame.{
  Frame, Frame-trans, At, fit, stored, store-stored, stored-Frame, stored-Holds, write_all_lem,
}
use bsgame_server.SendBuffer.Frame
use bsgame_server.SendBuffer.Alloc.Open.{open_buffer-Opened}
use bsgame_server.SendBuffer.Packet.{packet_bytes, Packet}
use bsgame_server.SendBuffer.Packet.Header.{
  ready, made, made_chunk, made-Holds, make_send_buffer_lem,
}
use bsgame_server.SendBuffer.Packet.After.{after-IsValid, before, after_stays, after-Live}

module _ {m m1 : Memory} {b : SendBuffer} (d id : ℕ) (o : Opened m (d + header_size) b m1) where
  -- The fields are written behind the header, within the buffer.
  filled :
      (fields : List (List ℕ))
      → d + header_size ≤ chunk_size
      → Manager.open_buffer m (d + header_size) ≡ done (some b, m1)
      → (m' : Memory) × (make_packet m d id fields ≡ done (ready d id o, m'))
        × Frame b.owner b.start (made d id o) m'
        × Frame.Holds m' b.owner b.start (packet_bytes id d fields)
  unfolding make_packet ready
  filled fields h e =
      let (l, c, u, n, p, w) = made_chunk d id o in
      let (w', m', s, f, k) =
        write_all_lem fields
          (record { target = b.owner; base = b.start + header_size; size = d; at = 0 })
          (made d id o) b.start b.start (bytes16 id ++ bytes16 (d + header_size))
          (record { position = omega arith; within = omega arith; word = omega arith })
          (omega (arith, n, o)) (omega arith) (omega (arith, l, o)) (made-Holds d id o) in
      (
        m',
        rw (make_send_buffer_lem d id o h e, s) refl,
        f,
        subst
            (λ r.
              Frame.Holds m' b.owner b.start
                ((bytes16 id ++ bytes16 (d + header_size)) ++ join (fit r fields)))
            (omega arith) k,
      )

-- On a valid store, `MakePacket` with a payload of at most 65531 bytes never fails. The new
-- packet is its header and the fields, in order, of which each is passed over that does not fit
-- into what the others have left of `dataSize`. The store stays valid. Every buffer that is
-- still referenced keeps its bytes, and shares none with the packet.
pub make_packet_lem :
    (m : Memory) (d id : ℕ) (fields : List (List ℕ))
    → IsValid m
    → d + header_size ≤ chunk_size
    → (b : SendBuffer) × (m' : Memory) × (make_packet m d id fields ≡ done (b, m'))
      × Packet m d id fields b m'
unfolding ready
make_packet_lem m d id fields v h =
    let (b, m1, e, o) = open_buffer-Opened m (d + header_size) v h in
    let (m', s, f, k) = filled d id o fields h e in
    (
      ready d id o,
      m',
      s,
      record {
        valid = after-IsValid d id o f;
        size = refl;
        bytes = k;
        live = after-Live d id o f;
        stays = after_stays d id o f;
        apart = before d id o f;
      },
    )
