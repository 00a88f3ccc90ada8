-- ===== src/Packets/Padded.antt =====
-- `MakePacket` of GameBS/BS_PacketHandler.h where the fields that are written do not fill the packet.
use bsgame_server.Base.{
  ℕ, ◌+◌, ◌-◌, ◌≤◌, ◌≡◌, ap, ◌∙◌, List, ◌++◌, arith, length, take, length-append, length-take,
  length-drop, take-append_add,
}
use bsgame_server.Base.Words.{bytes16}
use bsgame_server.Framing.{header_size}
use bsgame_server.Framing.Packets.{join}
use bsgame_server.SendBuffer.Chunk.{SendBuffer}
use bsgame_server.SendBuffer.Store.{Memory, content}
use bsgame_server.SendBuffer.Frame.{fit}
use bsgame_server.SendBuffer.Packet.{Packet, packet_bytes}
use bsgame_server.Packets.Layout.{fit_all}

-- What `sendmsg` reads of a packet: the header, the fields that `Write` has accepted, and then bytes that
-- were there before.
padded_content :
    {m : Memory} {d id : ℕ} {fields : List (List ℕ)} {b : SendBuffer} {m' : Memory}
    → Packet m d id fields b m'
    → length (join (fit d fields)) ≤ d
    → (rest : List ℕ) × (content m' b ≡ packet_bytes id d fields ++ rest)
      × (length rest ≡ d - length (join (fit d fields)))
unfolding content
padded_content {d = d} {id = id} {fields = fields} {b = b} {m' = m'} p h =
    let bytes = packet_bytes id d fields in
    let (rest, e) = p.bytes in
    let idle = p.valid.idle b.owner p.live.0.0 in
    let left = d - length (join (fit d fields)) in
    let total : length bytes ≡ 4 + length (join (fit d fields)) =
      length-append (bytes16 id ++ bytes16 (d + header_size)) (join (fit d fields)) in
    let enough : left ≤ length rest = omega (
      arith,
      p.size,
      idle.full,
      idle.used,
      p.live.1,
      total,
      ap length e,
      length-drop b.start (m'.chunk b.owner).buffer,
      length-append bytes rest,
    ) in
    (
      take left rest,
      ap (take b.write_size) e
          ∙ ap (λ n. take n (bytes ++ rest)) (omega (arith, p.size, total))
          ∙ take-append_add left bytes rest,
      omega (arith, length-take left rest, enough),
    )

-- The fields fit, and need not fill the packet.
pub fitting_content :
    {m : Memory} {d id : ℕ} {fields : List (List ℕ)} {b : SendBuffer} {m' : Memory}
    → Packet m d id fields b m'
    → length (join fields) ≤ d
    → (rest : List ℕ) × (content m' b
        ≡ ((bytes16 id ++ bytes16 (d + header_size)) ++ join fields) ++ rest)
      × (length rest ≡ d - length (join fields))
fitting_content {d = d} {id = id} {fields = fields} p h =
    let all : fit d fields ≡ fields = fit_all fields d h in
    let (rest, c, l) = padded_content p (omega (arith, h, ap (λ fs. length (join fs)) all)) in
    (
      rest,
      c ∙ ap (λ fs. ((bytes16 id ++ bytes16 (d + header_size)) ++ join fs) ++ rest) all,
      l ∙ ap (λ fs. d - length (join fs)) all,
    )
