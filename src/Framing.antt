-- ===== src/Framing.antt =====
-- GameBS/BS_GameSession.cpp, `BS_GameSession::OnRecv`: the bytes received are cut into packets by
-- the `size` field of each `PacketHeader` (CoreLib/PacketHeader.h).
pub mod Packets
mod Tests
use bsgame_server.Base.{ℕ, zero, suc, ◌+◌, ◌-◌, List, Option, if◌then◌else◌, ltb, drop}
use bsgame_server.Base.Words.{word16}
use bsgame_server.Base.Run.{Run, done, fault, out_of_fuel, ◌>>=◌, read}

-- `sizeof(PacketHeader)`: `id` and `size`, two bytes each.
abbrev pub header_size : ℕ
header_size = 4

-- `header->size` of the packet at the front of an array.
unfoldable pub packet_size : List ℕ → Option ℕ
packet_size buffer = word16 (drop 2 buffer)

-- `HandlePacket` acts on a state `S`; it is given the array from the packet on, and the size.
module _ {ℓ} {S : Type ℓ} (handle_packet : List ℕ → ℕ → S → Run S) where
  -- The `while (true)` loop. `fuel` bounds its rounds.
  unfoldable pub on_recv_loop : ℕ → List ℕ → ℕ → ℕ → S → Run (S × ℕ)
  unfolding packet_size
  on_recv_loop zero buffer len use_len s = fault out_of_fuel
  on_recv_loop (suc fuel) buffer len use_len s =
      let data_size = len - use_len in
      let packet = read (packet_size (drop use_len buffer)) >>= λ size.
      (let rest = handle_packet (drop use_len buffer) size s >>= λ s'.
      on_recv_loop fuel buffer len (use_len + size) s' in
        if ltb data_size size then done (s, use_len) else rest) in
      if ltb data_size header_size then done (s, use_len) else packet

  unfoldable pub on_recv : ℕ → List ℕ → ℕ → S → Run (S × ℕ)
  unfolding on_recv_loop
  on_recv fuel buffer len s = on_recv_loop fuel buffer len 0 s
