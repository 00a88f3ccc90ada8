-- ===== src/SendBuffer/Tests.antt =====
-- Packets made by a thread that has no chunk yet, and one cut from a small chunk.
use bsgame_server.Base.{ℕ, ◌≡◌, refl, ◌<◌, ◌+◌, List, [], ◌∷◌, some, false, arith}
use bsgame_server.Base.Run.{Run, done, fault}
use bsgame_server.Framing.{header_size}
use bsgame_server.SendBuffer.Chunk
use bsgame_server.SendBuffer.Chunk.{SendBuffer}
use bsgame_server.SendBuffer.Store
use bsgame_server.SendBuffer.Store.{content, Memory, store}
use bsgame_server.SendBuffer.Manager
use bsgame_server.SendBuffer.Writer.{make_packet, make_send_buffer}
use bsgame_server.SendBuffer.Alloc.{no_chunks, no_chunks-IsValid, Opened}
use bsgame_server.SendBuffer.Alloc.Open.{open_buffer-Opened}
use bsgame_server.SendBuffer.Packet.{Packet}
use bsgame_server.SendBuffer.Packet.Make.{make_packet_lem}
use bsgame_server.SendBuffer.Wrap.{oversized_packet}

abbrev fields : List (List ℕ)
fields = (1 ∷ 2 ∷ []) ∷ (3 ∷ []) ∷ (4 ∷ 5 ∷ []) ∷ []

make_packet_lem_example :
    (b : SendBuffer) × (m' : Memory) × (make_packet no_chunks 3 7 fields ≡ done (b, m'))
    × Packet no_chunks 3 7 fields b m'
make_packet_lem_example = make_packet_lem no_chunks 3 7 fields no_chunks-IsValid (omega arith)

open_buffer-Opened_example :
    (b : SendBuffer) × (m' : Memory) × (Manager.open_buffer no_chunks 12 ≡ done (some b, m'))
    × Opened no_chunks 12 b m'
open_buffer-Opened_example = open_buffer-Opened no_chunks 12 no_chunks-IsValid (omega arith)

-- One chunk of eight bytes.
abbrev small_memory : List ℕ → ℕ → Memory
small_memory buffer used = record {
  chunk = λ _. record { buffer = buffer; is_open = false; used_size = used };
  count = 1;
  pool = [];
  local_chunk = some 0;
}

abbrev eight : List ℕ
eight = 0 ∷ 0 ∷ 0 ∷ 0 ∷ 0 ∷ 0 ∷ 0 ∷ 0 ∷ []

abbrev tiny : SendBuffer
tiny = record { owner = 0; start = 0; alloc_size = 2; write_size = 2 }

memory_of : Run (SendBuffer × Memory) → Memory
memory_of (done (b, m)) = m
memory_of (fault e) = no_chunks

tiny_memory : (m' : Memory) × (make_send_buffer (small_memory eight 0) 65534 4 ≡ done (tiny, m'))
unfolding memory_of make_send_buffer Manager.open_buffer Manager.current Manager.chunk_of
    Chunk.open_buffer Chunk.free_size store Store.close Chunk.close
tiny_memory = (memory_of (make_send_buffer (small_memory eight 0) 65534 4), refl)

oversized_packet_example : (tiny.write_size < header_size) × (tiny.write_size + 65532 ≡ 65534)
oversized_packet_example =
    oversized_packet (small_memory eight 0) tiny_memory.0 65534 4 tiny (omega arith) (omega arith)
      tiny_memory.1
