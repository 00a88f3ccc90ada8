-- ===== src/SendBuffer/Store.antt =====
-- The chunks of the process stand in one store; a `SendBufferChunkRef` is an index into it.
-- `Memory` is what one thread sees: the store, the global pool of returned chunks (its head is the
-- back of the vector), and the thread's `LSendBufferChunk`.
use bsgame_server.Base.{
  ℕ, ◌+◌, List, Option, if◌then◌else◌, ltb, leb, ◌==◌, length, take, drop, splice,
}
use bsgame_server.Base.Run.{Run, done, fault, out_of_bounds, null_pointer, ◌>>=◌, assert_that}
use bsgame_server.SendBuffer.Chunk
use bsgame_server.SendBuffer.Chunk.{Chunk, SendBuffer}

-- The chunks with an index below `count` exist.
pub record Memory : Type 0 where
  pub chunk : ℕ → Chunk
  pub count : ℕ
  pub pool : List ℕ
  pub local_chunk : Option ℕ

abbrev pub put_chunk : Memory → ℕ → Chunk → Memory
put_chunk m i c = record m { chunk = λ j. if j == i then c else m.chunk j }

-- A call through a chunk reference.
abbrev pub deref : Memory → ℕ → Run Chunk
deref m i = if ltb i m.count then done (m.chunk i) else fault null_pointer

-- `memcpy` to an offset of a chunk.
unfoldable pub store : Memory → ℕ → ℕ → List ℕ → Run Memory
store m i offset bytes = deref m i >>= λ c.
    (if ltb (length c.buffer) (offset + length bytes)
      then fault out_of_bounds
      else done (put_chunk m i (record c { buffer = splice c.buffer offset bytes })))

-- `SendBuffer::Close`.
unfoldable pub close : Memory → SendBuffer → ℕ → Run (SendBuffer × Memory)
unfolding Chunk.close
close m b write_size = assert_that (leb write_size b.alloc_size) do
  c ← deref m b.owner
  c' ← Chunk.close c write_size
  done (record b { write_size = write_size }, put_chunk m b.owner c')

-- The `WriteSize()` bytes from `Buffer()` on, which `sendmsg` reads.
unfoldable pub content : Memory → SendBuffer → List ℕ
content m b = take b.write_size (drop b.start (m.chunk b.owner).buffer)
