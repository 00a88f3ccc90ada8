-- ===== src/SendBuffer/Manager.antt =====
-- `SendBufferManager`: each thread cuts its buffers from one chunk, and changes the chunk when the
-- next buffer does not fit.
use bsgame_server.Base.{ℕ, ◌+◌, [], ◌∷◌, not, Option, none, some, if◌then◌else◌, ltb, ◌==◌}
use bsgame_server.Base.Run.{Run, done, ◌>>=◌, assert_that}
use bsgame_server.SendBuffer.Chunk
use bsgame_server.SendBuffer.Chunk.{SendBuffer}
use bsgame_server.SendBuffer.Store.{Memory, put_chunk, deref}

-- The most recently returned chunk, or a new one.
unfoldable pub pop : Memory → ℕ × Memory
pop m = elim m.pool [
  | [] ↦ (
    m.count,
    record m {
      chunk = λ j. if j == m.count then Chunk.new_chunk else m.chunk j;
      count = m.count + 1;
    },
  )
  | c ∷ rest ↦ (c, record m { pool = rest })
]

-- `LSendBufferChunk = Pop(); LSendBufferChunk->Reset();`
unfoldable pub take_chunk : Memory → Run (ℕ × Memory)
unfolding pop Chunk.reset
take_chunk m =
    let (i, m') = pop m in
    do c ← deref m' i; done (i, record (put_chunk m' i (Chunk.reset c)) { local_chunk = some i })

-- The thread's chunk, taken from the pool at the first call.
unfoldable pub chunk_of : Option ℕ → Memory → Run (ℕ × Memory)
unfolding take_chunk
chunk_of none m = take_chunk m
chunk_of (some i) m = done (i, m)

unfoldable pub current : Memory → Run (ℕ × Memory)
unfolding chunk_of
current m = chunk_of m.local_chunk m

unfoldable pub open_buffer : Memory → ℕ → Run (Option SendBuffer × Memory)
unfolding current take_chunk Chunk.open_buffer Chunk.free_size
open_buffer m size = do
  (i, m') ← current m
  c ← deref m' i
  (j, m'') ←
      assert_that (not c.is_open)
        (if ltb (Chunk.free_size c) size then take_chunk m' else done (i, m'))
  c' ← deref m'' j
  (b, c'') ← Chunk.open_buffer j c' size
  done (b, put_chunk m'' j c'')
