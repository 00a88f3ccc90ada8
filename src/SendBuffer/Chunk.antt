-- ===== src/SendBuffer/Chunk.antt =====
-- `SendBufferChunk` and the `SendBuffer`s that it hands out: a chunk gives away its bytes from the
-- front on, one buffer at a time.
use bsgame_server.Base.{
  ℕ, ◌+◌, ◌-◌, ◌^◌, ◌%◌, List, Bool, true, false, not, Option, none, some, if◌then◌else◌, ltb, leb,
  length, replicate,
}
use bsgame_server.Base.Words.{uint32}
use bsgame_server.Base.Run.{Run, done, assert_that}

abbrev pub chunk_size : ℕ
chunk_size = 0xFFFF

-- The range `start .. start + alloc_size` of the chunk `owner`.
pub record SendBuffer : Type 0 where
  pub owner : ℕ
  pub start : ℕ
  pub alloc_size : ℕ
  pub write_size : ℕ

pub record Chunk : Type 0 where
  pub buffer : List ℕ
  pub is_open : Bool
  pub used_size : ℕ

unfoldable pub new_chunk : Chunk
new_chunk = record { buffer = replicate chunk_size 0; is_open = false; used_size = 0 }

unfoldable pub reset : Chunk → Chunk
reset c = record c { is_open = false; used_size = 0 }

unfoldable pub free_size : Chunk → ℕ
free_size c = (uint32 (length c.buffer) + 2 ^ 32 - c.used_size) % 2 ^ 32

-- `Open`. `nullptr` is `none`; `self` is the chunk's own reference.
unfoldable pub open_buffer : ℕ → Chunk → ℕ → Run (Option SendBuffer × Chunk)
unfolding free_size
open_buffer self c alloc_size = assert_that (leb alloc_size chunk_size) (
    assert_that (not c.is_open) (
      if ltb (free_size c) alloc_size
      then done (none, c)
      else done (some buffer, record c { is_open = true })))
  where
    buffer : SendBuffer
    buffer = record { owner = self; start = c.used_size; alloc_size = alloc_size; write_size = 0 }

unfoldable pub close : Chunk → ℕ → Run Chunk
close c write_size =
    assert_that c.is_open
      (done (record c { is_open = false; used_size = uint32 (c.used_size + write_size) }))
