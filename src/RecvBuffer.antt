-- ===== src/RecvBuffer.antt =====
-- CoreLib/RecvBuffer.h, CoreLib/RecvBuffer.cpp: the receive buffer of a session.
-- `int` fields are `int32` values; `buffer` is `std::vector<unsigned char>`, and a pointer into it
-- is the rest of the array from there on.
pub mod Laws
pub mod Pending
pub mod Queue
mod Tests
use bsgame_server.Base.{
  ℕ, ◌+◌, List, ◌++◌, Bool, true, false, if◌then◌else◌, length, take, drop, replicate,
}
use bsgame_server.Base.Int.{ℤ, pos, pos_part, ltb_ℤ, eqb_ℤ, int32, ◌*ℤ◌, add_int32, sub_int32}

pub record RecvBuffer : Type 0 where
  pub capacity : ℤ
  pub buffer_size : ℤ
  pub read_pos : ℤ
  pub write_pos : ℤ
  pub buffer : List ℕ

abbrev pub buffer_count : ℤ
buffer_count = pos 10

-- The constructor sets the capacity and leaves `_bufferSize` at its initial 0.
unfoldable pub create : ℤ → RecvBuffer
create buffer_size = record {
  capacity = capacity;
  buffer_size = pos 0;
  read_pos = pos 0;
  write_pos = pos 0;
  buffer = replicate (pos_part capacity) 0;
}
  where
    capacity : ℤ
    capacity = int32 (buffer_size *ℤ buffer_count)

unfoldable pub data_size : RecvBuffer → ℤ
data_size r = sub_int32 r.write_pos r.read_pos

unfoldable pub free_size : RecvBuffer → ℤ
free_size r = sub_int32 r.capacity r.write_pos

-- What `ReadPos()` points to.
unfoldable pub read_ptr : RecvBuffer → List ℕ
read_ptr r = drop (pos_part r.read_pos) r.buffer

-- `::memcpy(&_buffer[0], &_buffer[_readPos], dataSize)`.
unfoldable pub move_down : List ℕ → ℕ → ℕ → List ℕ
move_down buffer from n = take n (drop from buffer) ++ drop n buffer

-- Both cursors go back to the start.
unfoldable pub reset : RecvBuffer → RecvBuffer
reset r = record r { read_pos = pos 0; write_pos = pos 0 }

-- The unread bytes move to the front.
unfoldable pub compact : RecvBuffer → RecvBuffer
unfolding move_down
compact r = record r {
  buffer = move_down r.buffer (pos_part r.read_pos) (pos_part (data_size r));
  read_pos = pos 0;
  write_pos = data_size r;
}

unfoldable pub clean : RecvBuffer → RecvBuffer
unfolding reset compact
clean r =
    if eqb_ℤ (data_size r) (pos 0)
    then reset r
    else (if ltb_ℤ (free_size r) r.buffer_size then compact r else r)

unfoldable pub on_read : RecvBuffer → ℤ → Bool × RecvBuffer
on_read r n =
    if ltb_ℤ (data_size r) n
    then (false, r)
    else (true, record r { read_pos = add_int32 r.read_pos n })

unfoldable pub on_write : RecvBuffer → ℤ → Bool × RecvBuffer
on_write r n =
    if ltb_ℤ (free_size r) n
    then (false, r)
    else (true, record r { write_pos = add_int32 r.write_pos n })

-- What the kernel does to the array in `recv(fd, WritePos(), FreeSize(), 0)`.
unfoldable pub fill : RecvBuffer → List ℕ → RecvBuffer
fill r bytes = record r {
  buffer =
      take (pos_part r.write_pos) r.buffer
      ++ (bytes ++ drop (pos_part r.write_pos + length bytes) r.buffer);
}
