-- ===== src/SendBuffer/Packet/Header.antt =====
-- `MakeSendBuffer`: the store once the header is written and the buffer closed.
use bsgame_server.Base.{
  ℕ, ◌+◌, ◌^◌, ◌≤◌, ◌<◌, ◌≡◌, refl, ◌∙◌, ◌≢◌, [], ◌++◌, true, false, arith, some, length, drop,
}
use native.Mathlib.Nat.{mod-eq_of_lt}
use bsgame_server.Base.Words.{bytes16, uint32}
use bsgame_server.Base.Run.{done}
use bsgame_server.Framing.{header_size}
use bsgame_server.SendBuffer.Chunk
use bsgame_server.SendBuffer.Manager
use bsgame_server.SendBuffer.Chunk.{Chunk, SendBuffer, chunk_size}
use bsgame_server.SendBuffer.Store
use bsgame_server.SendBuffer.Store.{Memory, put_chunk, content}
use bsgame_server.SendBuffer.Writer.{make_send_buffer}
use bsgame_server.SendBuffer.Alloc.{Opened}
use bsgame_server.SendBuffer.Frame.{
  Frame, Frame-trans, At, fit, stored, store-stored, stored-Frame, stored-Holds, write_all_lem,
}
use bsgame_server.SendBuffer.Frame

-- `Close` after the header.
sealed : Memory → SendBuffer → ℕ → Memory
sealed m b size = put_chunk m b.owner (record (m.chunk b.owner) {
  is_open = false;
  used_size = uint32 ((m.chunk b.owner).used_size + size);
})

close_lem :
    (m : Memory) (b : SendBuffer) (size : ℕ)
    → b.owner < m.count
    → size ≤ b.alloc_size
    → (m.chunk b.owner).is_open ≡ true
    → Store.close m b size ≡ done (record b { write_size = size }, sealed m b size)
unfolding Store.close Chunk.close sealed
close_lem m b size l h o = ground arith

module _ {m m1 : Memory} {b : SendBuffer} (d id : ℕ) (o : Opened m (d + header_size) b m1) where
  with_id : Memory
  with_id = stored m1 b.owner b.start (bytes16 id)

  pub with_header : Memory
  with_header = stored with_id b.owner (b.start + 2) (bytes16 (d + header_size))

  id-Frame : Frame b.owner b.start m1 with_id
  unfolding with_id
  id-Frame =
      stored-Frame m1 b.owner b.start b.start (bytes16 id) o.exists (omega arith) (omega (arith, o))

  pub header-Frame : Frame b.owner b.start m1 with_header
  unfolding with_header
  header-Frame = Frame-trans id-Frame (
      stored-Frame with_id b.owner b.start (b.start + 2) (bytes16 (d + header_size))
        (omega (arith, o, id-Frame)) (omega arith) (omega (arith, o, id-Frame)))

  header-Holds : Frame.Holds with_header b.owner b.start (bytes16 id ++ bytes16 (d + header_size))
  unfolding with_header with_id
  header-Holds =
      stored-Holds with_id b.owner b.start (b.start + 2) (bytes16 (d + header_size))
        (omega (arith, o, id-Frame)) (omega arith) (omega (arith, o, id-Frame)) b.start (bytes16 id)
        (omega arith)
        (stored-Holds m1 b.owner b.start b.start (bytes16 id) o.exists (omega arith)
          (omega (arith, o)) b.start [] (omega arith)
          (drop b.start (m1.chunk b.owner).buffer, refl))

  unfoldable pub ready : SendBuffer
  ready = record b { write_size = d + header_size }

  pub made : Memory
  made = sealed with_header b (d + header_size)

  pub make_send_buffer_lem :
      d + header_size ≤ chunk_size
      → Manager.open_buffer m (d + header_size) ≡ done (some b, m1)
      → make_send_buffer m d id ≡ done (ready, made)
  unfolding make_send_buffer made with_header with_id ready
  make_send_buffer_lem h e =
      rw
        (
          mod-eq_of_lt {n = d + header_size} {m = 2 ^ 16} (omega arith),
          e,
          store-stored m1 b.owner b.start b.start (bytes16 id) o.exists (omega arith)
              (omega (arith, o)),
          store-stored with_id b.owner b.start (b.start + 2) (bytes16 (d + header_size))
              (omega (arith, o, id-Frame)) (omega arith) (omega (arith, o, id-Frame)),
          close_lem with_header b (d + header_size) (omega (arith, o, header-Frame))
              (omega (arith, o)) (header-Frame.flag ∙ o.opened),
        )
        refl

  pub made-Holds : Frame.Holds made b.owner b.start (bytes16 id ++ bytes16 (d + header_size))
  unfolding made sealed
  made-Holds = (header-Holds.0, ground (arith, header-Holds.1))

  pub made_buffer : (i : ℕ) → (made.chunk i).buffer ≡ (with_header.chunk i).buffer
  unfolding made sealed
  made_buffer i = ground arith

  pub made_others : (i : ℕ) → i ≢ b.owner → made.chunk i ≡ m1.chunk i
  unfolding made sealed
  made_others i h = ground (arith, header-Frame.others i h)

  pub made_chunk :
      (length (made.chunk b.owner).buffer ≡ chunk_size)
      × ((made.chunk b.owner).is_open ≡ false)
      × ((made.chunk b.owner).used_size ≡ b.start + (d + header_size))
      × (made.count ≡ m1.count)
      × (made.pool ≡ m1.pool)
      × (made.local_chunk ≡ m1.local_chunk)
  unfolding made sealed
  made_chunk = (
    ground (arith, header-Frame.size, o.full),
    ground arith,
    ground (arith, header-Frame.used, o.begins, o.fits),
    header-Frame.count,
    header-Frame.pool,
    header-Frame.own,
  )
