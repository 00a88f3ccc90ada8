-- ===== src/SendBuffer/Wrap.antt =====
-- `packetSize` is 16 bits wide: what `MakeSendBuffer` allocates when the sum does not fit.
use bsgame_server.Base.{
  ℕ, ◌+◌, ◌^◌, ◌≤◌, ◌<◌, ◌≡◌, refl, sym, ◌∙◌, Option, none, some, arith, inl, inr,
}
use bsgame_server.Base.Words.{bytes16, uint16}
use bsgame_server.Base.Run.{Run, done, fault, null_pointer, ◌>>=◌, >>=-eq-done, Run-cases}
use bsgame_server.Framing.{header_size}
use bsgame_server.SendBuffer.Chunk
use bsgame_server.SendBuffer.Chunk.{SendBuffer}
use bsgame_server.SendBuffer.Store
use bsgame_server.SendBuffer.Store.{Memory, store, deref, put_chunk}
use bsgame_server.SendBuffer.Manager
use bsgame_server.SendBuffer.Writer.{make_send_buffer}

close_size :
    (m m' : Memory) (b b' : SendBuffer) (n : ℕ)
    → Store.close m b n ≡ done (b', m')
    → b'.write_size ≡ n
unfolding Store.close Chunk.close
close_size m m' b b' n e = ground arith

-- The two fields of the header, and the end of the buffer.
write_header : ℕ → ℕ → SendBuffer → Memory → Run (SendBuffer × Memory)
write_header size id b m = store m b.owner b.start (bytes16 id) >>= λ m2.
    store m2 b.owner (b.start + 2) (bytes16 size) >>= λ m3. Store.close m3 b size

write_header_size :
    (size id : ℕ) (b b' : SendBuffer) (m m' : Memory)
    → write_header size id b m ≡ done (b', m')
    → b'.write_size ≡ size
unfolding write_header
write_header_size size id b b' m m' e =
    let (m2, e2, f2) =
      >>=-eq-done (store m b.owner b.start (bytes16 id))
        (λ m2. store m2 b.owner (b.start + 2) (bytes16 size) >>= λ m3. Store.close m3 b size) e in
    let (m3, e3, f3) =
      >>=-eq-done (store m2 b.owner (b.start + 2) (bytes16 size)) (λ m3. Store.close m3 b size)
        f2 in
    close_size m3 m' b b' size f3

-- The test of the pointer that `Open` returns.
present : Option SendBuffer → Run SendBuffer
present none = fault null_pointer
present (some b) = done b

with_header : ℕ → ℕ → Option SendBuffer × Memory → Run (SendBuffer × Memory)
unfolding write_header present
with_header size id (o, m) = present o >>= λ b. write_header size id b m

make_send_buffer_lem :
    (m : Memory) (d id : ℕ)
    → make_send_buffer m d id ≡ (
        Manager.open_buffer m (uint16 (d + header_size))
        >>= with_header (uint16 (d + header_size)) id)
unfolding make_send_buffer with_header write_header present
make_send_buffer_lem m d id = elim (Run-cases (Manager.open_buffer m (uint16 (d + header_size)))) [
  | inl ((none, m1), e) ↦ rw e refl
  | inl ((some b, m1), e) ↦ rw e refl
  | inr (x, e) ↦ rw e refl
]

with_header_size :
    (size id : ℕ) (o : Option SendBuffer) (b' : SendBuffer) (m m' : Memory)
    → with_header size id (o, m) ≡ done (b', m')
    → b'.write_size ≡ size
unfolding with_header present
with_header_size size id none b' m m' e = ground arith
with_header_size size id (some b) b' m m' e = write_header_size size id b b' m m' e

make_send_buffer_size :
    (m m' : Memory) (d id : ℕ) (b : SendBuffer)
    → make_send_buffer m d id ≡ done (b, m')
    → b.write_size ≡ uint16 (d + header_size)
make_send_buffer_size m m' d id b e =
    let size = uint16 (d + header_size) in
    let ((o, m1), e1, f1) =
      >>=-eq-done (Manager.open_buffer m size) (with_header size id)
        (sym (make_send_buffer_lem m d id) ∙ e) in
    with_header_size size id o b m1 m' f1

-- If `MakeSendBuffer` returns a packet for a payload of 65532 to 65535 bytes, the packet is
-- smaller than its own header: the sum with the four bytes of the header wraps, and the packet
-- is as many bytes long as the payload is beyond 65532.
pub oversized_packet :
    (m m' : Memory) (d id : ℕ) (b : SendBuffer)
    → 65532 ≤ d
    → d < 2 ^ 16
    → make_send_buffer m d id ≡ done (b, m')
    → (b.write_size < header_size) × (b.write_size + 65532 ≡ d)
oversized_packet m m' d id b h k e = omega (arith, make_send_buffer_size m m' d id b e)
