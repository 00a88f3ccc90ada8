-- ===== src/SendBuffer/Alloc/Open.antt =====
-- `SendBufferManager::Open` from the thread's chunk, or from the next one.
use bsgame_server.Base.{
  ℕ, ◌+◌, ◌-◌, ◌≤◌, ◌<◌, ◌≡◌, refl, ap, ◌∙◌, ◌≢◌, true, not, Option, none, some, arith, ltb, lt→ltb,
  le→ltb, if◌then◌else◌,
}
use native.Mathlib.Decide.{dec_le}
use bsgame_server.Base.Run.{Run, done, ◌>>=◌, assert_that}
use bsgame_server.SendBuffer.Chunk
use bsgame_server.SendBuffer.Chunk.{Chunk, SendBuffer, chunk_size, new_chunk}
use bsgame_server.SendBuffer.Store.{Memory, put_chunk, deref}
use bsgame_server.SendBuffer.Manager
use bsgame_server.SendBuffer.Alloc.{IsIdle, IsValid, InUse, Holds, Opened}
use bsgame_server.SendBuffer.Alloc.Take.{take_chunk-Holds}

free_size_lem : {c : Chunk} → IsIdle c → Chunk.free_size c ≡ chunk_size - c.used_size
unfolding Chunk.free_size
free_size_lem {c} v = omega (arith, v)

cut : ℕ → Memory → ℕ → SendBuffer
cut j m size = record {
  owner = j;
  start = (m.chunk j).used_size;
  alloc_size = size;
  write_size = 0;
}

-- `SendBufferChunk::Open` on an idle chunk with room.
chunk_open_lem :
    (j : ℕ) (m : Memory) (size : ℕ)
    → IsIdle (m.chunk j)
    → (m.chunk j).used_size + size ≤ chunk_size
    → Chunk.open_buffer j (m.chunk j) size
      ≡ done (some (cut j m size), record (m.chunk j) { is_open = true })
unfolding Chunk.open_buffer Chunk.free_size cut
chunk_open_lem j m size v h = ground arith

finish : ℕ → Memory → Memory
finish j m = put_chunk m j (record (m.chunk j) { is_open = true })

finish-Opened :
    (m : Memory) (j : ℕ) (m' : Memory) (size : ℕ)
    → Holds m j m'
    → (m'.chunk j).used_size + size ≤ chunk_size
    → (InUse m j → m'.chunk j ≡ m.chunk j)
    → Opened m size (cut j m' size) (finish j m')
unfolding cut finish
finish-Opened m j m' size h fit same = record {
  exists = h.exists;
  grows = h.grows;
  alloc = refl;
  fits = fit;
  full = ground (arith, (h.idle j h.exists).full);
  opened = ground arith;
  begins = ground arith;
  idle = λ i l ne. ground (arith, h.idle i l);
  others = λ o u ne. ground (arith, h.others o ne u.0);
  same = λ u. (ground (arith, same u), ground (arith, same u));
  kept = h.kept;
  pooled = h.pooled;
  own = h.own;
  free = h.free;
  distinct = h.distinct;
}

-- What `Open` does once it has settled on the chunk `j`.
settle : ℕ → Memory → ℕ → Run (Option SendBuffer × Memory)
unfolding Chunk.open_buffer Chunk.free_size
settle j m size =
    deref m j >>= λ c. Chunk.open_buffer j c size >>= λ (b, c'). done (b, put_chunk m j c')

settle_lem :
    (j : ℕ) (m : Memory) (size : ℕ)
    → j < m.count
    → IsIdle (m.chunk j)
    → (m.chunk j).used_size + size ≤ chunk_size
    → settle j m size ≡ done (some (cut j m size), finish j m)
unfolding settle finish
settle_lem j m size l v h = rw (lt→ltb j m.count l, chunk_open_lem j m size v h) refl

-- `Open` with the thread's chunk given.
open_from : ℕ → Memory → ℕ → Run (Option SendBuffer × Memory)
unfolding settle Manager.take_chunk
open_from i m size = deref m i >>= λ c.
    assert_that (not c.is_open)
      (if ltb (Chunk.free_size c) size then Manager.take_chunk m else done (i, m))
    >>= λ (j, m'). settle j m' size

open_buffer_lem :
    (m : Memory) (size : ℕ)
    → Manager.open_buffer m size ≡ (Manager.current m >>= λ (i, m'). open_from i m' size)
unfolding Manager.open_buffer open_from
open_buffer_lem m size = refl

current-none : (m : Memory) → m.local_chunk ≡ none → Manager.current m ≡ Manager.take_chunk m
unfolding Manager.current
current-none m e = ap (λ o. Manager.chunk_of o m) e

current-some : (m : Memory) (i : ℕ) → m.local_chunk ≡ some i → Manager.current m ≡ done (i, m)
unfolding Manager.current
current-some m i e = ap (λ o. Manager.chunk_of o m) e

-- The thread's chunk has room.
open_from-room :
    (i : ℕ) (m : Memory) (size : ℕ)
    → i < m.count
    → IsIdle (m.chunk i)
    → (m.chunk i).used_size + size ≤ chunk_size
    → open_from i m size ≡ done (some (cut i m size), finish i m)
unfolding open_from
open_from-room i m size l v h =
    rw
      (
        lt→ltb i m.count l,
        v.closed,
        free_size_lem v,
        le→ltb (chunk_size - (m.chunk i).used_size) size (omega arith),
      )
      (settle_lem i m size l v h)

-- It has not, and the thread changes to another.
open_from-full :
    (i : ℕ) (m : Memory) (size : ℕ) (j : ℕ) (m' : Memory)
    → i < m.count
    → IsIdle (m.chunk i)
    → chunk_size < (m.chunk i).used_size + size
    → Manager.take_chunk m ≡ done (j, m')
    → open_from i m size ≡ settle j m' size
unfolding open_from
open_from-full i m size j m' l v h e =
    rw
      (
        lt→ltb i m.count l,
        v.closed,
        free_size_lem v,
        lt→ltb (chunk_size - (m.chunk i).used_size) size (omega (arith, v)),
        e,
      )
      refl

self-Holds : (m : Memory) (i : ℕ) → IsValid m → m.local_chunk ≡ some i → Holds m i m
self-Holds m i v e = record {
  exists = (v.own i e).0;
  idle = v.idle;
  grows = omega arith;
  pooled = v.pooled;
  own = e;
  others = λ _ _ _. refl;
  kept = λ o u. u;
  free = (v.own i e).1;
  distinct = v.distinct;
}

-- On a valid store, `Open` with at most the size of a chunk never fails: it returns a buffer of
-- the size asked for, cut from the unused bytes of an open chunk, and changes no other chunk in
-- use and no byte of this one.
pub open_buffer-Opened :
    (m : Memory) (size : ℕ)
    → IsValid m
    → size ≤ chunk_size
    → (b : SendBuffer) × (m' : Memory) × (Manager.open_buffer m size ≡ done (some b, m'))
      × Opened m size b m'
open_buffer-Opened m size v h = by_own m.local_chunk refl
  where
    fresh :
        (j : ℕ) × (m' : Memory) × (Manager.take_chunk m ≡ done (j, m'))
        × Holds m j m'
        × ((m'.chunk j).used_size ≡ 0)
        × ((o : ℕ) → InUse m o → o ≢ j)
    fresh = take_chunk-Holds m v

    by_own :
        (o : Option ℕ)
        → m.local_chunk ≡ o
        → (b : SendBuffer) × (m' : Memory) × (Manager.open_buffer m size ≡ done (some b, m'))
          × Opened m size b m'
    by_own none e =
        let (j, m', t, held, u, apart) = fresh in
        (
          cut j m' size,
          finish j m',
          open_buffer_lem m size
              ∙ rw (current-none m e, t)
                  (open_from-room j m' size held.exists (held.idle j held.exists)
                    (omega (arith, u))),
          finish-Opened m j m' size held (omega (arith, u)) (λ w. absurd (apart j w refl)),
        )
    by_own (some i) e = elim (dec_le ((m.chunk i).used_size + size) chunk_size) [
      | yes room ↦ (
        cut i m size,
        finish i m,
        open_buffer_lem m size
            ∙ rw (current-some m i e)
                (open_from-room i m size (v.own i e).0 (v.idle i (v.own i e).0) room),
        finish-Opened m i m size (self-Holds m i v e) room (λ _. refl),
      )
      | no full ↦
          let (j, m', t, held, u, apart) = fresh in
          (
            cut j m' size,
            finish j m',
            open_buffer_lem m size
                ∙ rw (current-some m i e) (
                    open_from-full i m size j m' (v.own i e).0 (v.idle i (v.own i e).0)
                      (omega arith) t
                    ∙ settle_lem j m' size held.exists (held.idle j held.exists)
                        (omega (arith, u))),
            finish-Opened m j m' size held (omega (arith, u)) (λ w. absurd (apart j w refl)),
          )
    ]
