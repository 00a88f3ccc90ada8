-- ===== src/SendBuffer/Alloc.antt =====
-- CoreLib/SendBuffer.cpp: the invariant of the store, and what an allocation is to leave alone.
pub mod Take
pub mod Open
use bsgame_server.Base.{
  ℕ, ◌+◌, ◌-◌, ◌≤◌, ◌<◌, ◌≡◌, refl, sym, ap, ◌∙◌, subst, ◌≢◌, List, [], ◌∷◌, true, false, not,
  Option, none, some, arith, inl, inr, length, length-replicate, Bool-cases, ltb, lt→ltb, le→ltb,
  ◌==◌, if◌then◌else◌,
}
use native.Mathlib.Decide.{dec_le}
use bsgame_server.Base.Run.{Run, done, ◌>>=◌, assert_that}
use bsgame_server.SendBuffer.Chunk
use bsgame_server.SendBuffer.Chunk.{Chunk, SendBuffer, chunk_size, new_chunk}
use bsgame_server.SendBuffer.Store.{Memory, put_chunk, deref}
use bsgame_server.SendBuffer.Manager

abbrev pub All {ℓ κ} : {A : Type ℓ} → (A → Type κ) → List A → Type κ
All P [] = Unit
All P (x ∷ xs) = P x × All P xs

abbrev pub Distinct : List ℕ → Type 0
Distinct [] = Unit {0}
Distinct (x ∷ xs) = All (λ i. i ≢ x) xs × Distinct xs

-- Between two calls a chunk is closed, has its full size, and counts at most that as used.
pub record IsIdle (c : Chunk) : Type 0 where
  pub full : length c.buffer ≡ chunk_size
  pub closed : c.is_open ≡ false
  pub used : c.used_size ≤ chunk_size

-- All chunks are idle, and the references are to chunks that exist: each once in the pool, and the
-- thread's own not there.
pub record IsValid (m : Memory) : Type 0 where
  pub idle : (i : ℕ) → i < m.count → IsIdle (m.chunk i)
  pub own : (i : ℕ) → m.local_chunk ≡ some i → (i < m.count) × All (λ k. k ≢ i) m.pool
  pub pooled : All (λ i. i < m.count) m.pool
  pub distinct : Distinct m.pool

-- The process before its first allocation.
abbrev pub no_chunks : Memory
no_chunks = record { chunk = λ _. new_chunk; count = 0; pool = []; local_chunk = none }

pub no_chunks-IsValid : IsValid no_chunks
no_chunks-IsValid = record {
  idle = λ i h. absurd (omega arith);
  own = λ i e. cc;
  pooled = tt;
  distinct = tt;
}

-- A chunk that exists and is not in the pool.
abbrev pub InUse : Memory → ℕ → Type 0
InUse m o = (o < m.count) × All (λ i. i ≢ o) m.pool

-- The thread holds the reference `j`. Only this chunk, and none that another reference of the time
-- before names, may have changed.
pub record Holds (m : Memory) (j : ℕ) (m' : Memory) : Type 0 where
  pub exists : j < m'.count
  pub idle : (i : ℕ) → i < m'.count → IsIdle (m'.chunk i)
  pub grows : m.count ≤ m'.count
  pub pooled : All (λ i. i < m'.count) m'.pool
  pub own : m'.local_chunk ≡ some j
  pub others : (i : ℕ) → i ≢ j → i < m.count → m'.chunk i ≡ m.chunk i
  pub kept : (o : ℕ) → InUse m o → InUse m' o
  pub free : All (λ i. i ≢ j) m'.pool
  pub distinct : Distinct m'.pool

-- A buffer has just been cut from the front of what its chunk has left, and is open. Every chunk in
-- use has its bytes, and if it is not the buffer's, it is as it was.
pub record Opened (m : Memory) (size : ℕ) (b : SendBuffer) (m' : Memory) : Type 0 where
  pub exists : b.owner < m'.count
  pub grows : m.count ≤ m'.count
  pub alloc : b.alloc_size ≡ size
  pub fits : b.start + size ≤ chunk_size
  pub full : length (m'.chunk b.owner).buffer ≡ chunk_size
  pub opened : (m'.chunk b.owner).is_open ≡ true
  pub begins : (m'.chunk b.owner).used_size ≡ b.start
  pub idle : (i : ℕ) → i < m'.count → i ≢ b.owner → IsIdle (m'.chunk i)
  pub others : (o : ℕ) → InUse m o → o ≢ b.owner → m'.chunk o ≡ m.chunk o
  pub same :
      InUse m b.owner
      → ((m'.chunk b.owner).buffer ≡ (m.chunk b.owner).buffer)
        × ((m.chunk b.owner).used_size ≡ b.start)
  pub kept : (o : ℕ) → InUse m o → InUse m' o
  pub pooled : All (λ i. i < m'.count) m'.pool
  pub own : m'.local_chunk ≡ some b.owner
  pub free : All (λ i. i ≢ b.owner) m'.pool
  pub distinct : Distinct m'.pool
