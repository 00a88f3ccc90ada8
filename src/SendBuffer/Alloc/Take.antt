-- ===== src/SendBuffer/Alloc/Take.antt =====
-- `take_chunk`, which gives a thread its next chunk.
use bsgame_server.Base.{
  ℕ, ◌+◌, ◌≤◌, ◌<◌, ◌≡◌, refl, sym, subst, ◌≢◌, List, [], ◌∷◌, some, arith, inl, inr, length,
  length-replicate, Bool-cases, lt→ltb, ◌==◌, if◌then◌else◌,
}
use bsgame_server.Base.Run.{done}
use bsgame_server.SendBuffer.Chunk
use bsgame_server.SendBuffer.Chunk.{Chunk, SendBuffer, chunk_size, new_chunk}
use bsgame_server.SendBuffer.Store.{Memory, put_chunk}
use bsgame_server.SendBuffer.Manager
use bsgame_server.SendBuffer.Alloc.{All, Distinct, IsIdle, IsValid, InUse, Holds}

All-mono : {m n : ℕ} (xs : List ℕ) → m ≤ n → All (λ i. i < m) xs → All (λ i. i < n) xs
All-mono [] h a = tt
All-mono (x ∷ xs) h a = (omega arith, All-mono xs h a.1)

All-ne : (m : ℕ) (xs : List ℕ) → All (λ i. i < m) xs → All (λ i. i ≢ m) xs
All-ne m [] a = tt
All-ne m (x ∷ xs) a = (λ e. omega (arith, a.0), All-ne m xs a.1)

length-new_chunk : length new_chunk.buffer ≡ chunk_size
unfolding new_chunk
length-new_chunk = length-replicate {A = ℕ} chunk_size 0

pub new_chunk-IsIdle : IsIdle new_chunk
unfolding new_chunk
new_chunk-IsIdle = record { full = length-new_chunk; closed = refl; used = omega arith }

reset-IsIdle : (c : Chunk) → length c.buffer ≡ chunk_size → IsIdle (Chunk.reset c)
unfolding Chunk.reset
reset-IsIdle c h = record { full = h; closed = refl; used = omega arith }

-- What `take_chunk` is on each form of the pool.
abbrev taken : Memory → ℕ → List ℕ → Memory
taken m j rest = record (put_chunk m j (Chunk.reset (m.chunk j))) {
  pool = rest;
  local_chunk = some j;
}

pop-cons :
    (m : Memory) (j : ℕ) (rest : List ℕ)
    → m.pool ≡ j ∷ rest
    → Manager.pop m ≡ (j, record m { pool = rest })
unfolding Manager.pop
pop-cons m j rest e = rw (e, Manager.pop) refl

take_pooled :
    (m : Memory) (j : ℕ) (rest : List ℕ)
    → m.pool ≡ j ∷ rest
    → j < m.count
    → Manager.take_chunk m ≡ done (j, taken m j rest)
unfolding Manager.take_chunk
take_pooled m j rest e h = rw (pop-cons m j rest e, lt→ltb j m.count h) refl

grown : Memory → Memory
grown m = record m {
  chunk = λ j. if j == m.count then new_chunk else m.chunk j;
  count = m.count + 1;
}

pop-nil : (m : Memory) → m.pool ≡ [] → Manager.pop m ≡ (m.count, grown m)
unfolding Manager.pop grown
pop-nil m e =
    subst
      (λ pool. Manager.pop (record m { pool = pool }) ≡ (m.count, grown (record m { pool = pool })))
      (sym e) refl

take_new :
    (m : Memory)
    → m.pool ≡ []
    → Manager.take_chunk m ≡ done (m.count, taken (grown m) m.count m.pool)
unfolding Manager.take_chunk grown
take_new m e = rw (pop-nil m e, lt→ltb m.count (m.count + 1) (omega arith)) refl

taken-Holds :
    (m : Memory) (j : ℕ) (rest : List ℕ)
    → ((i : ℕ) → i < m.count → length (m.chunk i).buffer ≡ chunk_size)
    → ((i : ℕ) → i < m.count → i ≢ j → IsIdle (m.chunk i))
    → j < m.count
    → All (λ i. i < m.count) rest
    → ((o : ℕ) → InUse m o → All (λ i. i ≢ o) rest)
    → All (λ i. i ≢ j) rest
    → Distinct rest
    → Holds m j (taken m j rest)
taken-Holds m j rest f v h a k n d = record {
  exists = h;
  idle = λ i l. elim (Bool-cases (i == j)) [
    | inl e ↦ rw e (reset-IsIdle (m.chunk j) (f j h))
    | inr e ↦ rw e (v i l (ground arith))
  ];
  grows = omega arith;
  pooled = a;
  own = refl;
  others = λ i ne l. ground arith;
  kept = λ o u. (u.0, k o u);
  free = n;
  distinct = d;
}

grown-Holds : (m : Memory) → IsValid m → Holds m m.count (taken (grown m) m.count m.pool)
unfolding grown
grown-Holds m v = record {
  exists = h.exists;
  idle = h.idle;
  grows = omega arith;
  pooled = h.pooled;
  own = h.own;
  others = λ i ne l. ground arith;
  kept = λ o u. (omega (arith, u.0), u.1);
  free = h.free;
  distinct = h.distinct;
}
  where
    full : (i : ℕ) → i < m.count + 1 → length ((grown m).chunk i).buffer ≡ chunk_size
    full i l = elim (Bool-cases (i == m.count)) [
      | inl e ↦ rw e length-new_chunk
      | inr e ↦ rw e (v.idle i (ground arith)).full
    ]

    idle : (i : ℕ) → i < m.count + 1 → i ≢ m.count → IsIdle ((grown m).chunk i)
    idle i l ne = elim (Bool-cases (i == m.count)) [
      | inl e ↦ absurd (ground arith)
      | inr e ↦ rw e (v.idle i (ground arith))
    ]

    h : Holds (grown m) m.count (taken (grown m) m.count m.pool)
    h =
        taken-Holds (grown m) m.count m.pool full idle (omega arith)
          (All-mono m.pool (omega arith) v.pooled) (λ o u. u.1) (All-ne m.count m.pool v.pooled)
          v.distinct

taken_used : (m : Memory) (j : ℕ) (rest : List ℕ) → ((taken m j rest).chunk j).used_size ≡ 0
unfolding Chunk.reset
taken_used m j rest = ground arith

-- `take_chunk` succeeds, gives an empty chunk, and never one that is in use.
pub take_chunk-Holds :
    (m : Memory)
    → IsValid m
    → (j : ℕ) × (m' : Memory) × (Manager.take_chunk m ≡ done (j, m'))
      × Holds m j m'
      × ((m'.chunk j).used_size ≡ 0)
      × ((o : ℕ) → InUse m o → o ≢ j)
take_chunk-Holds m v = by_pool m.pool refl v.pooled
  where
    by_pool :
        (pool : List ℕ)
        → m.pool ≡ pool
        → All (λ i. i < m.count) pool
        → (j : ℕ) × (m' : Memory) × (Manager.take_chunk m ≡ done (j, m'))
          × Holds m j m'
          × ((m'.chunk j).used_size ≡ 0)
          × ((o : ℕ) → InUse m o → o ≢ j)
    by_pool [] e a = (
      m.count,
      taken (grown m) m.count m.pool,
      take_new m e,
      grown-Holds m v,
      taken_used (grown m) m.count m.pool,
      λ o u. omega arith,
    )
    by_pool (j ∷ rest) e a = (
      j,
      taken m j rest,
      take_pooled m j rest e a.0,
      taken-Holds m j rest (λ i l. (v.idle i l).full) (λ i l _. v.idle i l) a.0 a.1
          (λ o u. (subst (All (λ i. i ≢ o)) e u.1).1) (subst Distinct e v.distinct).0
          (subst Distinct e v.distinct).1,
      taken_used m j rest,
      λ o u p. (subst (All (λ i. i ≢ o)) e u.1).0 (sym p),
    )
