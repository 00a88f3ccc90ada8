-- ===== src/SendBuffer/Frame.antt =====
-- Writes into the range that a buffer owns: what they put there, and what they leave alone.
use bsgame_server.Base.{
  ℕ, ◌%◌, ◌+◌, ◌-◌, ◌^◌, ◌≤◌, ◌<◌, ◌≡◌, refl, sym, ap, ◌∙◌, subst, ◌≢◌, List, [], ◌∷◌, ◌++◌,
  append_assoc, append-nil, true, false, arith, inl, inr, length, take, drop, length-append, splice,
  length-splice, take-splice, drop-splice, Bool-cases, ltb, ltb→lt, lt→ltb, le→ltb, if◌then◌else◌,
}
use bsgame_server.Base.Run.{done}
use bsgame_server.Framing.Packets.{join}
use bsgame_server.SendBuffer.Store.{Memory, put_chunk, store}
use bsgame_server.SendBuffer.Writer.{BufferWrite, write, write_all}

-- Nothing differs but bytes of the chunk `o` from `lo` on.
pub record Frame (o lo : ℕ) (m m' : Memory) : Type 0 where
  pub others : (i : ℕ) → i ≢ o → m'.chunk i ≡ m.chunk i
  pub size : length (m'.chunk o).buffer ≡ length (m.chunk o).buffer
  pub below : take lo (m'.chunk o).buffer ≡ take lo (m.chunk o).buffer
  pub flag : (m'.chunk o).is_open ≡ (m.chunk o).is_open
  pub used : (m'.chunk o).used_size ≡ (m.chunk o).used_size
  pub count : m'.count ≡ m.count
  pub pool : m'.pool ≡ m.pool
  pub own : m'.local_chunk ≡ m.local_chunk

pub Frame-refl : (o lo : ℕ) (m : Memory) → Frame o lo m m
Frame-refl o lo m = record {
  others = λ i h. refl;
  size = refl;
  below = refl;
  flag = refl;
  used = refl;
  count = refl;
  pool = refl;
  own = refl;
}

pub Frame-trans : {o lo : ℕ} {a b c : Memory} → Frame o lo a b → Frame o lo b c → Frame o lo a c
Frame-trans f g = record {
  others = λ i h. g.others i h ∙ f.others i h;
  size = g.size ∙ f.size;
  below = g.below ∙ f.below;
  flag = g.flag ∙ f.flag;
  used = g.used ∙ f.used;
  count = g.count ∙ f.count;
  pool = g.pool ∙ f.pool;
  own = g.own ∙ f.own;
}

-- From `start` on, the chunk holds the bytes `bs`, and then others.
abbrev pub Holds : Memory → ℕ → ℕ → List ℕ → Type 0
Holds m o start bs = (rest : List ℕ) × (drop start (m.chunk o).buffer ≡ bs ++ rest)

pub stored : Memory → ℕ → ℕ → List ℕ → Memory
stored m o at bytes =
    put_chunk m o (record (m.chunk o) { buffer = splice (m.chunk o).buffer at bytes })

pub buffer-stored :
    (m : Memory) (o at : ℕ) (bytes : List ℕ)
    → ((stored m o at bytes).chunk o).buffer ≡ splice (m.chunk o).buffer at bytes
unfolding stored
buffer-stored m o at bytes = ground arith

module _ (m : Memory) (o lo at : ℕ) (bytes : List ℕ) (exists : o < m.count) (after : lo ≤ at)
    (room : at + length bytes ≤ length (m.chunk o).buffer) where
  pub store-stored : store m o at bytes ≡ done (stored m o at bytes)
  unfolding store stored
  store-stored =
      rw (lt→ltb o m.count exists, le→ltb (length (m.chunk o).buffer) (at + length bytes) room) refl

  pub stored-Frame : Frame o lo m (stored m o at bytes)
  unfolding stored
  stored-Frame = record {
    others = λ i h. ground arith;
    size = ap length (buffer-stored m o at bytes) ∙ length-splice (m.chunk o).buffer at bytes room;
    below =
        ap (take lo) (buffer-stored m o at bytes)
        ∙ take-splice lo (m.chunk o).buffer at bytes after (omega arith);
    flag = ground arith;
    used = ground arith;
    count = refl;
    pool = refl;
    own = refl;
  }

  pub stored-Holds :
      (start : ℕ) (bs : List ℕ)
      → at ≡ start + length bs
      → Holds m o start bs
      → Holds (stored m o at bytes) o start (bs ++ bytes)
  stored-Holds start bs e (rest, h) = (
    drop (at + length bytes) (m.chunk o).buffer,
    ap (drop start) (buffer-stored m o at bytes)
        ∙ drop-splice start (m.chunk o).buffer bs rest at bytes e (omega arith) h,
  )

-- The fields that `Write` accepts with `room` bytes free: a field that does not fit is passed over.
unfoldable pub fit : ℕ → List (List ℕ) → List (List ℕ)
fit room [] = []
fit room (x ∷ xs) = if ltb room (length x) then fit room xs else x ∷ fit (room - length x) xs

-- A writer stands behind the bytes `bs` of its range.
pub record At (w : BufferWrite) (start : ℕ) (bs : List ℕ) : Type 0 where
  pub position : w.base + w.at ≡ start + length bs
  pub within : w.at ≤ w.size
  pub word : w.size < 2 ^ 16

moved : BufferWrite → ℕ → BufferWrite
moved w n = record w { at = w.at + n }

write-skips :
    (w : BufferWrite) (m : Memory) (x : List ℕ)
    → w.at ≤ w.size
    → w.size < 2 ^ 16
    → w.size - w.at < length x
    → write w x m ≡ done (false, w, m)
unfolding write
write-skips w m x h k l =
    rw (lt→ltb ((w.size + 65536 - w.at) % 65536) (length x) (omega arith)) refl

write-stores :
    (w : BufferWrite) (m m' : Memory) (x : List ℕ)
    → w.at ≤ w.size
    → w.size < 2 ^ 16
    → length x ≤ w.size - w.at
    → store m w.target (w.base + w.at) x ≡ done m'
    → write w x m ≡ done (true, moved w (length x), m')
unfolding write moved
write-stores w m m' x h k l e =
    rw (le→ltb ((w.size + 65536 - w.at) % 65536) (length x) (omega arith), e)
      (ap (λ n. done (true, record w { at = n }, m')) (omega arith))

moved-At :
    (w : BufferWrite) (start : ℕ) (bs x : List ℕ)
    → At w start bs
    → length x ≤ w.size - w.at
    → At (moved w (length x)) start (bs ++ x)
unfolding moved
moved-At w start bs x a u = record {
  position = omega (arith, length-append bs x, a);
  within = omega (arith, a);
  word = a.word;
}

pub write_all_lem :
    (fields : List (List ℕ)) (w : BufferWrite) (m : Memory) (start lo : ℕ) (bs : List ℕ)
    → At w start bs
    → w.target < m.count
    → lo ≤ w.base
    → w.base + w.size ≤ length (m.chunk w.target).buffer
    → Holds m w.target start bs
    → (w' : BufferWrite) × (m' : Memory) × (write_all w fields m ≡ done (w', m'))
      × Frame w.target lo m m'
      × Holds m' w.target start (bs ++ join (fit (w.size - w.at) fields))
unfolding write_all fit moved
write_all_lem [] w m start lo bs a l k r h =
    (w, m, refl, Frame-refl w.target lo m, subst (Holds m w.target start) (sym (append-nil bs)) h)
write_all_lem (x ∷ xs) w m start lo bs a l k r h =
    elim (Bool-cases (ltb (w.size - w.at) (length x))) [
      | inl q ↦
          let (w', m', e, f, g) = write_all_lem xs w m start lo bs a l k r h in
          (
            w',
            m',
            rw (write-skips w m x a.within a.word (ltb→lt (w.size - w.at) (length x) q)) e,
            f,
            rw q g,
          )
      | inr q ↦
          let u : length x ≤ w.size - w.at = ground arith in
          let m1 = stored m w.target (w.base + w.at) x in
          let f1 =
            stored-Frame m w.target lo (w.base + w.at) x l (omega arith) (omega (arith, a)) in
          let (w', m', e, f, g) =
            write_all_lem xs (moved w (length x)) m1 start lo (bs ++ x) (moved-At w start bs x a u)
              (subst (λ n. w.target < n) (sym f1.count) l) k (omega (arith, f1.size, r))
              (stored-Holds m w.target lo (w.base + w.at) x l (omega arith) (omega (arith, a)) start
                bs a.position h) in
          (
            w',
            m',
            rw
                (write-stores w m m1 x a.within a.word u
                  (store-stored m w.target lo (w.base + w.at) x l (omega arith) (omega (arith, a))))
                e,
            Frame-trans f1 f,
            rw q (
                subst (Holds m' w.target start)
                  (append_assoc bs x (join (fit (w.size - (w.at + length x)) xs))
                    ∙ ap (λ n. bs ++ (x ++ join (fit n xs))) (omega arith))
                  g),
          )
    ]
