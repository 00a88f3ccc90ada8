-- ===== src/SendBuffer/Packet/After.antt =====
-- The store after `MakePacket` of GameBS/BS_PacketHandler.h: its invariant, and the live
-- buffers.
use bsgame_server.Base.{
  ℕ, ◌+◌, ◌-◌, ◌≤◌, ◌<◌, ◌≡◌, sym, ap, ◌∙◌, subst, ◌≢◌, List, arith, some, take, drop, drop-take,
  take-take,
}
use native.Mathlib.Decide.{ℕ_discrete}
use bsgame_server.Framing.{header_size}
use bsgame_server.SendBuffer.Chunk.{Chunk, SendBuffer}
use bsgame_server.SendBuffer.Store.{Memory, content}
use bsgame_server.SendBuffer.Alloc.{IsValid, IsIdle, InUse, All, Distinct, Opened}
use bsgame_server.SendBuffer.Frame.{Frame}
use bsgame_server.SendBuffer.Packet.{Live}
use bsgame_server.SendBuffer.Packet.Header.{
  header-Frame, ready, made, made_buffer, made_others, made_chunk,
}

-- The bytes of a range below `lo` are read from the first `lo` bytes.
take-drop_below :
    (n start lo : ℕ) (xs ys : List ℕ)
    → start + n ≤ lo
    → take lo xs ≡ take lo ys
    → take n (drop start xs) ≡ take n (drop start ys)
take-drop_below n start lo xs ys h e = sym (part xs) ∙ ap (λ zs. take n (drop start zs)) e ∙ part ys
  where
    part : (zs : List ℕ) → take n (drop start (take lo zs)) ≡ take n (drop start zs)
    part zs =
        ap (take n) (drop-take start lo zs) ∙ take-take n (lo - start) (drop start zs) (omega arith)

module _ {m m1 : Memory} {b : SendBuffer} (d id : ℕ) (o : Opened m (d + header_size) b m1) where
  module _ {m' : Memory} (f : Frame b.owner b.start (made d id o) m') where
    after-IsIdle : (i : ℕ) → i < m'.count → IsIdle (m'.chunk i)
    after-IsIdle i l =
        let (full, closed, used, n, p, w) = made_chunk d id o in
        elim (ℕ_discrete i b.owner) [
          | yes e ↦
              subst (λ k. IsIdle (m'.chunk k)) (sym e)
                (record {
                  full = f.size ∙ full;
                  closed = f.flag ∙ closed;
                  used = omega (arith, f.used, used, o.fits);
                })
          | no ne ↦
              subst IsIdle (sym (f.others i ne ∙ made_others d id o i ne))
                (o.idle i (omega (arith, f.count, n)) ne)
        ]

    after_own : (i : ℕ) → m'.local_chunk ≡ some i → b.owner ≡ i
    after_own i e = let (full, closed, used, n, p, w) = made_chunk d id o in cc (f.own, w, o.own)

    pub after-IsValid : IsValid m'
    after-IsValid =
        let (full, closed, used, n, p, w) = made_chunk d id o in
        record {
          idle = after-IsIdle;
          own = λ i e.
              subst (λ k. (k < m'.count) × All (λ x. x ≢ k) m'.pool) (after_own i e)
                (
                  omega (arith, f.count, n, o.exists),
                  subst (All (λ x. x ≢ b.owner)) (sym (f.pool ∙ p)) o.free,
                );
          pooled =
              subst (All (λ x. x < m'.count)) (sym (f.pool ∙ p))
                (subst (λ k. All (λ x. x < k) m1.pool) (sym (f.count ∙ n)) o.pooled);
          distinct = subst Distinct (sym (f.pool ∙ p)) o.distinct;
        }

    after_use : (k : ℕ) → (k < m1.count) × All (λ x. x ≢ k) m1.pool → InUse m' k
    after_use k u =
        let (full, closed, used, n, p, w) = made_chunk d id o in
        (omega (arith, f.count, n, u.0), subst (All (λ x. x ≢ k)) (sym (f.pool ∙ p)) u.1)

    -- A live buffer of another chunk.
    stays_else :
        (c : SendBuffer) → Live m c → c.owner ≢ b.owner → Live m' c × (content m' c ≡ content m c)
    unfolding content
    stays_else c l ne =
        let e : m'.chunk c.owner ≡ m.chunk c.owner =
          f.others c.owner ne ∙ made_others d id o c.owner ne ∙ o.others c.owner l.0 ne in
        (
          (
            after_use c.owner (o.kept c.owner l.0),
            omega (arith, l.1, ap (λ (x : Chunk). x.used_size) e),
          ),
          ap (λ (x : Chunk). take c.write_size (drop c.start x.buffer)) e,
        )

    same_use : (c : SendBuffer) → Live m c → c.owner ≡ b.owner → InUse m b.owner
    same_use c l e = subst (InUse m) e l.0

    -- A live buffer of the same chunk ends where the new one starts.
    pub before : (c : SendBuffer) → Live m c → c.owner ≡ b.owner → c.start + c.write_size ≤ b.start
    before c l e =
        omega (arith, l.1, ap (λ k. (m.chunk k).used_size) e, (o.same (same_use c l e)).1)

    below_same :
        InUse m b.owner
        → take b.start (m'.chunk b.owner).buffer ≡ take b.start (m.chunk b.owner).buffer
    below_same u =
        f.below
        ∙ ap (take b.start) (made_buffer d id o b.owner)
        ∙ (header-Frame d id o).below
        ∙ ap (take b.start) (o.same u).0

    stays_same :
        (c : SendBuffer) → Live m c → c.owner ≡ b.owner → Live m' c × (content m' c ≡ content m c)
    unfolding content
    stays_same c l e =
        let (full, closed, used, n, p, w) = made_chunk d id o in
        (
          (
            after_use c.owner (o.kept c.owner l.0),
            omega (arith, before c l e, ap (λ k. (m'.chunk k).used_size) e, f.used, used),
          ),
          ap (λ k. take c.write_size (drop c.start (m'.chunk k).buffer)) e
              ∙ take-drop_below c.write_size c.start b.start (m'.chunk b.owner).buffer
                  (m.chunk b.owner).buffer (before c l e) (below_same (same_use c l e))
              ∙ ap (λ k. take c.write_size (drop c.start (m.chunk k).buffer)) (sym e),
        )

    pub after_stays : (c : SendBuffer) → Live m c → Live m' c × (content m' c ≡ content m c)
    after_stays c l = elim (ℕ_discrete c.owner b.owner) [
      | yes e ↦ stays_same c l e
      | no ne ↦ stays_else c l ne
    ]

    pub after-Live : Live m' (ready d id o)
    unfolding ready
    after-Live =
        let (full, closed, used, n, p, w) = made_chunk d id o in
        (after_use b.owner (o.exists, o.free), omega (arith, f.used, used))
