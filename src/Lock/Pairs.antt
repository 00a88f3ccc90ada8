-- ===== src/Lock/Pairs.antt =====
-- CoreLib/LockUtils.cpp: what a guard leaves of the lock.
use bsgame_server.Base.{◌+◌, ◌≤◌, ◌≡◌, refl, ◌∙◌, List, [], ◌∷◌, true, false, arith, inl, inr, ◌⊎◌}
use bsgame_server.Base.Run.{Run, done, fault, out_of_fuel, ◌>>=◌}
use bsgame_server.Lock.{
  RwLock, IsRwLock, read_lock, write_lock, read_unlock, write_unlock, read_guard, write_guard,
}

-- A read lock is held.
abbrev pub IsRead : {L : Type 0} → RwLock L → L → Type 0
IsRead p l = (1 ≤ p.readers l) × (p.writing l ≡ false)

-- What the other threads do between the attempts never takes the last read lock away.
abbrev pub Stay : {L : Type 0} → RwLock L → List (L → L) → Type 0
Stay p [] = Unit {0}
Stay {L} p (f ∷ fs) = ((l : L) → IsRead p l → IsRead p (f l)) × Stay p fs

module _ {L : Type 0} (p : RwLock L) (h : IsRwLock p) where
  -- `ReadLock` on a lock without a writer is through at the first attempt, whatever the attempts left.
  read_lock_lem :
      (rest : List (L → L)) (l : L)
      → p.writing l ≡ false
      → (l' : L) × (read_lock p ((λ x. x) ∷ rest) l ≡ done l')
        × (p.readers l' ≡ p.readers l + 2)
        × (p.writing l' ≡ false)
  unfolding read_lock
  read_lock_lem rest l w =
      let (ok, n, w') = h.try_read_free l w in
      let (n', w'') = h.read_lem (p.try_read l).1 w' in
      (p.read (p.try_read l).1, rw ok refl, omega (arith, n, n'), w'')

  -- A `ReadLockGuard` on a lock without a writer leaves one read lock more than it found.
  pub reader_pair :
      (rest : List (L → L)) (l : L)
      → p.writing l ≡ false
      → (l' : L) × ((read_lock p ((λ x. x) ∷ rest) l >>= λ held. done (read_unlock p held))
          ≡ done l')
        × (p.readers l' ≡ p.readers l + 1)
        × (p.writing l' ≡ false)
  unfolding read_unlock
  reader_pair rest l w =
      let (held, e, n, w') = read_lock_lem rest l w in
      let (n', w'') = h.unlock_read held (p.readers l + 1) w' (omega (arith, n)) in
      (p.unlock held, rw e refl, n', w'')

  -- While a read lock is held, `WriteLock` tries in vain.
  write_lock_waits :
      (attempts : List (L → L)) (l : L)
      → Stay p attempts
      → IsRead p l
      → write_lock p attempts l ≡ fault out_of_fuel
  unfolding write_lock
  write_lock_waits [] l s r = refl
  write_lock_waits (f ∷ fs) l s r =
      rw (h.try_write_held (f l) (s.0 l r).0) (write_lock_waits fs (f l) s.1 (s.0 l r))

  -- After one `ReadLockGuard` has come and gone on a lock without a writer, `WriteLock` never gets in, for any
  -- number of attempts, unless other threads release more read locks than they take.
  pub reader_blocks_writers :
      (rest attempts : List (L → L)) (l : L)
      → p.writing l ≡ false
      → Stay p attempts
      → (l' : L) × ((read_lock p ((λ x. x) ∷ rest) l >>= λ held. done (read_unlock p held))
          ≡ done l')
        × (write_lock p attempts l' ≡ fault out_of_fuel)
  reader_blocks_writers rest attempts l w s =
      let (l', e, n, w') = reader_pair rest l w in
      (l', e, write_lock_waits attempts l' s (omega (arith, n), w'))

  -- The lock is free when `WriteLock` makes some attempt, and held by readers before each earlier one.
  abbrev pub FreeAt : List (L → L) → L → Type 0
  FreeAt [] l = ⊥
  FreeAt (f ∷ fs) l =
      ((p.writing (f l) ≡ false) × (p.readers (f l) ≡ 0))
      ⊎ ((1 ≤ p.readers (f l)) × FreeAt fs (f l))

  -- Readers may be in the way at first: if at one of the attempts the lock is free, `WriteLock` returns with
  -- the write lock, and the end of the `WriteLockGuard` leaves the lock free.
  pub writer_pair :
      (attempts : List (L → L)) (l : L)
      → FreeAt attempts l
      → (held : L) × (write_lock p attempts l ≡ done held)
        × (p.writing held ≡ true)
        × (p.writing (write_unlock p held) ≡ false)
        × (p.readers (write_unlock p held) ≡ 0)
  unfolding write_lock write_unlock
  writer_pair [] l w = absurd w
  writer_pair (f ∷ fs) l (inl (w, n)) =
      let (ok, n', w') = h.try_write_free (f l) w n in
      let same = h.write_lem (p.try_write (f l)).1 w' in
      let (n'', w'') = h.unlock_write (p.try_write (f l)).1 w' in
      ((p.try_write (f l)).1, rw (ok, same) refl, w', w'', n'' ∙ n')
  writer_pair (f ∷ fs) l (inr (r, w)) =
      let (held, e, a, b, c) = writer_pair fs (f l) w in
      (held, rw (h.try_write_held (f l) r) e, a, b, c)

  -- A section under a `ReadLockGuard`, which returns, runs on a lock without a writer. After that no section under
  -- a `WriteLockGuard` ever begins, for any number of attempts, unless other threads release more read locks than
  -- they take.
  pub read_guard-write_guard {ℓ κ} :
      {S : Type ℓ} {T : Type κ} (rest attempts : List (L → L)) (reading : S → Run S)
      (writing : T → Run T) (l : L) (s s' : S) (t : T)
      → p.writing l ≡ false
      → Stay p attempts
      → reading s ≡ done s'
      → (l' : L) × (read_guard p ((λ x. x) ∷ rest) reading l s ≡ done (l', s'))
        × (write_guard p attempts writing l' t ≡ fault out_of_fuel)
  unfolding read_guard write_guard read_unlock
  read_guard-write_guard rest attempts reading writing l s s' t w stay e =
      let (held, q, n, w') = read_lock_lem rest l w in
      let (n', w'') = h.unlock_read held (p.readers l + 1) w' (omega (arith, n)) in
      (
        p.unlock held,
        rw (q, e) refl,
        rw (write_lock_waits attempts (p.unlock held) stay (omega (arith, n'), w'')) refl,
      )
