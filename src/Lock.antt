-- ===== src/Lock.antt =====
-- CoreLib/LockUtils.h, CoreLib/LockUtils.cpp: the spinning read-write lock.
pub mod Pairs
mod Tests
use bsgame_server.Base.{ℕ, ◌+◌, ◌≤◌, ◌≡◌, List, [], ◌∷◌, Bool, true, false, if◌then◌else◌}
use bsgame_server.Base.Run.{Run, done, fault, out_of_fuel, ◌>>=◌}

-- A `pthread_rwlock_t` and the calls of it. `readers` counts the read locks that are held, `writing` says
-- whether a write lock is. The first part of a `try` says whether it returned 0.
pub record RwLock (L : Type 0) : Type 0 where
  pub try_read : L → Bool × L
  pub read : L → L
  pub try_write : L → Bool × L
  pub write : L → L
  pub unlock : L → L
  pub readers : L → ℕ
  pub writing : L → Bool

-- What the manual page says of them where this code makes the calls: `read` with no writer; `write` by the
-- thread that holds the write lock, where the call fails with EDEADLK; `unlock` by a thread that holds a lock.
pub record IsRwLock {L : Type 0} (p : RwLock L) : Type 0 where
  pub try_read_free :
      (l : L)
      → p.writing l ≡ false
      → ((p.try_read l).0 ≡ true)
        × (p.readers (p.try_read l).1 ≡ p.readers l + 1)
        × (p.writing (p.try_read l).1 ≡ false)
  pub read_lem :
      (l : L)
      → p.writing l ≡ false
      → (p.readers (p.read l) ≡ p.readers l + 1) × (p.writing (p.read l) ≡ false)
  pub try_write_free :
      (l : L)
      → p.writing l ≡ false
      → p.readers l ≡ 0
      → ((p.try_write l).0 ≡ true)
        × (p.readers (p.try_write l).1 ≡ 0)
        × (p.writing (p.try_write l).1 ≡ true)
  pub try_write_held : (l : L) → 1 ≤ p.readers l → p.try_write l ≡ (false, l)
  pub write_lem : (l : L) → p.writing l ≡ true → p.write l ≡ l
  pub unlock_read :
      (l : L) (n : ℕ)
      → p.writing l ≡ false
      → p.readers l ≡ n + 1
      → (p.readers (p.unlock l) ≡ n) × (p.writing (p.unlock l) ≡ false)
  pub unlock_write :
      (l : L)
      → p.writing l ≡ true
      → (p.readers (p.unlock l) ≡ p.readers l) × (p.writing (p.unlock l) ≡ false)

module _ {L : Type 0} (p : RwLock L) where
  -- `ReadLock`. Each element of the list is an attempt of the two loops, and says what the other threads do to
  -- the lock before it.
  unfoldable pub read_lock : List (L → L) → L → Run L
  read_lock [] l = fault out_of_fuel
  read_lock (others ∷ rest) l =
      let (ok, l') = p.try_read (others l) in
      let again = read_lock rest l' in if ok then done (p.read l') else again

  -- `WriteLock`.
  unfoldable pub write_lock : List (L → L) → L → Run L
  write_lock [] l = fault out_of_fuel
  write_lock (others ∷ rest) l =
      let (ok, l') = p.try_write (others l) in
      let again = write_lock rest l' in if ok then done (p.write l') else again

  -- `ReadUnLock` and `WriteUnLock`, which the destructors of the guards call.
  unfoldable pub read_unlock : L → L
  read_unlock l = p.unlock l

  unfoldable pub write_unlock : L → L
  write_unlock l = p.unlock l

  -- `ReadLockGuard` and `WriteLockGuard`: the constructor takes the lock, the destructor at the end of the
  -- section gives it back. `section` is what stands between them.
  module _ {ℓ} {S : Type ℓ} (attempts : List (L → L)) (section : S → Run S) where
    unfoldable pub read_guard : L → S → Run (L × S)
    unfolding read_lock read_unlock
    read_guard l s =
        read_lock attempts l >>= λ held. section s >>= λ s'. done (read_unlock held, s')

    unfoldable pub write_guard : L → S → Run (L × S)
    unfolding write_lock write_unlock
    write_guard l s =
        write_lock attempts l >>= λ held. section s >>= λ s'. done (write_unlock held, s')
