-- ===== src/Lock/Tests.antt =====
-- A lock that is a number of readers and whether there is a writer.
use bsgame_server.Base.{
  ℕ, ◌+◌, ◌-◌, ◌≡◌, ◌≤◌, refl, [], ◌∷◌, Bool, true, false, if◌then◌else◌, ◌==◌, inl, inr, arith,
}
use bsgame_server.Base.Run.{done, fault, out_of_fuel}
use bsgame_server.Lock.{RwLock, IsRwLock, write_lock, write_unlock, read_guard, write_guard}
use bsgame_server.Lock.Pairs.{read_guard-write_guard, writer_pair}

abbrev Pair : Type 0
Pair = ℕ × Bool

abbrev counting : RwLock Pair
counting = record {
  try_read = λ l. if l.1 then (false, l) else (true, (l.0 + 1, false));
  read = λ l. (l.0 + 1, l.1);
  try_write = λ l. if l.1 then (false, l) else (if l.0 == 0 then (true, (0, true)) else (false, l));
  write = λ l. l;
  unlock = λ l. if l.1 then (l.0, false) else (l.0 - 1, false);
  readers = λ l. l.0;
  writing = λ l. l.1;
}

counting-IsRwLock : IsRwLock counting
counting-IsRwLock = record {
  try_read_free = λ l w. rw w (refl, refl, refl);
  read_lem = λ l w. (refl, w);
  try_write_free = λ l w n. rw (w, n) (refl, refl, refl);
  try_write_held = λ l h. held l h;
  write_lem = λ l w. refl;
  unlock_read = λ l n w h. rw (w, h) (omega arith, refl);
  unlock_write = λ l w. rw w (refl, refl);
}
  where
    held : (l : Pair) → 1 ≤ l.0 → counting.try_write l ≡ (false, l)
    held (n, true) h = refl
    held (n, false) h = ground arith

read_guard-write_guard_example :
    (l' : Pair) × (read_guard counting ((λ x. x) ∷ []) (λ n. done (n + 1)) (0, false) 7
      ≡ done (l', 8))
    × (write_guard counting ((λ x. x) ∷ (λ x. x) ∷ []) (λ (n : ℕ). done (n + 2)) l' 8
        ≡ fault out_of_fuel)
read_guard-write_guard_example =
    read_guard-write_guard counting counting-IsRwLock [] ((λ x. x) ∷ (λ x. x) ∷ [])
      (λ n. done (n + 1)) (λ n. done (n + 2)) (0, false) 7 8 8 refl ((λ l h. h), ((λ l h. h), tt))
      refl

-- A reader leaves between the two attempts.
writer_pair_example :
    (held : Pair) × (write_lock counting ((λ x. x) ∷ (λ x. (0, false)) ∷ []) (1, false) ≡ done held)
    × (counting.writing held ≡ true)
    × (counting.writing (write_unlock counting held) ≡ false)
    × (counting.readers (write_unlock counting held) ≡ 0)
writer_pair_example =
    writer_pair counting counting-IsRwLock ((λ x. x) ∷ (λ x. (0, false)) ∷ []) (1, false)
      (inr (omega arith, inl (refl, refl)))
