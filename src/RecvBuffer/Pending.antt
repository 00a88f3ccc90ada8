-- ===== src/RecvBuffer/Pending.antt =====
-- What each operation of `RecvBuffer` does to the bytes that are still to be read.
use bsgame_server.Base.{
  ℕ, ◌+◌, ◌≤◌, ◌<◌, ◌≡◌, refl, List, ◌++◌, true, false, arith, length, take, drop, length-take,
  length-drop, length-append, ◌⊎◌, inl, inr, ◌∙◌, sym, ap, take-append, eq_nil_of_length, ap₂,
  drop-drop, drop-take, drop-append_le, take-append_add,
}
use bsgame_server.Base.Int.{pos, pos_part, ◌≤ℤ◌, parts_disjoint}
use bsgame_server.RecvBuffer.{
  RecvBuffer, data_size, free_size, clean, on_read, on_write, fill, read_ptr, reset, compact,
}
use native.Mathlib.Decide.{dec_le}
use bsgame_server.RecvBuffer.Laws.{
  IsValid, pending, add_int32_lem, clean_cases, data_size_parts, free_size_parts, length-pending,
  reset-IsValid, compact-IsValid,
}

module _ {r : RecvBuffer} (v : IsValid r) where
  pending-reset : data_size r ≡ pos 0 → pending (reset r) ≡ pending r
  unfolding reset
  pending-reset e =
      eq_nil_of_length _ (length-pending (reset-IsValid v))
      ∙ sym (eq_nil_of_length _ (length-pending v ∙ sym (data_size_parts v).0 ∙ ap pos_part e))

  pending-compact : pending (compact r) ≡ pending r
  unfolding compact read_ptr
  pending-compact =
      take-append (pending r) (drop (pos_part (data_size r)) r.buffer) _
        (omega (arith, data_size_parts (compact-IsValid v), length-pending v, data_size_parts v))

  -- `clean` moves bytes about and loses none.
  pub pending-clean : pending (clean r) ≡ pending r
  pending-clean =
      clean_cases (λ c. pending c ≡ pending r) r pending-reset (λ _. pending-compact) refl

  -- The two outcomes of a read and of a write.
  pub on_read-ok :
      (n : ℕ)
      → n ≤ length (pending r)
      → on_read r (pos n) ≡ (true, record r { read_pos = pos (pos_part r.read_pos + n) })
  unfolding on_read
  on_read-ok n h = ground (
    arith,
    data_size_parts v,
    length-pending v,
    add_int32_lem r.read_pos (pos n),
    parts_disjoint r.write_pos,
    parts_disjoint r.capacity,
  )

  pub on_read-fail : (n : ℕ) → length (pending r) < n → on_read r (pos n) ≡ (false, r)
  unfolding on_read
  on_read-fail n h = ground (arith, data_size_parts v, length-pending v)

  pub on_write-ok :
      (n : ℕ)
      → pos n ≤ℤ free_size r
      → on_write r (pos n) ≡ (true, record r { write_pos = pos (pos_part r.write_pos + n) })
  unfolding on_write
  on_write-ok n h = ground (
    arith,
    free_size_parts v,
    add_int32_lem r.write_pos (pos n),
    parts_disjoint r.write_pos,
    parts_disjoint r.capacity,
  )

  pub advance-IsValid :
      (n : ℕ)
      → n ≤ length (pending r)
      → IsValid (record r { read_pos = pos (pos_part r.read_pos + n) })
  advance-IsValid n h = record {
    read_nonneg = omega arith;
    ordered =
        omega (arith, length-pending v, parts_disjoint r.write_pos, parts_disjoint r.read_pos, v);
    within = v.within;
    small = v.small;
    storage = v.storage;
  }

  pub pending-advance :
      (n : ℕ)
      → n ≤ length (pending r)
      → pending (record r { read_pos = pos (pos_part r.read_pos + n) }) ≡ drop n (pending r)
  unfolding read_ptr
  pending-advance n h =
      ap₂ take (omega (arith, data_size_parts (advance-IsValid n h), data_size_parts v))
        (sym (drop-drop n (pos_part r.read_pos) r.buffer))
      ∙ sym (drop-take n (pos_part (data_size r)) (drop (pos_part r.read_pos) r.buffer))

  -- A read that succeeds takes its bytes off the front of the unread ones; one that fails asked for
  -- more than there were, and changes nothing.
  pub pending-on_read :
      (n : ℕ)
      → ((n ≤ length (pending r))
          × ((on_read r (pos n)).0 ≡ true)
          × (pending (on_read r (pos n)).1 ≡ drop n (pending r)))
        ⊎ ((length (pending r) < n) × (on_read r (pos n) ≡ (false, r)))
  pending-on_read n = elim (dec_le n (length (pending r))) [
    | yes h ↦ inl (h, rw (on_read-ok n h) refl, rw (on_read-ok n h) (pending-advance n h))
    | no h ↦ inr (omega arith, on_read-fail n (omega arith))
  ]

module _ {r : RecvBuffer} (v : IsValid r) (bytes : List ℕ)
    (h : pos (length bytes) ≤ℤ free_size r) where
  pub fill-IsValid : IsValid (fill r bytes)
  unfolding fill
  fill-IsValid = record {
    read_nonneg = v.read_nonneg;
    ordered = v.ordered;
    within = v.within;
    small = v.small;
    storage = omega (
      arith,
      v,
      h,
      free_size_parts v,
      parts_disjoint r.write_pos,
      parts_disjoint r.capacity,
      length-append (take (pos_part r.write_pos) r.buffer)
          (bytes ++ drop (pos_part r.write_pos + length bytes) r.buffer),
      length-append bytes (drop (pos_part r.write_pos + length bytes) r.buffer),
      length-take (pos_part r.write_pos) r.buffer,
      length-drop (pos_part r.write_pos + length bytes) r.buffer,
    );
  }

  pub received : RecvBuffer
  received = record (fill r bytes) { write_pos = pos (pos_part r.write_pos + length bytes) }

  pub received-IsValid : IsValid received
  unfolding received fill
  received-IsValid = record {
    read_nonneg = v.read_nonneg;
    ordered = omega (arith, v, parts_disjoint r.write_pos);
    within =
        omega
          (arith, v, h, free_size_parts v, parts_disjoint r.write_pos, parts_disjoint r.capacity);
    small = v.small;
    storage = fill-IsValid.storage;
  }

  pub capacity-received : received.capacity ≡ r.capacity
  unfolding received fill
  capacity-received = refl

  pub on_write-received : on_write (fill r bytes) (pos (length bytes)) ≡ (true, received)
  unfolding received fill free_size
  on_write-received = on_write-ok fill-IsValid (length bytes) h

  -- What stands behind the received bytes.
  tail : List ℕ
  tail = drop (pos_part r.write_pos + length bytes) r.buffer

  drop-filled :
      drop (pos_part r.read_pos) (take (pos_part r.write_pos) r.buffer ++ (bytes ++ tail))
      ≡ pending r ++ (bytes ++ tail)
  unfolding read_ptr
  drop-filled =
      drop-append_le (pos_part r.read_pos) (take (pos_part r.write_pos) r.buffer) (bytes ++ tail) (
        omega (
          arith,
          v,
          length-take (pos_part r.write_pos) r.buffer,
          parts_disjoint r.read_pos,
          parts_disjoint r.write_pos,
          parts_disjoint r.capacity,
        ))
      ∙ ap (λ xs. xs ++ (bytes ++ tail))
          (drop-take (pos_part r.read_pos) (pos_part r.write_pos) r.buffer
            ∙ ap (λ n. take n (drop (pos_part r.read_pos) r.buffer)) (sym (data_size_parts v).0))

  pub pending-received : pending received ≡ pending r ++ bytes
  unfolding received fill read_ptr tail
  pending-received =
      ap₂ take
        (omega (
          arith,
          v,
          data_size_parts received-IsValid,
          length-pending v,
          parts_disjoint r.read_pos,
          parts_disjoint r.write_pos,
        ))
        drop-filled
      ∙ take-append_add (length bytes) (pending r) (bytes ++ tail)
      ∙ ap (◌++◌ (pending r)) (take-append bytes tail (length bytes) refl)

  -- What `recv` stores within the free space is appended to the unread bytes.
  pub pending-on_write :
      ((on_write (fill r bytes) (pos (length bytes))).0 ≡ true)
      × (pending (on_write (fill r bytes) (pos (length bytes))).1 ≡ pending r ++ bytes)
  pending-on_write = rw on_write-received (refl, pending-received)
