-- ===== src/RecvBuffer/Laws.antt =====
-- CoreLib/RecvBuffer.cpp: the representation invariant of `RecvBuffer`.
use bsgame_server.Base.{
  ℕ, ◌+◌, ◌-◌, ◌^◌, ◌<◌, ◌≡◌, refl, List, true, arith, length, take, drop, length-take, length-drop,
  length-append, Bool-cases, inl, inr, ◌∙◌,
}
use bsgame_server.Base.Int.{
  ℤ, pos, pos_part, neg_part, ◌≤ℤ◌, int32_id, add_int32, sub_int32, ◌+ℤ◌, ◌-ℤ◌, +ℤ_parts, -ℤ_parts,
  int_laws, eq_of_parts, parts_disjoint, eqb_ℤ, ltb_ℤ, eqb_ℤ→eq,
}
use bsgame_server.RecvBuffer.{
  RecvBuffer, data_size, free_size, clean, on_read, on_write, read_ptr, reset, compact,
}

-- The cursors lie in order inside the array, whose size an `int` holds.
pub record IsValid (r : RecvBuffer) : Type 0 where
  pub read_nonneg : pos 0 ≤ℤ r.read_pos
  pub ordered : r.read_pos ≤ℤ r.write_pos
  pub within : r.write_pos ≤ℤ r.capacity
  pub small : pos_part r.capacity < 2 ^ 31
  pub storage : length r.buffer ≡ pos_part r.capacity

-- The bytes received and not yet read.
abbrev pub pending : RecvBuffer → List ℕ
pending r = take (pos_part (data_size r)) (read_ptr r)

-- `a - b` does not wrap where both lie between 0 and `INT_MAX`.
pub sub_int32_lem :
    (a b : ℤ)
    → pos 0 ≤ℤ b
    → b ≤ℤ a
    → pos_part a < 2 ^ 31
    → sub_int32 a b ≡ pos (pos_part a - pos_part b)
unfolding sub_int32
sub_int32_lem a b h k l =
    rw
      (int32_id (a -ℤ b)
        (omega (arith, -ℤ_parts a b, parts_disjoint (a -ℤ b), parts_disjoint a, parts_disjoint b))
        (omega (arith, -ℤ_parts a b, parts_disjoint (a -ℤ b), parts_disjoint a, parts_disjoint b)))
      (eq_of_parts _ _
        (omega (arith, -ℤ_parts a b, parts_disjoint (a -ℤ b), parts_disjoint a, parts_disjoint b)))

pub add_int32_lem :
    (a b : ℤ)
    → pos 0 ≤ℤ a
    → pos 0 ≤ℤ b
    → pos_part a + pos_part b < 2 ^ 31
    → add_int32 a b ≡ pos (pos_part a + pos_part b)
unfolding add_int32
add_int32_lem a b h k l =
    rw
      (int32_id (a +ℤ b)
        (omega (arith, +ℤ_parts a b, parts_disjoint (a +ℤ b), parts_disjoint a, parts_disjoint b))
        (omega (arith, +ℤ_parts a b, parts_disjoint (a +ℤ b), parts_disjoint a, parts_disjoint b)))
      (eq_of_parts _ _
        (omega (arith, +ℤ_parts a b, parts_disjoint (a +ℤ b), parts_disjoint a, parts_disjoint b)))

pub data_size_lem :
    {r : RecvBuffer} → IsValid r → data_size r ≡ pos (pos_part r.write_pos - pos_part r.read_pos)
unfolding data_size
data_size_lem {r} v = sub_int32_lem r.write_pos r.read_pos v.read_nonneg v.ordered (omega int_laws)

pub free_size_lem :
    {r : RecvBuffer} → IsValid r → free_size r ≡ pos (pos_part r.capacity - pos_part r.write_pos)
unfolding free_size
free_size_lem {r} v = sub_int32_lem r.capacity r.write_pos (omega arith) v.within v.small

pub nonneg_eq : {a : ℤ} → pos 0 ≤ℤ a → a ≡ pos (pos_part a)
nonneg_eq {a} h = omega int_laws

pub clean_cases {ℓ} :
    (P : RecvBuffer → Type ℓ) (r : RecvBuffer)
    → (data_size r ≡ pos 0 → P (reset r))
    → (ltb_ℤ (free_size r) r.buffer_size ≡ true → P (compact r))
    → P r
    → P (clean r)
unfolding clean
clean_cases P r first second third = elim (Bool-cases (eqb_ℤ (data_size r) (pos 0))) [
  | inl e ↦ rw e (first (eqb_ℤ→eq _ _ e))
  | inr e ↦ rw e (elim (Bool-cases (ltb_ℤ (free_size r) r.buffer_size)) [
    | inl f ↦ rw f (second f)
    | inr f ↦ rw f third
  ])
]

module _ {r : RecvBuffer} (v : IsValid r) where
  pub data_size_parts :
      (pos_part (data_size r) ≡ pos_part r.write_pos - pos_part r.read_pos)
      × (neg_part (data_size r) ≡ 0)
  data_size_parts = rw (data_size_lem v) (refl, refl)

  pub free_size_parts :
      (pos_part (free_size r) ≡ pos_part r.capacity - pos_part r.write_pos)
      × (neg_part (free_size r) ≡ 0)
  free_size_parts = rw (free_size_lem v) (refl, refl)

  pub length-pending : length (pending r) ≡ pos_part r.write_pos - pos_part r.read_pos
  unfolding read_ptr
  length-pending = omega (
    arith,
    length-take (pos_part (data_size r)) (drop (pos_part r.read_pos) r.buffer),
    length-drop (pos_part r.read_pos) r.buffer,
    data_size_parts,
    parts_disjoint r.write_pos,
    parts_disjoint r.capacity,
    v,
  )

  length-compact : length (compact r).buffer ≡ length r.buffer
  unfolding compact read_ptr
  length-compact = omega (
    arith,
    length-append (take (pos_part (data_size r)) (drop (pos_part r.read_pos) r.buffer))
        (drop (pos_part (data_size r)) r.buffer),
    length-pending,
    length-drop (pos_part (data_size r)) r.buffer,
    data_size_parts,
    parts_disjoint r.write_pos,
    parts_disjoint r.capacity,
    v,
  )

  pub compact-IsValid : IsValid (compact r)
  unfolding compact
  compact-IsValid = record {
    read_nonneg = omega arith;
    ordered = omega (arith, data_size_parts);
    within =
        omega (arith, data_size_parts, parts_disjoint r.write_pos, parts_disjoint r.capacity, v);
    small = v.small;
    storage = length-compact ∙ v.storage;
  }

  pub reset-IsValid : IsValid (reset r)
  unfolding reset
  reset-IsValid = record {
    read_nonneg = omega arith;
    ordered = omega arith;
    within = omega (arith, v);
    small = v.small;
    storage = v.storage;
  }

  pub clean-IsValid : IsValid (clean r)
  clean-IsValid = clean_cases IsValid r (λ _. reset-IsValid) (λ _. compact-IsValid) v

  pub on_read-IsValid : (n : ℤ) → pos 0 ≤ℤ n → IsValid (on_read r n).1
  unfolding on_read
  on_read-IsValid n h = ground (
    arith,
    data_size_parts,
    add_int32_lem r.read_pos n,
    parts_disjoint n,
    parts_disjoint r.write_pos,
    parts_disjoint r.capacity,
  )

  pub on_write-IsValid : (n : ℤ) → pos 0 ≤ℤ n → IsValid (on_write r n).1
  unfolding on_write
  on_write-IsValid n h = ground (
    arith,
    free_size_parts,
    add_int32_lem r.write_pos n,
    parts_disjoint n,
    parts_disjoint r.write_pos,
    parts_disjoint r.capacity,
  )
