-- ===== src/RecvBuffer/Queue.antt =====
-- `RecvBuffer` against the byte queue that `Session` uses it as.
use bsgame_server.Base.{
  ℕ, ◌*◌, ◌<◌, ◌≡◌, refl, ◌≢◌, ◌^◌, List, [], ◌∷◌, ◌++◌, Bool, true, false, arith, length, drop,
  if◌then◌else◌, ltb, inl, inr, ◌∙◌, sym, ap, eq_nil_of_length, Bool-cases, length-replicate,
}
use bsgame_server.Base.Int.{pos, pos_part, ◌≤ℤ◌, ◌*ℤ◌, int32, eqb_ℤ, eqb_ℤ→eq, ltb_ℤ}
use bsgame_server.RecvBuffer.{
  RecvBuffer, create, data_size, free_size, clean, on_read, on_write, fill,
}
use bsgame_server.RecvBuffer.Laws.{
  IsValid, pending, clean-IsValid, on_read-IsValid, length-pending, data_size_parts,
  free_size_parts,
}
use bsgame_server.RecvBuffer.Pending.{
  pending-clean, pending-on_read, received-IsValid, pending-received, on_write-received,
}

-- What a session does with its buffer: store the bytes of one `recv`, take processed bytes off, and
-- clean up.
pub data Op : Type 0 where
  receives : List ℕ → Op
  reads : ℕ → Op
  cleans : Op

unfoldable pub apply : RecvBuffer → Op → Bool × RecvBuffer
apply r (receives bytes) = on_write (fill r bytes) (pos (length bytes))
apply r (reads n) = on_read r (pos n)
apply r cleans = (true, clean r)

unfoldable pub run : RecvBuffer → List Op → RecvBuffer
unfolding apply
run r [] = r
run r (o ∷ os) = run (apply r o).1 os

-- The specification: a queue of bytes.
pub apply_queue : List ℕ → Op → Bool × List ℕ
apply_queue q (receives bytes) = (true, q ++ bytes)
apply_queue q (reads n) = if ltb (length q) n then (false, q) else (true, drop n q)
apply_queue q cleans = (true, q)

-- Each `recv` is given `FreeSize()` and stores no more.
abbrev pub Fits : RecvBuffer → Op → Type 0
Fits r (receives bytes) = pos (length bytes) ≤ℤ free_size r
Fits r (reads n) = Unit {0}
Fits r cleans = Unit {0}

abbrev pub AllFit : RecvBuffer → List Op → Type 0
AllFit r [] = Unit {0}
AllFit r (o ∷ os) = Fits r o × AllFit (apply r o).1 os

-- With no more bytes received than are free, every operation keeps the cursors ordered and
-- inside the array.
pub apply-IsValid : {r : RecvBuffer} (o : Op) → IsValid r → Fits r o → IsValid (apply r o).1
unfolding apply
apply-IsValid {r} (receives bytes) v h =
    rw (on_write-received v bytes h) (received-IsValid v bytes h)
apply-IsValid (reads n) v h = on_read-IsValid v (pos n) (omega arith)
apply-IsValid cleans v h = clean-IsValid v

-- On a valid buffer, and with no more bytes received than are free, every operation answers, and
-- leaves unread, what the byte queue does.
pub apply_refines :
    {r : RecvBuffer} (o : Op)
    → IsValid r
    → Fits r o
    → ((apply r o).0, pending (apply r o).1) ≡ apply_queue (pending r) o
unfolding apply apply_queue
apply_refines (receives bytes) v h =
    rw (on_write-received v bytes h) (ap (λ q. (true, q)) (pending-received v bytes h))
apply_refines (reads n) v h = ground (arith, pending-on_read v n)
apply_refines cleans v h = ap (λ q. (true, q)) (pending-clean v)

pub run-IsValid : {r : RecvBuffer} (os : List Op) → IsValid r → AllFit r os → IsValid (run r os)
unfolding run
run-IsValid [] v h = v
run-IsValid {r = r} (o ∷ os) v h = run-IsValid {r = (apply r o).1} os (apply-IsValid o v h.0) h.1

capacity_lem : (n : ℕ) → n * 10 < 2 ^ 31 → int32 (pos n *ℤ pos 10) ≡ pos (n * 10)
unfolding int32 ◌*ℤ◌
capacity_lem n h = ground arith

pub create-IsValid : (n : ℕ) → n * 10 < 2 ^ 31 → IsValid (create (pos n))
unfolding create
create-IsValid n h = rw (capacity_lem n h) (record {
  read_nonneg = omega arith;
  ordered = omega arith;
  within = omega arith;
  small = h;
  storage = length-replicate (n * 10) 0;
})

pub pending-create : (n : ℕ) → n * 10 < 2 ^ 31 → pending (create (pos n)) ≡ []
unfolding create
pending-create n h = eq_nil_of_length _ (length-pending (create-IsValid n h))

apply-buffer_size : (r : RecvBuffer) (o : Op) → (apply r o).1.buffer_size ≡ r.buffer_size
unfolding apply on_write on_read clean fill
apply-buffer_size r (receives bytes) = ground arith
apply-buffer_size r (reads n) = ground arith
apply-buffer_size r cleans = ground arith

run-buffer_size : (r : RecvBuffer) (os : List Op) → (run r os).buffer_size ≡ r.buffer_size
unfolding run
run-buffer_size r [] = refl
run-buffer_size r (o ∷ os) = run-buffer_size (apply r o).1 os ∙ apply-buffer_size r o

clean-idle : {r : RecvBuffer} → IsValid r → r.buffer_size ≡ pos 0 → pending r ≢ [] → clean r ≡ r
unfolding clean
clean-idle {r} v e h = elim (Bool-cases (eqb_ℤ (data_size r) (pos 0))) [
  | inl z ↦ absurd (
      h (
        eq_nil_of_length _ (
          length-pending v
          ∙ sym (data_size_parts v).0
          ∙ ap pos_part (eqb_ℤ→eq (data_size r) (pos 0) z))))
  | inr z ↦ rw z (elim (Bool-cases (ltb_ℤ (free_size r) r.buffer_size)) [
    | inl f ↦ absurd (ground (arith, e, f, free_size_parts v))
    | inr f ↦ rw f refl
  ])
]

-- The branch of `Clean` that moves unread bytes to the front never runs: after any use of a
-- buffer that the constructor made, with a capacity below 2^31 and never more bytes received
-- than were free, `Clean` with bytes unread changes nothing.
pub clean_never_compacts :
    (n : ℕ) (os : List Op)
    → n * 10 < 2 ^ 31
    → AllFit (create (pos n)) os
    → pending (run (create (pos n)) os) ≢ []
    → clean (run (create (pos n)) os) ≡ run (create (pos n)) os
clean_never_compacts n os h fit ne =
    clean-idle (run-IsValid os (create-IsValid n h) fit)
      (run-buffer_size (create (pos n)) os ∙ unfold create in refl) ne
