-- ===== src/RecvBuffer/Tests.antt =====
-- Runs of the receive buffer: a buffer of 10 bytes that receives three.
use bsgame_server.Base.{ℕ, ◌≡◌, refl, sym, ◌∙◌, ◌≢◌, List, [], ◌∷◌, arith}
use bsgame_server.Base.Int.{pos, ◌≤ℤ◌, int32, sub_int32, add_int32, ◌+ℤ◌, ◌-ℤ◌, ◌*ℤ◌}
use bsgame_server.RecvBuffer.{
  RecvBuffer, create, free_size, data_size, read_ptr, clean, on_write, fill,
}
use bsgame_server.RecvBuffer.Laws.{IsValid, pending}
use bsgame_server.RecvBuffer.Queue.{
  Op, receives, apply, apply_queue, run, create-IsValid, apply_refines, clean_never_compacts,
}

abbrev empty_buffer : RecvBuffer
empty_buffer = create (pos 1)

abbrev three : Op
three = receives (1 ∷ 2 ∷ 3 ∷ [])

three_fit : pos 3 ≤ℤ free_size empty_buffer
unfolding create free_size sub_int32 ◌-ℤ◌ int32 ◌*ℤ◌
three_fit = omega arith

empty_buffer-IsValid : IsValid empty_buffer
empty_buffer-IsValid = create-IsValid 1 (omega arith)

apply_refines_example :
    ((apply empty_buffer three).0, pending (apply empty_buffer three).1)
    ≡ apply_queue (pending empty_buffer) three
apply_refines_example = apply_refines three empty_buffer-IsValid three_fit

pending-three : pending (run empty_buffer (three ∷ [])) ≡ 1 ∷ 2 ∷ 3 ∷ []
unfolding run apply on_write fill create free_size data_size read_ptr sub_int32 add_int32 ◌-ℤ◌ ◌+ℤ◌
    int32 ◌*ℤ◌
pending-three = refl

not_empty : ◌≢◌ {A = List ℕ} (1 ∷ 2 ∷ 3 ∷ []) []
not_empty e = cc

clean_never_compacts_example : clean (run empty_buffer (three ∷ [])) ≡ run empty_buffer (three ∷ [])
clean_never_compacts_example =
    clean_never_compacts 1 (three ∷ []) (omega arith) (three_fit, tt)
      (λ e. not_empty (sym pending-three ∙ e))
