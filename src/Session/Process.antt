-- ===== src/Session/Process.antt =====
-- CoreLib/Session.cpp, `ReciveMessage`: the receive buffer before and after `OnRecv`.
use bsgame_server.Base.{
  ℕ, ◌+◌, ◌≤◌, ◌≡◌, refl, sym, List, ◌++◌, true, false, inl, inr, length, drop, take-append-drop,
  arith,
}
use bsgame_server.Base.Int.{pos, pos_part, ◌≤ℤ◌}
use bsgame_server.Base.Run.{Run, done, ◌>>=◌, Run-cases}
use bsgame_server.RecvBuffer.{RecvBuffer, data_size, read_ptr, clean, free_size}
use bsgame_server.RecvBuffer.Laws.{IsValid, pending, length-pending, data_size_parts}
use bsgame_server.RecvBuffer.Pending.{on_read-ok, received}
use bsgame_server.Session.{Session, process, disconnect}

-- A session whose buffer has given up its first `n` bytes, and is cleaned.
unfoldable pub advanced : Session → ℕ → Session
advanced s n = record s {
  recv_buffer =
      clean (record s.recv_buffer { read_pos = pos (pos_part s.recv_buffer.read_pos + n) });
}

-- A session that is disconnected because no byte was used.
unfoldable pub unused : Session → Session
unfolding disconnect
unused s = disconnect (record s {
  recv_buffer = record s.recv_buffer { read_pos = pos (pos_part s.recv_buffer.read_pos + 0) };
})

module _ {ℓ} {S : Type ℓ} (on_recv : List ℕ → ℕ → S → Run (S × ℕ)) where
  pub process-ok :
      (s : Session) (st : S) (call : Run S) (n : ℕ)
      → IsValid s.recv_buffer
      → on_recv (read_ptr s.recv_buffer) (pos_part (data_size s.recv_buffer)) st
        ≡ (call >>= λ st'. done (st', n))
      → 1 ≤ n
      → n ≤ length (pending s.recv_buffer)
      → process on_recv s st ≡ (call >>= λ st'. done (true, advanced s n, st'))
  unfolding process advanced
  process-ok s st call n v e h k = elim (Run-cases call) [
    | inl (st', f) ↦
        rw (e, f, on_read-ok v n k) (ground (arith, data_size_parts v, length-pending v))
    | inr (x, f) ↦ rw (e, f) refl
  ]

  pub process-none :
      (s : Session) (st : S)
      → IsValid s.recv_buffer
      → on_recv (read_ptr s.recv_buffer) (pos_part (data_size s.recv_buffer)) st ≡ done (st, 0)
      → process on_recv s st ≡ done (false, unused s, st)
  unfolding process disconnect unused
  process-none s st v e = rw (e, on_read-ok v 0 (omega arith)) refl

-- A session whose buffer has received bytes.
unfoldable pub filled :
    (s : Session) (bytes : List ℕ)
    → IsValid s.recv_buffer
    → pos (length bytes) ≤ℤ free_size s.recv_buffer
    → Session
filled s bytes v h = record s { recv_buffer = received v bytes h }

-- The array from the unread bytes on, and what stands behind them.
unfoldable pub behind : RecvBuffer → List ℕ
behind r = drop (pos_part (data_size r)) (read_ptr r)

pub read_ptr_lem : (r : RecvBuffer) → read_ptr r ≡ pending r ++ behind r
unfolding behind
read_ptr_lem r = sym (take-append-drop (pos_part (data_size r)) (read_ptr r))
