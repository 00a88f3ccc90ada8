-- ===== src/Session/Ending.antt =====
-- CoreLib/Session.cpp, `ReciveMessage`: a call that returns `false` has disconnected the session.
use bsgame_server.Base.{
  ℕ, ◌≡◌, refl, ap, List, [], ◌∷◌, Bool, true, false, inl, inr, Bool-cases, not, ◌||◌, length,
}
use bsgame_server.Base.Int.{pos, pos_part, leb_ℤ, ltb_ℤ}
use bsgame_server.Base.Run.{Run, done, fault, >>=-eq-done}
use bsgame_server.RecvBuffer.{read_ptr, data_size, on_read, on_write, fill}
use bsgame_server.Session.{Session, process, receive_message, disconnect}

module _ {S : Type 0} (on_recv : List ℕ → ℕ → S → Run (S × ℕ)) where
  abbrev second : Session → Run (Bool × Session × S) → Session
  second s (done x) = x.1
  second s (fault y) = s

  abbrev handled : Run (Bool × Session × S) → Bool
  handled (done x) = x.0
  handled (fault y) = true

  truth_apart : true ≡ false → ⊥
  truth_apart e = cc

  -- The session of a result that has been disconnected.
  result_disconnected :
      (t s' : Session) (st st' : S)
      → t.connected ≡ false
      → ◌≡◌ {A = Run (Bool × Session × S)} (done (false, t, st)) (done (false, s', st'))
      → s'.connected ≡ false
  result_disconnected t s' st st' c e = let same : t ≡ s' = ap (second t) e in cc

  process-disconnected :
      (s s' : Session) (st st' : S)
      → process on_recv s st ≡ done (false, s', st')
      → s'.connected ≡ false
  unfolding process disconnect
  process-disconnected s s' st st' e =
      let ((h, n), q, more) =
        >>=-eq-done (on_recv (read_ptr s.recv_buffer) (pos_part (data_size s.recv_buffer)) st) _
          e in
      let refused =
        not (on_read s.recv_buffer (pos n)).0
        || leb_ℤ (pos n) (pos 0)
        || ltb_ℤ (data_size s.recv_buffer) (pos n) in
      elim (Bool-cases refused) [
        | inl c ↦ result_disconnected _ s' h st' refl (rw c at more)
        | inr c ↦ absurd (truth_apart (ap handled (rw c at more)))
      ]

  pub receive_message-disconnected :
      (s s' : Session) (bytes : List ℕ) (st st' : S)
      → receive_message on_recv s bytes st ≡ done (false, s', st')
      → s'.connected ≡ false
  unfolding receive_message disconnect
  receive_message-disconnected s s' [] st st' e = result_disconnected _ s' st st' refl e
  receive_message-disconnected s s' (b ∷ bytes) st st' e =
      let written = on_write (fill s.recv_buffer (b ∷ bytes)) (pos (length (b ∷ bytes))) in
      elim (Bool-cases written.0) [
        | inl c ↦ process-disconnected (record s { recv_buffer = written.1 }) s' st st' (rw c at e)
        | inr c ↦ result_disconnected _ s' st st' refl (rw c at e)
      ]
