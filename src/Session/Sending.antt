-- ===== src/Session/Sending.antt =====
-- What waits for `sendmsg`.
use bsgame_server.Base.{
  ◌≡◌, refl, sym, ap, ◌∙◌, List, [], ◌∷◌, ◌++◌, append_assoc, append-nil, true, false,
  if◌then◌else◌,
}
use bsgame_server.Base.Int.{ℤ, pos, leb_ℤ}
use bsgame_server.SendBuffer.Chunk.{SendBuffer}
use bsgame_server.Session.{Session, push_buffer, send}

unfoldable pub push_buffers : Session → List SendBuffer → Session
push_buffers s [] = s
push_buffers s (b ∷ bs) = push_buffers (push_buffer s b) bs

push_buffers_lem :
    (bs : List SendBuffer) (s : Session)
    → push_buffers s bs ≡ record s { send_buffers = s.send_buffers ++ bs }
unfolding push_buffers push_buffer
push_buffers_lem [] s = ap (λ l. record s { send_buffers = l }) (sym (append-nil s.send_buffers))
push_buffers_lem (b ∷ bs) s =
    push_buffers_lem bs (push_buffer s b)
    ∙ ap (λ l. record s { send_buffers = l }) (append_assoc s.send_buffers (b ∷ []) bs)

-- `Send` on a connected session gives `sendmsg` every buffer that was pushed since the last `Send`,
-- in order, and its own as the last; then nothing waits, whatever `sendmsg` answers, and the result
-- says whether that was positive.
pub send-push_buffers :
    (result : ℤ) (s : Session) (bs : List SendBuffer) (b : SendBuffer)
    → s.connected ≡ true
    → send result (push_buffers s bs) b ≡ (
      (if leb_ℤ result (pos 0) then false else true),
      s.send_buffers ++ (bs ++ (b ∷ [])),
      record s { send_buffers = [] },
    )
unfolding send push_buffer
send-push_buffers result s bs b c =
    rw (push_buffers_lem bs s, c, append_assoc s.send_buffers bs (b ∷ [])) refl
