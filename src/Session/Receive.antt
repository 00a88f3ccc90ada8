-- ===== src/Session/Receive.antt =====
-- What `ReciveMessage` does with whole packets, and with the start of one.
use bsgame_server.Base.{
  ℕ, ◌+◌, ◌≤◌, ◌<◌, ◌≡◌, refl, sym, ap, ap₂, ◌∙◌, subst, List, [], ◌∷◌, ◌++◌, true, false, inl,
  append_assoc, append-nil, length, drop, length-append, drop-append, arith,
}
use bsgame_server.Base.Int.{ℤ, pos, pos_part, ◌≤ℤ◌}
use bsgame_server.Base.Run.{Run, done, ◌>>=◌}
use bsgame_server.RecvBuffer.{RecvBuffer, data_size, read_ptr, clean, reset, free_size}
use bsgame_server.RecvBuffer.Laws.{
  IsValid, pending, length-pending, data_size_parts, data_size_lem, clean-IsValid,
}
use bsgame_server.RecvBuffer.Pending.{
  capacity-received, advance-IsValid, pending-advance, pending-clean, received-IsValid,
  pending-received, on_write-received,
}
use bsgame_server.Framing.{on_recv}
use bsgame_server.Framing.Packets.{AllPackets, IsPartial, join, handle_all, on_recv-join}
use bsgame_server.Session.{Session, process, receive_message, disconnect}
use bsgame_server.Session.Process.{
  advanced, unused, process-ok, process-none, filled, behind, read_ptr_lem,
}

-- An empty buffer, with all of its bytes free.
pub record IsCleared (capacity : ℤ) (r : RecvBuffer) : Type 0 where
  pub read_start : r.read_pos ≡ pos 0
  pub write_start : r.write_pos ≡ pos 0
  pub size : r.capacity ≡ capacity

module _ {ℓ} {S : Type ℓ} (handle_packet : List ℕ → ℕ → S → Run S) (fuel : ℕ) where
  -- `OnRecv` on a buffer that holds whole packets and a part of one.
  on_recv-pending :
      (r : RecvBuffer) (ps : List (List ℕ)) (rest : List ℕ) (st : S)
      → IsValid r
      → pending r ≡ join ps ++ rest
      → AllPackets ps
      → IsPartial rest
      → length ps < fuel
      → on_recv handle_packet fuel (read_ptr r) (pos_part (data_size r)) st ≡ (
          handle_all handle_packet ps (rest ++ behind r) st >>= λ st'. done (st', length (join ps)))
  on_recv-pending r ps rest st v e all part f =
      ap₂ (λ buffer n. on_recv handle_packet fuel buffer n st)
        (read_ptr_lem r ∙ ap (λ l. l ++ behind r) e ∙ append_assoc (join ps) rest (behind r))
        ((data_size_parts v).0 ∙ sym (length-pending v) ∙ ap length e)
      ∙ on_recv-join handle_packet ps rest (behind r) fuel st all part f

  receive_message-filled :
      (s : Session) (b : ℕ) (bytes : List ℕ) (st : S) (v : IsValid s.recv_buffer)
      (h : pos (length (b ∷ bytes)) ≤ℤ free_size s.recv_buffer)
      → receive_message (on_recv handle_packet fuel) s (b ∷ bytes) st
        ≡ process (on_recv handle_packet fuel) (filled s (b ∷ bytes) v h) st
  unfolding receive_message filled
  receive_message-filled s b bytes st v h = rw (on_write-received v (b ∷ bytes) h) refl

  advanced_lem :
      (s : Session) (ps : List (List ℕ)) (rest : List ℕ)
      → IsValid s.recv_buffer
      → pending s.recv_buffer ≡ join ps ++ rest
      → IsValid (advanced s (length (join ps))).recv_buffer
        × (pending (advanced s (length (join ps))).recv_buffer ≡ rest)
  unfolding advanced
  advanced_lem s ps rest v e =
      let l : length (join ps) ≤ length (pending s.recv_buffer) =
        omega (arith, ap length e, length-append (join ps) rest) in
      let w = advance-IsValid v (length (join ps)) l in
      (
        clean-IsValid w,
        pending-clean w
            ∙ pending-advance v (length (join ps)) l
            ∙ ap (drop (length (join ps))) e
            ∙ drop-append (join ps) rest (length (join ps)) refl,
      )

  receive_message-advanced :
      (s : Session) (b : ℕ) (bytes : List ℕ) (p : List ℕ) (ps : List (List ℕ)) (rest : List ℕ)
      (st : S) (v : IsValid s.recv_buffer) (h : pos (length (b ∷ bytes)) ≤ℤ free_size s.recv_buffer)
      → pending (filled s (b ∷ bytes) v h).recv_buffer ≡ join (p ∷ ps) ++ rest
      → AllPackets (p ∷ ps)
      → IsPartial rest
      → length (p ∷ ps) < fuel
      → receive_message (on_recv handle_packet fuel) s (b ∷ bytes) st ≡ (
          handle_all handle_packet
            (p ∷ ps)
            (rest ++ behind (filled s (b ∷ bytes) v h).recv_buffer)
            st
          >>= λ st'. done (true, advanced (filled s (b ∷ bytes) v h) (length (join (p ∷ ps))), st'))
  unfolding filled
  receive_message-advanced s b bytes p ps rest st v h q all part f =
      let full = filled s (b ∷ bytes) v h in
      let w = received-IsValid v (b ∷ bytes) h in
      receive_message-filled s b bytes st v h
      ∙ process-ok (on_recv handle_packet fuel) full st
          (handle_all handle_packet (p ∷ ps) (rest ++ behind full.recv_buffer) st)
          (length (join (p ∷ ps))) w
          (on_recv-pending full.recv_buffer (p ∷ ps) rest st w q all part f)
          (omega (arith, all.0.0, length-append p (join ps)))
          (omega (arith, ap length q, length-append (join (p ∷ ps)) rest))

  -- The receive buffer is valid, `recv` stored at least one byte and no more than were free, the
  -- unread bytes are now whole packets, at least one, and then a part of one, and the loop has
  -- one round more than there are packets: `ReciveMessage` hands every whole packet to
  -- `HandlePacket`, in order, keeps exactly the bytes of the unfinished one in a valid buffer,
  -- and leaves the connection, its descriptor and the send buffers as they were; it faults only if
  -- `HandlePacket` does.
  pub receive_message_lem :
      (s : Session) (b : ℕ) (bytes : List ℕ) (p : List ℕ) (ps : List (List ℕ)) (rest : List ℕ)
      (st : S)
      → IsValid s.recv_buffer
      → pos (length (b ∷ bytes)) ≤ℤ free_size s.recv_buffer
      → pending s.recv_buffer ++ (b ∷ bytes) ≡ join (p ∷ ps) ++ rest
      → AllPackets (p ∷ ps)
      → IsPartial rest
      → length (p ∷ ps) < fuel
      → (s' : Session) × (junk : List ℕ) × (receive_message
            (on_recv handle_packet fuel)
            s
            (b ∷ bytes)
            st
          ≡ (handle_all handle_packet (p ∷ ps) (rest ++ junk) st >>= λ st'. done (true, s', st')))
        × IsValid s'.recv_buffer
        × (pending s'.recv_buffer ≡ rest)
        × (s'.connected ≡ s.connected)
        × (s'.send_buffers ≡ s.send_buffers)
        × (s'.socket_fd ≡ s.socket_fd)
  unfolding filled advanced
  receive_message_lem s b bytes p ps rest st v h e all part f =
      let full = filled s (b ∷ bytes) v h in
      let w = received-IsValid v (b ∷ bytes) h in
      let q : pending full.recv_buffer ≡ join (p ∷ ps) ++ rest =
        pending-received v (b ∷ bytes) h ∙ e in
      let (valid, left) = advanced_lem full (p ∷ ps) rest w q in
      (
        advanced full (length (join (p ∷ ps))),
        behind full.recv_buffer,
        receive_message-advanced s b bytes p ps rest st v h q all part f,
        valid,
        left,
        refl,
        refl,
        refl,
      )

  cleared_lem :
      (s : Session) (ps : List (List ℕ))
      → IsValid s.recv_buffer
      → pending s.recv_buffer ≡ join ps ++ []
      → IsCleared s.recv_buffer.capacity (advanced s (length (join ps))).recv_buffer
  unfolding advanced clean reset
  cleared_lem s ps v e =
      let n = length (join ps) in
      let all : n ≡ length (pending s.recv_buffer) =
        ap length (sym (append-nil (join ps)) ∙ sym e) in
      let w = advance-IsValid v n (omega (arith, all)) in
      let r : RecvBuffer = record s.recv_buffer {
        read_pos = pos (pos_part s.recv_buffer.read_pos + n);
      } in
      let none_left : pos_part (data_size r) ≡ 0 =
        omega
          (arith, length-pending w, data_size_parts w, length-pending v, data_size_parts v, all) in
      let z : data_size r ≡ pos 0 =
        data_size_lem w ∙ ap pos (omega (arith, none_left, data_size_parts w)) in
      rw z (record { read_start = refl; write_start = refl; size = refl })

  -- If nothing is left over, the buffer is empty again and begins at its start.
  pub receive_message-IsCleared :
      (s : Session) (b : ℕ) (bytes : List ℕ) (p : List ℕ) (ps : List (List ℕ)) (st : S)
      → IsValid s.recv_buffer
      → pos (length (b ∷ bytes)) ≤ℤ free_size s.recv_buffer
      → pending s.recv_buffer ++ (b ∷ bytes) ≡ join (p ∷ ps) ++ []
      → AllPackets (p ∷ ps)
      → length (p ∷ ps) < fuel
      → (s' : Session) × (junk : List ℕ) × (receive_message
            (on_recv handle_packet fuel)
            s
            (b ∷ bytes)
            st
          ≡ (handle_all handle_packet (p ∷ ps) junk st >>= λ st'. done (true, s', st')))
        × IsValid s'.recv_buffer
        × IsCleared s.recv_buffer.capacity s'.recv_buffer
        × (s'.connected ≡ s.connected)
        × (s'.socket_fd ≡ s.socket_fd)
  unfolding filled advanced
  receive_message-IsCleared s b bytes p ps st v h e all f =
      let full = filled s (b ∷ bytes) v h in
      let w = received-IsValid v (b ∷ bytes) h in
      let q : pending full.recv_buffer ≡ join (p ∷ ps) ++ [] =
        pending-received v (b ∷ bytes) h ∙ e in
      (
        advanced full (length (join (p ∷ ps))),
        behind full.recv_buffer,
        receive_message-advanced s b bytes p ps [] st v h q all (inl (omega arith)) f,
        (advanced_lem full (p ∷ ps) [] w q).0,
        subst (λ c. IsCleared c (advanced full (length (join (p ∷ ps)))).recv_buffer)
            (capacity-received v (b ∷ bytes) h) (cleared_lem full (p ∷ ps) w q),
        refl,
        refl,
      )

  -- The receive buffer is valid, `recv` stored at least one byte and no more than were free, and
  -- the unread bytes are not yet a whole packet: `ReciveMessage` handles nothing, disconnects
  -- the session and answers `false`, so that a packet that TCP delivers in two parts ends the
  -- connection.
  pub partial_disconnects :
      (s : Session) (b : ℕ) (bytes : List ℕ) (st : S)
      → IsValid s.recv_buffer
      → pos (length (b ∷ bytes)) ≤ℤ free_size s.recv_buffer
      → IsPartial (pending s.recv_buffer ++ (b ∷ bytes))
      → 0 < fuel
      → (s' : Session) × (receive_message (on_recv handle_packet fuel) s (b ∷ bytes) st
          ≡ done (false, s', st))
        × (s'.connected ≡ false)
  unfolding filled unused disconnect handle_all
  partial_disconnects s b bytes st v h part f =
      let full = filled s (b ∷ bytes) v h in
      let w = received-IsValid v (b ∷ bytes) h in
      (
        unused full,
        receive_message-filled s b bytes st v h
            ∙ process-none (on_recv handle_packet fuel) full st w (
                on_recv-pending full.recv_buffer [] (pending s.recv_buffer ++ (b ∷ bytes)) st w
                  (pending-received v (b ∷ bytes) h) tt part f),
        refl,
      )
