-- ===== src/Session/Tests.antt =====
-- A new session that receives a packet and the start of the next, one that receives two bytes, and
-- one that sends.
use bsgame_server.Base.{
  ℕ, ◌+◌, ◌≡◌, refl, ap, ◌<◌, List, [], ◌∷◌, ◌++◌, true, false, inl, arith, length,
}
use bsgame_server.Base.Int.{pos, ◌≤ℤ◌, int32, sub_int32, ◌-ℤ◌, ◌*ℤ◌}
use bsgame_server.Base.Run.{Run, done, ◌>>=◌}
use bsgame_server.Base.Words.{word16}
use bsgame_server.RecvBuffer.{create, free_size}
use bsgame_server.RecvBuffer.Laws.{IsValid, pending}
use bsgame_server.RecvBuffer.Queue.{create-IsValid, pending-create}
use bsgame_server.Framing.{on_recv, packet_size}
use bsgame_server.Framing.Packets.{handle_all, AllPackets}
use bsgame_server.Session.{Session, open_session, receive_message}
use bsgame_server.Session.Receive.{receive_message_lem, partial_disconnects}

abbrev client : Session
client = open_session (pos 5)

client-IsValid : IsValid client.recv_buffer
unfolding open_session create
client-IsValid = create-IsValid 0x10000 (omega arith)

client_pending : pending client.recv_buffer ≡ []
unfolding open_session create
client_pending = pending-create 0x10000 (omega arith)

client_free : pos 600000 ≤ℤ free_size client.recv_buffer
unfolding open_session create free_size sub_int32 ◌-ℤ◌ int32 ◌*ℤ◌
client_free = omega arith

abbrev tally : List ℕ → ℕ → ℕ → Run ℕ
tally packet size s = done (s + size)

abbrev packet : List ℕ
packet = 7 ∷ 0 ∷ 5 ∷ 0 ∷ 9 ∷ []

one_packet : AllPackets (packet ∷ [])
unfolding packet_size word16
one_packet = ((omega arith, refl), tt)

receive_message_lem_example :
    (s' : Session) × (junk : List ℕ) × (receive_message
        (on_recv tally 2)
        client
        (packet ++ (3 ∷ 0 ∷ []))
        0
      ≡ (handle_all tally (packet ∷ []) ((3 ∷ 0 ∷ []) ++ junk) 0 >>= λ st'. done (true, s', st')))
    × IsValid s'.recv_buffer
    × (pending s'.recv_buffer ≡ 3 ∷ 0 ∷ [])
    × (s'.connected ≡ true)
    × (s'.send_buffers ≡ [])
    × (s'.socket_fd ≡ pos 5)
unfolding open_session
receive_message_lem_example =
    receive_message_lem tally 2 client 7 (0 ∷ 5 ∷ 0 ∷ 9 ∷ 3 ∷ 0 ∷ []) packet [] (3 ∷ 0 ∷ []) 0
      client-IsValid (omega (arith, client_free))
      (ap (λ l. l ++ (packet ++ (3 ∷ 0 ∷ []))) client_pending) one_packet (inl (omega arith))
      (omega arith)

two_bytes : length (pending client.recv_buffer ++ (3 ∷ 0 ∷ [])) < 4
two_bytes = rw client_pending (omega arith)

partial_disconnects_example :
    (s' : Session) × (receive_message (on_recv tally 1) client (3 ∷ 0 ∷ []) 0 ≡ done (false, s', 0))
    × (s'.connected ≡ false)
partial_disconnects_example =
    partial_disconnects tally 1 client 3 (0 ∷ []) 0 client-IsValid (omega (arith, client_free))
      (inl two_bytes) (omega arith)
