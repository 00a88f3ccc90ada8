-- ===== src/Framing/Tests.antt =====
-- A stream of two packets and the start of a third; the handler adds up the sizes.
use bsgame_server.Base.{ℕ, ◌+◌, ◌≡◌, refl, List, [], ◌∷◌, ◌++◌, inl, some, arith, length}
use bsgame_server.Base.Run.{Run, done, fault, out_of_fuel, ◌>>=◌}
use bsgame_server.Base.Words.{word16}
use bsgame_server.Framing.{on_recv, on_recv_loop, packet_size}
use bsgame_server.Framing.Packets.{join, handle_all, AllPackets, on_recv-join, zero_size_spins}

abbrev tally : List ℕ → ℕ → ℕ → Run ℕ
tally packet size s = done (s + size)

abbrev two_packets : List (List ℕ)
two_packets = (7 ∷ 0 ∷ 5 ∷ 0 ∷ 9 ∷ []) ∷ (8 ∷ 0 ∷ 4 ∷ 0 ∷ []) ∷ []

two_packets_lem : AllPackets two_packets
unfolding packet_size word16
two_packets_lem = ((omega arith, refl), ((omega arith, refl), tt))

on_recv-join_example :
    on_recv tally 3
      (join two_packets ++ ((3 ∷ 0 ∷ []) ++ (6 ∷ [])))
      (length (join two_packets ++ (3 ∷ 0 ∷ [])))
      0
    ≡ (handle_all tally two_packets ((3 ∷ 0 ∷ []) ++ (6 ∷ [])) 0 >>= λ s'.
        done (s', length (join two_packets)))
on_recv-join_example =
    on_recv-join tally two_packets (3 ∷ 0 ∷ []) (6 ∷ []) 3 0 two_packets_lem (inl (omega arith))
      (omega arith)

no_size : packet_size (1 ∷ 0 ∷ 0 ∷ 0 ∷ []) ≡ some 0
unfolding packet_size word16
no_size = refl

zero_size_spins_example : on_recv_loop tally 100 (1 ∷ 0 ∷ 0 ∷ 0 ∷ []) 4 0 5 ≡ fault out_of_fuel
zero_size_spins_example =
    zero_size_spins tally (1 ∷ 0 ∷ 0 ∷ 0 ∷ []) 4 0 (omega arith) no_size (λ s. (s + 0, refl)) 100 5
