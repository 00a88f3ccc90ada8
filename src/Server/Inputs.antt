-- ===== src/Server/Inputs.antt =====
-- What the clients send to the server and the kernel reports, as GameBS/BS_GameSession.cpp and
-- CoreLib/Service.cpp expect it.
use bsgame_server.Base.{ℕ, ◌*◌, ◌≤◌, ◌≡◌, List, [], ◌∷◌, true, some, length, length-append, arith}
use bsgame_server.Base.Int.{pos, ◌<ℤ◌}
use bsgame_server.Framing.Packets.{AllPackets, join}
use bsgame_server.Handler.Requests.{Request, IsSound, request_packet, request_packet-IsPacket}
use bsgame_server.Room.Task.Endless.{max_files}
use bsgame_server.Service.{Accepted, Reading, Event}
use bsgame_server.Service.Table.{ends, is_dry}
use bsgame_server.Service.Loop.{AllReadings}
use bsgame_server.Server.{GameEvent, TurnInput}

-- The bytes of a receive buffer, ten times 64 KB.
abbrev pub recv_capacity : ℕ
recv_capacity = 655360

-- More rounds than a full buffer has packets.
abbrev pub enough : ℕ
enough = 163841

abbrev pub packets : List Request → List (List ℕ)
packets [] = []
packets (r ∷ rs) = request_packet r ∷ packets rs

abbrev pub AllSound : List Request → Type 0
AllSound [] = Unit {0}
AllSound (r ∷ rs) = IsSound r × AllSound rs

-- What is there to read is nothing, or whole packets of sound requests, and fits the buffer.
abbrev pub IsRequests : Reading → Type 0
IsRequests x =
    (rs : List Request) × AllSound rs
    × (x.incoming ≡ join (packets rs))
    × (length x.incoming ≤ recv_capacity)

-- The descriptors that `accept` returns are those of a process.
abbrev pub AllFiles : List Accepted → Type 0
AllFiles [] = Unit {0}
AllFiles (a ∷ rest) = (a.client_fd <ℤ pos max_files) × AllFiles rest

-- The calls for an event come to an end, with a call of `accept` that gives no descriptor or one of `recv` that
-- gives no byte, if no other ends them.
abbrev pub IsSoundEvent : (fuel : ℕ) → GameEvent fuel → Type 0
IsSoundEvent fuel (Event.server epoll_in accepts) = (ends accepts ≡ true) × AllFiles accepts
IsSoundEvent fuel (Event.client fd reads) = (is_dry reads ≡ true) × AllReadings IsRequests reads

abbrev pub AllSoundEvents : (fuel : ℕ) → List (GameEvent fuel) → Type 0
AllSoundEvents fuel [] = Unit {0}
AllSoundEvents fuel (e ∷ rest) = IsSoundEvent fuel e × AllSoundEvents fuel rest

abbrev pub AllTurnInputs : (fuel : ℕ) → List (TurnInput fuel) → Type 0
AllTurnInputs fuel [] = Unit {0}
AllTurnInputs fuel (a ∷ rest) =
    ((events : List (GameEvent fuel)) × (a.events ≡ some events) × AllSoundEvents fuel events)
    × AllTurnInputs fuel rest

pub AllSound-AllPackets : (rs : List Request) → AllSound rs → AllPackets (packets rs)
AllSound-AllPackets [] s = tt
AllSound-AllPackets (r ∷ rs) s = (request_packet-IsPacket r s.0, AllSound-AllPackets rs s.1)

-- Each packet has at least its header.
pub length-packets : (rs : List Request) → 4 * length (packets rs) ≤ length (join (packets rs))
length-packets [] = omega arith
length-packets (r ∷ rs) =
    omega (arith, length-packets rs, length-append (request_packet r) (join (packets rs)))
