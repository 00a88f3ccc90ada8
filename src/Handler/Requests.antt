-- ===== src/Handler/Requests.antt =====
-- What the clients ask of the server, as GameBS/BS_GameSession.cpp, `HandlePacket`, reads it.
use bsgame_server.Base.{
  ℕ, ◌+◌, ◌*◌, ◌/◌, ◌%◌, ◌^◌, ◌≤◌, ◌<◌, ◌≡◌, ◌≢◌, refl, ap, ◌∙◌, List, [], ◌∷◌, ◌++◌, some, length,
  length-append, take-append, le→ltb, ne→==, arith,
}
use bsgame_server.Base.Int.{ℤ, IsInt32}
use bsgame_server.Base.Words.{bytes8, bytes16, bytes32, word16, word16-bytes16}
use bsgame_server.Base.Run.{done}
use bsgame_server.Framing.{header_size, packet_size}
use bsgame_server.Framing.Packets.{IsPacket}
use bsgame_server.JobQueue.{JobQueue, push, count_up, enqueue}
use bsgame_server.SendBuffer.Chunk.{SendBuffer}
use bsgame_server.SendBuffer.Alloc.{IsValid}
use bsgame_server.Packets.{int_field}
use bsgame_server.Room.Job.{RoomJob, add_session}
use bsgame_server.Room.Task.Endless.{max_files, IsFit, AllFit}
use bsgame_server.Room.Seats.{IsBelow}
use bsgame_server.Units.{UnitInfo, set_name, set_type}
use bsgame_server.Handler.{World, handle_packet, handle_load, push_job, read_uint16}
use bsgame_server.Handler.Relay.{
  Pushed, handle_packet-move, handle_packet-chat, handle_packet-attack, handle_packet-hit,
}

-- A message of a client: it enters with a type and a name, moves, writes, attacks with a skill, hits a target
-- in the name of an attacker, or sends a packet of a number that the server does not know.
pub data Request : Type 0 where
  load : ℕ → List ℕ → Request
  move : ℤ → ℤ → ℤ → ℕ → Request
  chat : ℕ → List ℕ → Request
  attack : ℤ → Request
  hit : ℤ → ℤ → Request
  other : ℕ → List ℕ → Request

abbrev pub request_id : Request → ℕ
request_id (load unit_type name) = 1
request_id (move x y z yaw) = 3
request_id (chat chat_type text) = 4
request_id (attack skill) = 7
request_id (hit target attacker) = 8
request_id (other id body) = id

abbrev pub request_body : Request → List ℕ
request_body (load unit_type name) = bytes16 unit_type ++ (bytes16 (length name) ++ name)
request_body (move x y z yaw) = int_field x ++ (int_field y ++ (int_field z ++ bytes32 yaw))
request_body (chat chat_type text) = bytes8 chat_type ++ (bytes32 (length text) ++ text)
request_body (attack skill) = int_field skill
request_body (hit target attacker) = int_field target ++ int_field attacker
request_body (other id body) = body

-- The packet: the header, then the body.
abbrev pub request_packet : Request → List ℕ
request_packet r =
    bytes16 (request_id r) ++ (bytes16 (header_size + length (request_body r)) ++ request_body r)

-- A number that the server does not know.
abbrev pub IsUnknown : ℕ → Type 0
IsUnknown id = (id < 2 ^ 16) × (id ≢ 1) × (id ≢ 3) × (id ≢ 4) × (id ≢ 7) × (id ≢ 8)

-- The fields fit their types, and the packet fits the `size` of its header and the packets made from it.
abbrev pub IsSound : Request → Type 0
IsSound (load unit_type name) = (unit_type < 2 ^ 16) × (length name ≤ 65522)
IsSound (move x y z yaw) = IsInt32 x × IsInt32 y × IsInt32 z × (yaw < 2 ^ 32)
IsSound (chat chat_type text) = (chat_type < 2 ^ 8) × (length text ≤ 65522)
IsSound (attack skill) = IsInt32 skill
IsSound (hit target attacker) = IsInt32 target × IsInt32 attacker
IsSound (other id body) = IsUnknown id × (length body ≤ 65522)

length-request_body : (r : Request) → IsSound r → length (request_body r) ≤ 65527
length-request_body (load unit_type name) s = omega (arith, s.1)
length-request_body (move x y z yaw) s = omega arith
length-request_body (chat chat_type text) s = omega (arith, s.1)
length-request_body (attack skill) s = omega arith
length-request_body (hit target attacker) s = omega arith
length-request_body (other id body) s = omega (arith, s.1)

pub request_packet-IsPacket : (r : Request) → IsSound r → IsPacket (request_packet r)
unfolding packet_size
request_packet-IsPacket r s = (
  omega arith,
  word16-bytes16 (header_size + length (request_body r)) (request_body r)
        (omega (arith, length-request_body r s))
      ∙ ap some (omega arith),
)

-- With a room, a client's load packet gives its player the type, all bytes of the name and their number, keeps
-- everything else of the player, and adds one job: the session enters.
pub handle_packet-load :
    (fd : ℤ) (unit_type : ℕ) (name : List ℕ) (size len : ℕ) (rest : List ℕ) (w : World)
    (q : JobQueue RoomJob)
    → unit_type < 2 ^ 16
    → length name < 2 ^ 16
    → w.room ≡ some q
    → handle_packet fd
        (bytes16 1
          ++ (bytes16 size ++ (bytes16 unit_type ++ (bytes16 (length name) ++ (name ++ rest)))))
        len
        w
      ≡ done (record w {
        player = record w.player { name = name; name_len = length name; unit_type = unit_type };
        room = some (push q (add_session fd));
      })
unfolding handle_packet handle_load push_job read_uint16 word16 set_name set_type
handle_packet-load fd unit_type name size len rest w q h k e =
    let t : unit_type % 256 + 256 * (unit_type / 256 % 256) ≡ unit_type = omega arith in
    let n : length name % 256 + 256 * (length name / 256 % 256) ≡ length name = omega arith in
    rw
      (
        n,
        le→ltb (length (name ++ rest)) (length name) (omega (arith, length-append name rest)),
        e,
        n,
        t,
        take-append name rest (length name) refl,
      )
      refl

-- The world after a request that was served: memory is valid, and the jobs are fit.
abbrev pub Served : World → Type 0
Served w = IsValid w.memory × ((q : JobQueue RoomJob) × (w.room ≡ some q) × AllFit q.q)

AllFit-append : (js : List RoomJob) (j : RoomJob) → AllFit js → IsFit j → AllFit (js ++ (j ∷ []))
AllFit-append [] j a f = (f, tt)
AllFit-append (i ∷ js) j a f = (a.0, AllFit-append js j a.1 f)

pub push-AllFit : (q : JobQueue RoomJob) (j : RoomJob) → AllFit q.q → IsFit j → AllFit (push q j).q
unfolding push count_up enqueue
push-AllFit q j a f = AllFit-append q.q j a f

Pushed-Served :
    {w w' : World} {q : JobQueue RoomJob} {job : SendBuffer → RoomJob} {bytes : List ℕ}
    {player : UnitInfo}
    → AllFit q.q
    → ((b : SendBuffer) → IsFit (job b))
    → Pushed w q job bytes player w'
    → Served w'
Pushed-Served {q = q} {job = job} a f p =
    (p.valid, (push q (job p.packet), p.jobs, push-AllFit q (job p.packet) a (f p.packet)))

handle_packet-other :
    (fd : ℤ) (id size len : ℕ) (rest : List ℕ) (w : World)
    → IsUnknown id
    → handle_packet fd (bytes16 id ++ (bytes16 size ++ rest)) len w ≡ done w
unfolding handle_packet read_uint16 word16
handle_packet-other fd id size len rest w (h, a, b, c, d, e) =
    let n : id % 256 + 256 * (id / 256 % 256) ≡ id = omega arith in
    rw (n, ne→== id 1 a, ne→== id 3 b, ne→== id 4 c, ne→== id 7 d, ne→== id 8 e) refl

-- A sound request of a client with a possible descriptor, whatever stands behind it in the buffer.
pub handle_packet-Served :
    (fd : ℤ) (r : Request) (rest : List ℕ) (len : ℕ) (w : World)
    → IsSound r
    → IsBelow max_files fd
    → Served w
    → (w' : World) × (handle_packet fd (request_packet r ++ rest) len w ≡ done w') × Served w'
handle_packet-Served fd (load unit_type name) rest len w s b (m, (q, e, a)) = (
  record w {
    player = record w.player { name = name; name_len = length name; unit_type = unit_type };
    room = some (push q (add_session fd));
  },
  handle_packet-load fd unit_type name (header_size + length (request_body (load unit_type name)))
      len rest w q s.0 (omega (arith, s.1)) e,
  (m, (push q (add_session fd), refl, push-AllFit q (add_session fd) a (tt, b))),
)
handle_packet-Served fd (move x y z yaw) rest len w (hx, hy, hz, hyaw) b (m, (q, e, a)) =
    let (w', h, p) = handle_packet-move fd x y z yaw 20 len rest w q hx hy hz hyaw m e in
    (w', h, Pushed-Served a (λ _. (tt, tt)) p)
handle_packet-Served fd (chat chat_type text) rest len w s b (m, (q, e, a)) =
    let (w', h, p) =
      handle_packet-chat fd chat_type (length text)
        (header_size + length (request_body (chat chat_type text))) len (text ++ rest) w q s.0 s.1
        (omega (arith, length-append text rest)) m e in
    (w', h, Pushed-Served a (λ _. (tt, tt)) p)
handle_packet-Served fd (attack skill) rest len w s b (m, (q, e, a)) =
    let (w', h, p) = handle_packet-attack fd skill 8 len rest w q s m e in
    (w', h, Pushed-Served a (λ _. (tt, tt)) p)
handle_packet-Served fd (hit target attacker) rest len w s b (m, (q, e, a)) =
    let (w', h, p) = handle_packet-hit fd target attacker 12 len rest w q s.0 s.1 m e in
    (w', h, Pushed-Served a (λ _. ((10, refl, omega arith), tt)) p)
handle_packet-Served fd (other id body) rest len w s b served =
    (w, handle_packet-other fd id (header_size + length body) len (body ++ rest) w s.0, served)
