-- ===== src/Service.antt =====
-- CoreLib/Service.h, CoreLib/Service.cpp, with `Register` and `Delete` of CoreLib/EpollFD.cpp: the table
-- of sessions, and what an event of `epoll_wait` does to it. What the kernel answers is given:
-- `Accepted` for the calls on a new connection, `Reading` for one `recv`.
pub mod Table
pub mod Loop
pub mod Game
pub mod Client
mod Tests
use bsgame_server.Base.{
  ℕ, List, [], ◌∷◌, ◌++◌, Bool, true, false, Option, none, some, if◌then◌else◌, IntMap, lookup,
  insert, erase, contains, take,
}
use bsgame_server.Base.Int.{ℤ, pos, pos_part, ltb_ℤ, add_int32, sub_int32}
use bsgame_server.Base.Run.{Run, done, fault, assert_crash, out_of_fuel, ◌>>=◌}
use bsgame_server.RecvBuffer.{free_size}
use bsgame_server.Session.{Session, open_session, receive_message}

-- A `SessionRef` may be null. `addr_map` has unsigned keys. `closed` lists the descriptors that `close`
-- was called with.
pub record Service : Type 0 where
  pub session_map : IntMap (Option Session)
  pub addr_map : IntMap ℤ
  pub session_count : ℤ
  pub closed : List ℤ

abbrev pub no_sessions : Service
no_sessions = record { session_map = []; addr_map = []; session_count = pos 0; closed = [] }

-- `AddSession`. `peer` is the address that `getpeername` leaves in `client_addr`.
unfoldable pub add_session : ℕ → Session → Service → Service
add_session peer s v = record v {
  session_count = add_int32 v.session_count (pos 1);
  session_map = insert s.socket_fd (some s) v.session_map;
  addr_map = insert (pos peer) s.socket_fd v.addr_map;
}

-- `GetSession`: `_sessionMap[socketFd]` makes a null entry where there is none.
unfoldable pub get_session : ℤ → Service → Option Session × Service
get_session fd v = elim (lookup fd v.session_map) [
  | none ↦ (none, record v { session_map = insert fd none v.session_map })
  | some o ↦ (o, v)
]

-- One call of `accept` that returned `client_fd`: whether `SetNonBlockSocket` and `epoll_ctl` succeed on it.
pub record Accepted : Type 0 where
  pub client_fd : ℤ
  pub non_block : Bool
  pub registered : Bool
  pub peer : ℕ

-- `EpollFD::Register`, with what `epoll_ctl` says.
unfoldable pub epoll_register : Bool → ℤ → Service → Bool × Service
epoll_register ok fd v =
    if ok then (true, v) else (false, record v { closed = v.closed ++ (fd ∷ []) })

-- `ServerService::Register`, with `CreateSession`.
unfoldable pub register : Accepted → Service → Bool × Service
unfolding epoll_register add_session
register a v =
    let (ok, v') = epoll_register a.registered a.client_fd v in
    if ok then (true, add_session a.peer (open_session a.client_fd) v') else (false, v')

-- `if (SetNonBlockSocket(clientFd)) { if (!Register(clientFd)) … }`: whether the loop goes on.
unfoldable pub take_client : Accepted → Service → Bool × Service
unfolding register
take_client a v = if a.non_block then register a v else (true, v)

-- The loop of `AcceptClient` over the calls of `accept`. A registration that fails ends it.
unfoldable pub accept_loop : List Accepted → Service → Run Service
unfolding take_client
accept_loop [] v = fault out_of_fuel
accept_loop (a ∷ rest) v =
    let (ok, v') = take_client a v in
    let more = accept_loop rest v' in
    if ltb_ℤ (pos 0) a.client_fd then (if ok then more else done v') else done v

-- `AcceptClient`.
unfoldable pub accept_client : Bool → List Accepted → Service → Run Service
unfolding accept_loop
accept_client epoll_in accepts v = if epoll_in then accept_loop accepts v else done v

-- One call of `recv` on a descriptor where `incoming` is there to be read, nothing if it has failed or the
-- peer has closed; and whether `errno` is EAGAIN or EWOULDBLOCK when it is tested.
pub record Reading : Type 0 where
  pub incoming : List ℕ
  pub would_block : Bool

-- The virtual methods: `OnRecv` of the session with a descriptor, and `ReleaseSessionMesssage` of a session, both
-- on a state `S`.
module _ {ℓ} {S : Type ℓ} (on_recv : ℤ → List ℕ → ℕ → S → Run (S × ℕ))
    (release_message : Session → S → Run S) where
  -- `ServerService::ReleaseSession`, with `EpollFD::Delete`.
  unfoldable pub release_session : Session → Service → S → Run (Service × S)
  release_session s v st =
      if contains s.socket_fd v.session_map
      then (let v' : Service = record v {
        session_map = erase s.socket_fd v.session_map;
        session_count = sub_int32 v.session_count (pos 1);
        closed = v.closed ++ (s.socket_fd ∷ []);
      } in
          release_message s st >>= λ st'. done (v', st'))
      else fault assert_crash

  -- `ReciveMessage`: `recv` stores no more than `FreeSize` bytes.
  unfoldable pub receive : Reading → Session → S → Run (Bool × Session × S)
  unfolding receive_message
  receive x s st =
      receive_message (on_recv s.socket_fd) s (take (pos_part (free_size s.recv_buffer)) x.incoming)
        st

  -- The loop of `ReadClient` on a session of the table.
  unfoldable pub read_loop : List Reading → Session → Service → S → Run (Service × S)
  unfolding receive release_session
  read_loop [] s v st = fault out_of_fuel
  read_loop (x ∷ rest) s v st = receive x s st >>= λ (ok, s', st').
      (let v' : Service = record v { session_map = insert s'.socket_fd (some s') v.session_map } in
        let more = read_loop rest s' v' st' in
        if ok then (if x.would_block then done (v', st') else more) else release_session s' v' st')

  -- `if (session != nullptr) { … }`.
  unfoldable pub read_session : Option Session → List Reading → Service → S → Run (Service × S)
  unfolding read_loop
  read_session none reads v st = done (v, st)
  read_session (some s) reads v st = read_loop reads s v st

  -- `ReadClient`.
  unfoldable pub read_client : ℤ → List Reading → Service → S → Run (Service × S)
  unfolding read_session
  read_client fd reads v st = let (o, v') = get_session fd v in read_session o reads v' st

  -- What `epoll_wait` reports: the listening socket, with whether EPOLLIN is set, or a client.
  pub data Event : Type 0 where
    server : Bool → List Accepted → Event
    client : ℤ → List Reading → Event

  unfoldable pub handle_event : Event → Service → S → Run (Service × S)
  unfolding accept_client read_client
  handle_event (server epoll_in accepts) v st =
      accept_client epoll_in accepts v >>= λ v'. done (v', st)
  handle_event (client fd reads) v st = read_client fd reads v st
