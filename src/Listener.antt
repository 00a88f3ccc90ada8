-- ===== src/Listener.antt =====
-- CoreLib/ServerSock.cpp, CoreLib/SocketUtils.h and `Register` of CoreLib/EpollFD.cpp: the start of the
-- listening socket. What the calls of the system return is given.
mod Tests
use bsgame_server.Base.{
  ℕ, ◌≡◌, refl, List, [], ◌∷◌, ◌++◌, Bool, true, false, not, ◌&&◌, if◌then◌else◌, arith,
}
use bsgame_server.Base.Int.{ℤ, pos, negsuc, ltb_ℤ, eqb_ℤ}

-- The results of `socket`, `fcntl(F_SETFL)`, the three `setsockopt`, `bind`, `listen` and `epoll_ctl`.
pub record Answers : Type 0 where
  pub socket : ℤ
  pub set_flags : ℤ
  pub reuse_address : ℤ
  pub reuse_port : ℤ
  pub linger : ℤ
  pub bound : ℤ
  pub listening : ℤ
  pub epoll_ctl : ℤ

-- `closed` lists the calls of `close`.
pub record ServerSock : Type 0 where
  pub server_fd : ℤ
  pub closed : List ℤ

-- `SocketUtils`.
unfoldable pub set_non_block_socket : Answers → Bool
set_non_block_socket a = if ltb_ℤ a.set_flags (pos 0) then false else true

unfoldable pub set_reuse_address : Answers → Bool
set_reuse_address a =
    if ltb_ℤ a.reuse_address (pos 0)
    then false
    else (if ltb_ℤ a.reuse_port (pos 0) then false else true)

unfoldable pub bind : Answers → Bool
bind a = if ltb_ℤ a.bound (pos 0) then false else true

unfoldable pub listen : Answers → Bool
listen a = if ltb_ℤ a.listening (pos 0) then false else true

unfoldable pub close : ServerSock → ServerSock
close s = record s { closed = s.closed ++ (s.server_fd ∷ []) }

-- `EpollFD::Register` of the listening socket.
unfoldable pub register : Answers → ServerSock → Bool × ServerSock
unfolding close
register a s = if ltb_ℤ a.epoll_ctl (pos 0) then (false, close s) else (true, s)

-- `StartListener`.
unfoldable pub start_listener : Answers → Bool × ServerSock
unfolding set_non_block_socket set_reuse_address bind listen register close
start_listener a =
    let s : ServerSock = record { server_fd = a.socket; closed = [] } in
    let failed : Bool × ServerSock = (false, close s) in
    let (registered, s') = register a s in
    if ltb_ℤ s.server_fd (pos 0)
    then (false, s)
    else (if not (set_non_block_socket a)
        then failed
        else (if not (set_reuse_address a)
            then failed
            else (if eqb_ℤ a.linger (negsuc 0)
                then failed
                else (if not (bind a)
                    then failed
                    else (if not (listen a)
                        then failed
                        else (if not registered then (false, close s') else (true, s')))))))

-- `~ServerSock`.
unfoldable pub destroy : ServerSock → ServerSock
unfolding close
destroy s = close s

-- Every call up to `listen` has succeeded, on a socket.
abbrev pub all_before : Answers → Bool
all_before a =
    not (ltb_ℤ a.socket (pos 0))
    && not (ltb_ℤ a.set_flags (pos 0))
    && not (ltb_ℤ a.reuse_address (pos 0))
    && not (ltb_ℤ a.reuse_port (pos 0))
    && not (eqb_ℤ a.linger (negsuc 0))
    && not (ltb_ℤ a.bound (pos 0))
    && not (ltb_ℤ a.listening (pos 0))

-- `StartListener` answers `true` just when every call succeeds, and then leaves the socket open. When a call
-- fails, a socket that was made is closed, so that none is left behind; it is closed once, but twice if the
-- call that fails is `epoll_ctl`.
pub start_listener_lem :
    (a : Answers)
    → ((start_listener a).0 ≡ (all_before a && not (ltb_ℤ a.epoll_ctl (pos 0))))
      × ((start_listener a).1.closed ≡ (
          if ltb_ℤ a.socket (pos 0)
          then []
          else (if all_before a
              then (if ltb_ℤ a.epoll_ctl (pos 0) then a.socket ∷ a.socket ∷ [] else [])
              else a.socket ∷ [])))
unfolding start_listener set_non_block_socket set_reuse_address bind listen register close
start_listener_lem a = (ground arith, ground arith)
