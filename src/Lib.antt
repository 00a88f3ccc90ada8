-- ===== src/Lib.antt =====
-- A verification library for BSGameServer, a game server on epoll: CoreLib has the sessions, their
-- buffers, the job queue and the service, GameBS the packets, the units, the map and the room.
--
-- Bytes go through these parts. `Session::ReciveMessage` (CoreLib/Session.cpp) stores what `recv`
-- delivers in a `RecvBuffer` (CoreLib/RecvBuffer.cpp) and gives the unread bytes to
-- `BS_GameSession::OnRecv` (GameBS/BS_GameSession.cpp), which cuts them into packets. The packets of
-- clients become jobs in the `JobQueue` of the room (CoreLib/JobQueue.cpp); the two threads of
-- GameBS/main.cpp run `Dispatch`, `Execute` and `RoomTask` in turn. A job makes packets
-- (GameBS/BS_PacketHandler.h) in memory from `SendBufferManager` (CoreLib/SendBuffer.cpp), and
-- `Session::Send` gives them to `sendmsg`.
--
-- Files:
--   Base          tests on numbers, lists, `int32` and unsigned words with their wrap-around, maps
--                 with `int32` keys, and `Run`, the result of a call: a value or an unhandled fault
--   RecvBuffer    CoreLib/RecvBuffer.h, CoreLib/RecvBuffer.cpp: cursors into an array. Laws has the
--                 representation invariant, Pending what each operation does to the unread bytes,
--                 Queue the byte queue that the buffer implements
--   Geometry      CoreLib/Utils.h: the vectors of the moves and the clock, over a record of the
--                 operations on floats
--   Framing       BS_GameSession::OnRecv. The loop has fuel for its rounds; one round for each packet
--                 and a last one are enough. `HandlePacket` is a parameter
--   Handler       BS_GameSession::HandlePacket and the readers of GameBS/BS_PacketUtils.h. A job is a
--                 value: the method of the room and its arguments. Relay follows a packet to its job,
--                 Requests has the messages that clients send, and what becomes of each
--   Session       CoreLib/Session.h, CoreLib/Session.cpp: ReciveMessage (Process, Receive, Ending), PushBuffer and
--                 Send (Sending). The bytes that `recv` stores and the result of `sendmsg` are arguments
--   SendBuffer    CoreLib/SendBuffer.h, CoreLib/SendBuffer.cpp (Chunk, Store, Manager), and
--                 BufferWrite and MakeSendBuffer of GameBS/BS_PacketHandler.h (Writer). The chunks
--                 stand in a store, a `shared_ptr` to a chunk is an index. Alloc, Frame, Packet and
--                 Wrap have the proofs: an allocation, what a write leaves alone, a whole packet, and
--                 the size that does not fit 16 bits
--   Packets       GameBS/BS_Packet.h and the MakePacket overloads: the fields of each packet. Layout
--                 says which are sent whole, Padded which are not, Load what a new client is sent, and
--                 Received follows a packet back through OnRecv
--   JobQueue      CoreLib/JobQueue.h, CoreLib/JobQueue.cpp. Order has `Execute` of one thread,
--                 Threads the interleavings of two
--   Dispatch      ServerService::Dispatch (CoreLib/Service.cpp) and BS_GameRoom::RoomTask
--                 (GameBS/BS_GameRoom.cpp), atomic access by atomic access, for any number of threads
--   MapInfo       GameBS/BS_MapInfo.h, GameBS/BS_MapInfo.cpp: the rectangle of a map
--   Units         GameBS/BS_Player.h, GameBS/BS_Player.cpp: players and monsters (Monster), with hits
--                 and attacks (Monster/Life) and the pursuit of a player (Monster/Chase)
--   Room          GameBS/BS_GameRoom.cpp: the monsters of a room, from the constructor (Start) through
--                 hits and respawns (Monsters), the messages to its clients (Sessions), and how many
--                 there can be (Seats); then the
--                 whole room as one record (State): a client that enters (Entry), MoveMosters (Moves),
--                 and its jobs and RoomTask (Task). Task/Valid has the invariant of a room, Task/Jobs
--                 what Execute does to it, Task/Welcome what the clients are sent when one enters,
--                 Task/Roster what that says of the room, Task/Round what RoomTask does, Task/Turns the
--                 constructor of a room, and Task/Endless the room with no bound on its jobs but that
--                 descriptors are below 1024
--   RoomManager   GameBS/BS_GameRoomManger.h, GameBS/BS_GameRoomManger.cpp: the rooms by number
--   Service       CoreLib/Service.h, CoreLib/Service.cpp: the table of sessions, and the events of one
--                 epoll_wait on it. Table has what holds of every entry of the table, Loop the loop over
--                 recv for any property of sessions; Game is ReleaseSessionMesssage of
--                 GameBS/BS_GameServerService.cpp, and Client follows a packet from epoll_wait to the room
--   Server        GameBS/main.cpp, `RunTask` of one thread: Dispatch with the sessions of the game,
--                 Execute and RoomTask, on one state. Inputs says what clients and kernel give, Keep
--                 and Clients what a packet and a call of recv keep, Forever the loop,
--                 Drain how the loop over recv ends, Safe which sessions the room can send to,
--                 Leave and Chat follow the end of a connection and a message through one turn
--   Listener      CoreLib/ServerSock.cpp, CoreLib/SocketUtils.h: the start of the listening socket
--   Lock          CoreLib/LockUtils.h, CoreLib/LockUtils.cpp, over an interface of pthread_rwlock
--   Threads       CoreLib/ThreadManager.h, CoreLib/ThreadManager.cpp: the numbers of threads, and their end
-- Each Tests file has examples on concrete data.
--
-- Modelling. An `int32` is an integer that each operation brings back into its 32 bits, an unsigned
-- word a number taken modulo its power of two; a float is its bit pattern, and the operations on floats
-- are a parameter, of which nothing is assumed. ASSERT_CRASH, a null pointer and an access outside an
-- array are faults. What the kernel answers, and the random generator, are arguments: a loop over calls
-- of `accept` or `recv`, or over attempts to take a lock, is a recursion on the list of the answers, and
-- a list that is too short is a fault of its own. Memory is that of one thread: the global pool is in
-- it, its lock is not. Where a lock guards a section, the section is one step.
--
-- A session of the room and the entry of the service's table are one object in the program. Here the
-- service has the part that receives and the room the part that sends: `Send` and `PushBuffer` of the room
-- act on its copy. In Service alone a disconnect does not reach the copy. In Server the release of a session,
-- which follows every call of `ReciveMessage` that returns `false`, first makes the copy agree with what that
-- call has left: whether it is connected, what it has received, and no waiting buffers unless it is connected
-- (`share_session`). A new session is in both. There a descriptor stands for a session and its player, so
-- that one that is closed and accepted again in the same turn would be taken for the same player until the
-- room has run its jobs. The rounds of OnRecv have fuel in Server too: 163841 rounds are more than a full
-- receive buffer of 655360 bytes has packets of at least four.
--
-- Not modelled: the return of a chunk to the pool, which reference counts decide, so that a chunk in use stays
-- in use; the two `Broadcast` of GameBS/BS_GameServerService.cpp, which no code calls; the system's threads,
-- around whose callbacks Threads has what this program adds; the destructors of sessions and rooms. Types and macros (CoreLib/Types.h, CoreLib/CoreMacro.h) have no logic of their own.
pub mod Base
pub mod RecvBuffer
pub mod Framing
pub mod SendBuffer
pub mod JobQueue
pub mod Dispatch
pub mod Geometry
pub mod Service
pub mod Server
pub mod Threads
pub mod RoomManager
pub mod Listener
pub mod Lock
pub mod MapInfo
pub mod Units
pub mod Room
pub mod Packets
pub mod Session
pub mod Handler
