-- ===== src/Room/Task/Valid.antt =====
-- The invariant of a room (GameBS/BS_GameRoom.cpp), and the methods that keep it.
use bsgame_server.Base.{
  ℕ, ◌+◌, ◌^◌, ◌≤◌, ◌≡◌, List, [], ◌∷◌, some, lookup, insert, erase, length, if◌then◌else◌, arith,
  inl, inr, Option-cases,
}
use native.Mathlib.Nat.{mod-eq_of_lt}
use bsgame_server.Base.Int.{ℤ, eqb_ℤ}
use bsgame_server.Base.Run.{Run, done}
use bsgame_server.Framing.{header_size}
use bsgame_server.MapInfo.Laws.{IsOrdered}
use bsgame_server.Units.{UnitInfo}
use bsgame_server.SendBuffer.Chunk.{SendBuffer, chunk_size}
use bsgame_server.SendBuffer.Store.{Memory}
use bsgame_server.SendBuffer.Writer.{make_packet}
use bsgame_server.SendBuffer.Alloc
use bsgame_server.SendBuffer.Packet.Make.{make_packet_lem}
use bsgame_server.Packets.{
  PlayerData, MonsterData, make_load, make_player, make_my_player, load_size,
}
use bsgame_server.Session.{send}
use bsgame_server.Room.{MonsterMap}
use bsgame_server.Room.Monsters.{IsValid}
use bsgame_server.Room.Sessions.{SessionMap, broadcast, broadcast_another}
use bsgame_server.Room.State.{Room, send_to, send_all, send_others}
use bsgame_server.Room.Moves.Keep.{length-each}
use bsgame_server.Room.Entry.{other_players, shown_monsters}

-- The monsters are valid and at most ten, at most `n` sessions are in the room, and memory is valid.
pub record IsRoom (n : ℕ) (r : Room) : Type 0 where
  pub monsters : IsValid r.monsters
  pub few : length r.monsters ≤ 10
  pub crowd : length r.sessions ≤ n
  pub memory : Alloc.IsValid r.memory
  pub ordered : IsOrdered r.map

-- How maps grow.
pub length-insert {ℓ} :
    {V : Type ℓ} (k : ℤ) (v : V) (m : List (ℤ × V)) → length (insert k v m) ≤ length m + 1
unfolding insert
length-insert k v [] = omega arith
length-insert k v ((j, w) ∷ m) = ground (arith, length-insert k v m)

pub length-insert_old {ℓ} :
    {V : Type ℓ} (k : ℤ) (v w : V) (m : List (ℤ × V))
    → lookup k m ≡ some w
    → length (insert k v m) ≡ length m
unfolding insert lookup
length-insert_old k v w [] e = cc
length-insert_old k v w ((j, u) ∷ m) e = ground (arith, length-insert_old k v w m)

pub length-erase {ℓ} : {V : Type ℓ} (k : ℤ) (m : List (ℤ × V)) → length (erase k m) ≤ length m
unfolding erase
length-erase k [] = omega arith
length-erase k ((j, w) ∷ m) = ground (arith, length-erase k m)

pub length-other_players :
    (fd : ℤ) (players : ℤ → UnitInfo) (s : SessionMap)
    → length (other_players fd players s) ≤ length s
unfolding other_players
length-other_players fd players [] = omega arith
length-other_players fd players ((k, s) ∷ m) = ground (arith, length-other_players fd players m)

pub length-shown_monsters : (m : MonsterMap) → length (shown_monsters m) ≤ length m
unfolding shown_monsters
length-shown_monsters [] = omega arith
length-shown_monsters ((k, x) ∷ m) = ground (arith, length-shown_monsters m)

-- A call that gives a packet, and valid memory.
abbrev pub Packs : Run (SendBuffer × Memory) → Type 0
Packs call = (b : SendBuffer) × (m' : Memory) × (call ≡ done (b, m')) × Alloc.IsValid m'

make_packet-Packs :
    (m : Memory) (d id : ℕ) (fields : List (List ℕ))
    → Alloc.IsValid m
    → d + header_size ≤ chunk_size
    → Packs (make_packet m d id fields)
make_packet-Packs m d id fields v h =
    let (b, m', e, p) = make_packet_lem m d id fields v h in (b, m', e, p.valid)

pub make_load-Packs :
    (m : Memory) (ps : List PlayerData) (ms : List MonsterData)
    → Alloc.IsValid m
    → length ps ≤ 1500
    → length ms ≤ 10
    → Packs (make_load m ps ms)
unfolding make_load
make_load-Packs m ps ms v h k =
    rw (mod-eq_of_lt {n = load_size ps ms} {m = 2 ^ 16} (omega arith))
      (make_packet-Packs m (load_size ps ms) 1 _ v (omega arith))

pub make_player-Packs : (m : Memory) (p : PlayerData) → Alloc.IsValid m → Packs (make_player m p)
unfolding make_player
make_player-Packs m p v = make_packet-Packs m _ 2 _ v (omega arith)

pub make_my_player-Packs :
    (m : Memory) (p : PlayerData) → Alloc.IsValid m → Packs (make_my_player m p)
unfolding make_my_player
make_my_player-Packs m p v = make_packet-Packs m _ 5 _ v (omega arith)

module _ (results : ℤ → ℤ) {n : ℕ} {r : Room} (v : IsRoom n r) where
  pub send_to-IsRoom : (fd : ℤ) (b : SendBuffer) → IsRoom n (send_to results fd b r)
  unfolding send_to
  send_to-IsRoom fd b = elim (Option-cases (lookup fd r.sessions)) [
    | inl e ↦ rw (e, send_to) v
    | inr (s, e) ↦
        rw (e, send_to)
          (record {
            monsters = v.monsters;
            few = v.few;
            crowd =
                omega
                  (arith, v.crowd, length-insert_old fd (send (results fd) s b).2 s r.sessions e);
            memory = v.memory;
            ordered = v.ordered;
          })
  ]

  pub send_all-IsRoom : (b : SendBuffer) → IsRoom n (send_all results b r)
  unfolding send_all broadcast
  send_all-IsRoom b = record {
    monsters = v.monsters;
    few = v.few;
    crowd = omega (arith, v.crowd, length-each (λ k s. (send (results k) s b).2) r.sessions);
    memory = v.memory;
    ordered = v.ordered;
  }

  pub send_others-IsRoom : (b : SendBuffer) (fd : ℤ) → IsRoom n (send_others results b fd r)
  unfolding send_others broadcast_another
  send_others-IsRoom b fd = record {
    monsters = v.monsters;
    few = v.few;
    crowd = omega (
      arith,
      v.crowd,
      length-each (λ k s. if eqb_ℤ fd k then s else (send (results k) s b).2) r.sessions,
    );
    memory = v.memory;
    ordered = v.ordered;
  }
