-- ===== src/Room/Task/Round.antt =====
-- GameBS/BS_GameRoom.cpp: one call of `RoomTask`.
use bsgame_server.Base.{
  ℕ, zero, suc, ◌+◌, ◌-◌, ◌%◌, ◌^◌, ◌≤◌, ◌≡◌, refl, sym, ap, ◌∙◌, subst, List, [], ◌∷◌, Bool, true,
  some, lookup, length, if◌then◌else◌, arith, inl, inr, Bool-cases, Option-cases, ltb,
}
use mathlib.Core.Option
use bsgame_server.Base.Int.{ℤ, pos}
use bsgame_server.Base.Run.{done, >>=-eq-done}
use bsgame_server.Geometry.{Floats}
use bsgame_server.Session.{push_buffer}
use bsgame_server.Units.{set_spawn}
use bsgame_server.Units.Monster.{Monster, reset_spawn}
use bsgame_server.Base.Int.{rem_ℤ, add_int32}
use bsgame_server.Packets.{Attack}
use bsgame_server.Packets.Layout.{make_move_list_lem, make_attack_list_lem}
use bsgame_server.Room.{MonsterMap, monster_size, uuid_of, at, span_one, span_from, span_monsters}
use bsgame_server.Room.Monsters.{
  IsValid, Spanned, revived, revived_spawned, in_span_uuid, span_monsters_lem,
}
use bsgame_server.Room.Sessions.{each, lookup-each, broadcast_push_message}
use bsgame_server.Room.State
use bsgame_server.Room.State.{Room, send_all}
use bsgame_server.Room.Moves.{tell_attacks, move_all, move_one, move_monsters}
use bsgame_server.Room.Moves.Keep.{
  length-each, each-IsValid, move_all-each, length-move_all, move_one-Same, Same,
}
use bsgame_server.Room.Seats.{keys}
use bsgame_server.Room.Task.{room_task}
use bsgame_server.Room.Task.Keys.{keys-send_all, keys-push_all}
use bsgame_server.Room.Task.Valid.{IsRoom, length-insert_old, send_all-IsRoom}

-- A respawn adds no entry.
length-span_one : (m m' : MonsterMap) (k : ℤ) → span_one m k ≡ done m' → length m' ≡ length m
unfolding span_one at reset_spawn set_spawn
length-span_one m m' k e = elim (Option-cases (lookup k m)) [
  | inl n ↦ ground (arith, n, e)
  | inr (x, s) ↦ elim (Bool-cases x.is_spawned) [
    | inl c ↦ ground (arith, s, c, e)
    | inr c ↦ ground (arith, s, c, e, length-insert_old k (revived x) x m s)
  ]
]

length-span_from :
    (left i : ℕ) (m m' : MonsterMap) → span_from left i m ≡ done m' → length m' ≡ length m
unfolding span_from
length-span_from zero i m m' e = cc
length-span_from (suc left) i m m' e =
    let (m1, s, t) = >>=-eq-done (span_one m (uuid_of i)) (span_from left (suc i)) e in
    length-span_from left (suc i) m1 m' t ∙ length-span_one m m1 (uuid_of i) s

-- Each of the ten monsters is on the map.
abbrev pub AllSpawned : MonsterMap → Type 0
AllSpawned m =
    (i : ℕ)
    → 1 ≤ i
    → i ≤ monster_size
    → (x : Monster) × (lookup (uuid_of i) m ≡ some x) × (x.is_spawned ≡ true)

revived-spawned : (x : Monster) → (revived x).is_spawned ≡ true
revived-spawned x = elim (Bool-cases x.is_spawned) [
  | inl s ↦ ap (λ (y : Monster). y.is_spawned) (revived_spawned x s) ∙ s
  | inr s ↦ rw s refl
]

Spanned-AllSpawned : (m m' : MonsterMap) → IsValid m → Spanned 1 monster_size m m' → AllSpawned m'
Spanned-AllSpawned m m' v s i h l =
    let (x, e) = v.present i h l in
    (revived x, s (uuid_of i) ∙ rw (in_span_uuid i h l, e) refl, revived-spawned x)

each-AllSpawned :
    (g : ℤ → Monster → Monster) (m : MonsterMap)
    → ((k : ℤ) (x : Monster) → Same x (g k x))
    → AllSpawned m
    → AllSpawned (each g m)
each-AllSpawned g m same v i h l =
    let (x, e, s) = v i h l in
    (
      g (uuid_of i) x,
      lookup-each g (uuid_of i) m ∙ ap (Option.map (g (uuid_of i))) e,
      (same (uuid_of i) x).spawned ∙ s,
    )

-- The monsters of a valid room, changed by a loop that leaves alone what keeps them alive.
with_monsters-IsRoom :
    {n : ℕ} {r : Room} (m : MonsterMap)
    → IsRoom n r
    → IsValid m
    → length m ≤ 10
    → IsRoom n (record r { monsters = m })
with_monsters-IsRoom m v a b = record {
  monsters = a;
  few = b;
  crowd = v.crowd;
  memory = v.memory;
  ordered = v.ordered;
}

tell_attacks-IsRoom :
    {n : ℕ} (as' : List Attack) (r : Room)
    → length as' ≤ 10
    → IsRoom n r
    → (r' : Room) × (tell_attacks as' r ≡ done r')
      × IsRoom n r'
      × (r'.monsters ≡ r.monsters)
      × (r'.tick ≡ r.tick)
      × (keys r'.sessions ≡ keys r.sessions)
unfolding tell_attacks State.push_all broadcast_push_message
tell_attacks-IsRoom [] r h v = (r, refl, v, refl, refl, refl)
tell_attacks-IsRoom (a ∷ rest) r h v =
    let (b, m, e, c, w) = make_attack_list_lem r.memory (a ∷ rest) v.memory (omega arith) in
    (
      State.push_all b (record r { memory = m }),
      rw e refl,
      record {
        monsters = v.monsters;
        few = v.few;
        crowd = omega (arith, v.crowd, length-each (λ _ s. push_buffer s b) r.sessions);
        memory = w;
        ordered = v.ordered;
      },
      refl,
      refl,
      keys-push_all b r,
    )

module _ (f : Floats) (rotate results : ℤ → ℤ) where
  -- The monsters after the loop over them.
  abbrev walked : Room → MonsterMap
  walked r = (move_all f rotate r.map r.sessions r.players r.tick r.monsters).0

  one-Same :
      (r : Room) (k : ℤ) (x : Monster)
      → Same x (move_one f rotate r.map r.sessions r.players r.tick k x).0
  one-Same r = move_one-Same f rotate r.map r.sessions r.players r.tick

  walked-each :
      (r : Room)
      → walked r
        ≡ each (λ k x. (move_one f rotate r.map r.sessions r.players r.tick k x).0) r.monsters
  walked-each r = move_all-each f rotate r.map r.sessions r.players r.tick r.monsters

  walked-IsRoom : {n : ℕ} {r : Room} → IsRoom n r → IsRoom n (record r { monsters = walked r })
  walked-IsRoom {n} {r} v =
      let g : ℤ → Monster → Monster =
        λ k x. (move_one f rotate r.map r.sessions r.players r.tick k x).0 in
      with_monsters-IsRoom (walked r) v
        (subst IsValid (sym (walked-each r)) (each-IsValid g r.monsters (one-Same r) v.monsters))
        (omega (arith, v.few, ap length (walked-each r), length-each g r.monsters))

  walked-AllSpawned : (r : Room) → AllSpawned r.monsters → AllSpawned (walked r)
  walked-AllSpawned r a =
      subst AllSpawned (sym (walked-each r)) (each-AllSpawned _ r.monsters (one-Same r) a)

  move_monsters_lem :
      {n : ℕ} (r : Room)
      → IsRoom n r
      → (r' : Room) × (move_monsters f rotate results r ≡ done r')
        × IsRoom n r'
        × (r'.monsters ≡ walked r)
        × (r'.tick ≡ rem_ℤ (add_int32 r.tick (pos 1)) 2)
        × (keys r'.sessions ≡ keys r.sessions)
  unfolding move_monsters send_all
  move_monsters_lem {n} r v =
      let lists = (move_all f rotate r.map r.sessions r.players r.tick r.monsters).1 in
      let few = length-move_all f rotate r.map r.sessions r.players r.tick r.monsters in
      let (r1, e1, v1, s, ticks, same) =
        tell_attacks-IsRoom lists.0 (record r { monsters = walked r }) (omega (arith, few, v.few))
          (walked-IsRoom v) in
      let (b, m, e2, c, w) =
        make_move_list_lem r1.memory lists.1 v1.memory (omega (arith, few, v.few)) in
      let v2 : IsRoom n (record r1 { memory = m }) = record {
        monsters = v1.monsters;
        few = v1.few;
        crowd = v1.crowd;
        memory = w;
        ordered = v1.ordered;
      } in
      let v3 = send_all-IsRoom results v2 b in
      (
        record (send_all results b (record r1 { memory = m })) {
          tick = rem_ℤ (add_int32 r1.tick (pos 1)) 2;
        },
        rw (e1, e2) refl,
        record {
          monsters = v3.monsters;
          few = v3.few;
          crowd = v3.crowd;
          memory = v3.memory;
          ordered = v3.ordered;
        },
        s,
        ap (λ t. rem_ℤ (add_int32 t (pos 1)) 2) ticks,
        keys-send_all results b (record r1 { memory = m }) ∙ same,
      )

  -- What a due call of `RoomTask` makes of the monsters: those that were off the map are back, and then the loop
  -- of `MoveMosters` has moved each. All are on the map.
  abbrev pub RespawnedMoved : Room → MonsterMap → Type 0
  RespawnedMoved r moved =
      ((m : MonsterMap) × Spanned 1 monster_size r.monsters m
        × (moved ≡ (move_all f rotate r.map r.sessions r.players r.tick m).0))
      × AllSpawned moved

  -- What a call of `RoomTask` leaves.
  abbrev pub Rounded : ℕ → Room → Bool → Room → Type 0
  Rounded later r due r' =
      if due
      then RespawnedMoved r r'.monsters
        × (r'.tick ≡ rem_ℤ (add_int32 r.tick (pos 1)) 2)
        × (r'.tick_time ≡ later)
      else (r' ≡ r)

  -- In a valid room, `RoomTask` faults nowhere and leaves the room valid. If more than 500 milliseconds
  -- have passed since the time it keeps, the monsters that were off the map have been brought back, and then each
  -- monster of the room has been moved as by one round of `MoveMosters` at the tick that the room had; all ten are
  -- on the map afterwards, the tick is the next one modulo 2, and the time is the new one. Otherwise it changes
  -- nothing. The same sessions are in the room.
  pub room_task_lem :
      {n : ℕ} (now later : ℕ) (r : Room)
      → IsRoom n r
      → (r' : Room) × (room_task results f rotate now later r ≡ done r')
        × IsRoom n r'
        × Rounded later r (ltb 500 ((now + 2 ^ 64 - r.tick_time) % 2 ^ 64)) r'
        × (keys r'.sessions ≡ keys r.sessions)
  unfolding room_task span_from span_monsters
  room_task_lem now later r v =
      elim (Bool-cases (ltb 500 ((now + 2 ^ 64 - r.tick_time) % 2 ^ 64))) [
        | inr e ↦ (r, rw e refl, v, rw e refl, refl)
        | inl e ↦
            let (m, s, sp, w) = span_monsters_lem r.monsters v.monsters in
            let (r', t, v', same, ticks, seats) =
              move_monsters_lem (record r { monsters = m })
                (with_monsters-IsRoom m v w
                  (omega (arith, v.few, length-span_from monster_size 1 r.monsters m s))) in
            (
              record r' { tick_time = later },
              rw (e, s, t) refl,
              record {
                monsters = v'.monsters;
                few = v'.few;
                crowd = v'.crowd;
                memory = v'.memory;
                ordered = v'.ordered;
              },
              rw e (
                (
                  (m, sp, same),
                  subst AllSpawned (sym same) (
                      walked-AllSpawned (record r { monsters = m })
                        (Spanned-AllSpawned r.monsters m v.monsters sp)),
                ),
                ticks,
                refl,
              ),
              seats,
            )
      ]
