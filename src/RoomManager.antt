-- ===== src/RoomManager.antt =====
-- GameBS/BS_GameRoomManger.h, GameBS/BS_GameRoomManger.cpp: the rooms by their numbers. `R` is the type of
-- rooms, and `new_room` the constructor of `BS_GameRoom`.
mod Tests
use bsgame_server.Base.{
  ℕ, ◌≡◌, refl, sym, ap, ◌∙◌, List, [], ◌∷◌, Bool, true, false, Option, none, some, if◌then◌else◌,
  IntMap, lookup, insert, erase, contains, lookup-insert, lookup-erase, contains-lookup,
  contains-of_lookup, inl, inr, Bool-cases, Option-cases, arith,
}
use bsgame_server.Base.Int.{ℤ, pos, eqb_ℤ, eqb_ℤ→eq, add_int32}

-- A `GameRoomRef` may be null.
pub record RoomManager (R : Type 0) : Type 0 where
  pub id : ℤ
  pub room_map : IntMap (Option R)

module _ {R : Type 0} where
  -- `CreateRoom`.
  unfoldable pub create_room : (ℤ → R) → RoomManager R → RoomManager R
  create_room new_room m = record {
    id = add_int32 m.id (pos 1);
    room_map = insert m.id (some (new_room m.id)) m.room_map;
  }

  -- `_roomMap[id]` makes a null entry where there is none.
  unfoldable pub index_room : ℤ → IntMap (Option R) → Option R × IntMap (Option R)
  index_room id rooms = elim (lookup id rooms) as (λ _. Option R × IntMap (Option R)) [
    | none ↦ (none, insert id none rooms)
    | some o ↦ (o, rooms)
  ]

  -- `EreaseRoom`.
  unfoldable pub erase_room : ℤ → RoomManager R → RoomManager R
  unfolding index_room
  erase_room id m =
      let (o, rooms) = index_room id m.room_map in
      elim o as (λ _. RoomManager R) [
        | none ↦ record m { room_map = rooms }
        | some r ↦ record m { room_map = erase id rooms }
      ]

  -- `getRoom`.
  unfoldable pub get_room : ℤ → RoomManager R → Option R
  unfolding index_room
  get_room id m = if contains id m.room_map then (index_room id m.room_map).0 else none

  -- The constructor makes room 0.
  unfoldable pub new_manager : (ℤ → R) → RoomManager R
  unfolding create_room
  new_manager new_room = create_room new_room (record { id = pos 0; room_map = [] })

  -- What the callers of `getRoom` see of an entry.
  flat : Option (Option R) → Option R
  flat none = none
  flat (some o) = o

  index_room-flat :
      (id : ℤ) (rooms : IntMap (Option R)) → (index_room id rooms).0 ≡ flat (lookup id rooms)
  unfolding index_room flat
  index_room-flat id rooms =
      elim (lookup id rooms)
        as (λ o.
          (elim o as (λ _. Option R × IntMap (Option R)) [
            | none ↦ (none, insert id none rooms)
            | some x ↦ (x, rooms)
          ]).0
          ≡ flat o) [ none ↦ refl | some x ↦ refl ]

  get_room-flat : (id : ℤ) (m : RoomManager R) → get_room id m ≡ flat (lookup id m.room_map)
  unfolding get_room flat
  get_room-flat id m = elim (Bool-cases (contains id m.room_map)) [
    | inr c ↦ rw c (ap flat (sym (contains-lookup id m.room_map c)))
    | inl c ↦ rw c (index_room-flat id m.room_map)
  ]

  get_room-create_room :
      (new_room : ℤ → R) (m : RoomManager R) (j : ℤ)
      → get_room j (create_room new_room m)
        ≡ (if eqb_ℤ m.id j then some (new_room m.id) else get_room j m)
  unfolding create_room flat
  get_room-create_room new_room m j =
      get_room-flat j (create_room new_room m)
      ∙ ap flat (lookup-insert m.id j (some (new_room m.id)) m.room_map)
      ∙ elim (Bool-cases (eqb_ℤ m.id j)) [
        | inl e ↦ rw e refl
        | inr e ↦ rw e (sym (get_room-flat j m))
      ]

  -- What `erase_room` makes of the entry that it finds.
  erased : ℤ → RoomManager R → Option (Option R) → RoomManager R
  erased id m none = record m { room_map = insert id none m.room_map }
  erased id m (some none) = m
  erased id m (some (some r)) = record m { room_map = erase id m.room_map }

  erase_room_lem :
      (id : ℤ) (m : RoomManager R) → erase_room id m ≡ erased id m (lookup id m.room_map)
  unfolding erase_room index_room erased
  erase_room_lem id m =
      elim (lookup id m.room_map)
        as (λ o.
          (let p : Option R × IntMap (Option R) = elim o as (λ _. Option R × IntMap (Option R)) [
            | none ↦ (none, insert id none m.room_map)
            | some x ↦ (x, m.room_map)
          ] in
            elim p.0 as (λ _. RoomManager R) [
              | none ↦ record m { room_map = p.1 }
              | some r ↦ record m { room_map = erase id p.1 }
            ])
          ≡ erased id m o) [ none ↦ refl | some none ↦ refl | some (some r) ↦ refl ]

  -- What `_roomMap[id]` and `erase` leave is the same to the callers of `getRoom`.
  flat-erased :
      (id j : ℤ) (o : Option (Option R)) (m : RoomManager R)
      → lookup id m.room_map ≡ o
      → flat (lookup j (erased id m o).room_map)
        ≡ (if eqb_ℤ id j then none else flat (lookup j m.room_map))
  unfolding erased flat
  flat-erased id j none m e =
      ap flat (lookup-insert id j none m.room_map)
      ∙ elim (Bool-cases (eqb_ℤ id j)) [ inl q ↦ rw q refl | inr q ↦ rw q refl ]
  flat-erased id j (some none) m e = elim (Bool-cases (eqb_ℤ id j)) [
    | inl q ↦ rw (q, sym (eqb_ℤ→eq id j q), e) refl
    | inr q ↦ rw q refl
  ]
  flat-erased id j (some (some r)) m e =
      ap flat (lookup-erase id j m.room_map)
      ∙ elim (Bool-cases (eqb_ℤ id j)) [ inl q ↦ rw q refl | inr q ↦ rw q refl ]

  erased-id : (id : ℤ) (m : RoomManager R) (o : Option (Option R)) → (erased id m o).id ≡ m.id
  unfolding erased
  erased-id id m none = refl
  erased-id id m (some none) = refl
  erased-id id m (some (some r)) = refl

  get_room-erase_room :
      (id : ℤ) (m : RoomManager R) (j : ℤ)
      → get_room j (erase_room id m) ≡ (if eqb_ℤ id j then none else get_room j m)
  get_room-erase_room id m j =
      get_room-flat j (erase_room id m)
      ∙ ap (λ (n : RoomManager R). flat (lookup j n.room_map)) (erase_room_lem id m)
      ∙ flat-erased id j (lookup id m.room_map) m refl
      ∙ ap (λ o. if eqb_ℤ id j then none else o) (sym (get_room-flat j m))

-- The calls that change the manager.
pub data Op : Type 0 where
  creates : Op
  erases : ℤ → Op

module _ {R : Type 0} (new_room : ℤ → R) where
  unfoldable pub run : List Op → RoomManager R → RoomManager R
  unfolding create_room erase_room
  run [] m = m
  run (creates ∷ os) m = run os (create_room new_room m)
  run (erases id ∷ os) m = run os (erase_room id m)

  -- The specification: the next number, and a partial function from numbers to rooms.
  abbrev pub RoomTable : Type 0
  RoomTable = ℤ × (ℤ → Option R)

  abbrev put : RoomTable → ℤ → Option R → ℤ → Option R
  put t id o j = if eqb_ℤ id j then o else t.1 j

  pub run_table : List Op → RoomTable → RoomTable
  run_table [] t = t
  run_table (creates ∷ os) t = run_table os (add_int32 t.0 (pos 1), put t t.0 (some (new_room t.0)))
  run_table (erases id ∷ os) t = run_table os (t.0, put t id none)

  -- Whatever calls of `CreateRoom` and `EreaseRoom` come, the manager implements the partial function: a
  -- number gives its room from its `CreateRoom` to its `EreaseRoom`, and null otherwise. The null entries
  -- that the index operator makes do not show.
  pub run_refines :
      (os : List Op) (m : RoomManager R) (t : RoomTable)
      → m.id ≡ t.0
      → ((j : ℤ) → get_room j m ≡ t.1 j)
      → ((run os m).id ≡ (run_table os t).0)
        × ((j : ℤ) → get_room j (run os m) ≡ (run_table os t).1 j)
  unfolding run run_table create_room
  run_refines [] m t e h = (e, h)
  run_refines (creates ∷ os) m t e h =
      run_refines os (create_room new_room m) _ (ap (λ i. add_int32 i (pos 1)) e) (λ j.
        get_room-create_room new_room m j
        ∙ ap (λ o. if eqb_ℤ m.id j then some (new_room m.id) else o) (h j)
        ∙ ap (λ i. if eqb_ℤ i j then some (new_room i) else t.1 j) e)
  run_refines (erases id ∷ os) m t e h =
      run_refines os (erase_room id m) _
        (ap (λ (n : RoomManager R). n.id) (erase_room_lem id m)
          ∙ erased-id id m (lookup id m.room_map)
          ∙ e)
        (λ j. get_room-erase_room id m j ∙ ap (λ o. if eqb_ℤ id j then none else o) (h j))
