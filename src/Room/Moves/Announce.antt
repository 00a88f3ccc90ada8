-- ===== src/Room/Moves/Announce.antt =====
-- GameBS/BS_GameRoom.cpp, `MoveMosters`: which monsters the clients are told of.
use mathlib.Core.List.{Perm, perm_middle}
use mathlib.Core.List.Perm
use bsgame_server.Base.{
  ◌≡◌, refl, ap, ◌∙◌, List, [], ◌∷◌, ◌++◌, Bool, if◌then◌else◌, map, contains, ◌&&◌, inl, inr,
  Bool-cases,
}
use bsgame_server.Base.Int.{ℤ, negsuc, ltb_ℤ}
use bsgame_server.Geometry.{Floats}
use bsgame_server.MapInfo.{Rect, in_rect}
use bsgame_server.Units.{UnitInfo}
use bsgame_server.Units.Monster.{Monster, set_tick, is_moving, on_target}
use bsgame_server.Units.Monster.Chase.{move_target}
use bsgame_server.Packets.{Attack, Move}
use bsgame_server.Room.{MonsterMap}
use bsgame_server.Room.Sessions.{SessionMap}
use bsgame_server.Room.Moves.{
  Outcome, waits, attacks, moves, chase, wander, move_one, add_outcome, move_all,
}
use bsgame_server.Room.Moves.Keep.{chase-Same, wander-Same, set_tick-Same}

-- A monster is free if it is on the map, and neither stunned by a hit nor in the middle of an attack.
abbrev pub is_free : Monster → Bool
is_free x = (set_tick x).is_spawned && is_moving (set_tick x)

pub free_codes : MonsterMap → List ℤ
free_codes [] = []
free_codes ((k, x) ∷ m) = let rest = free_codes m in if is_free x then x.uuid ∷ rest else rest

-- The codes that an outcome names.
code_of : Outcome → List ℤ
code_of waits = []
code_of (attacks a) = a.code ∷ []
code_of (moves u) = u.code ∷ []

-- The codes of both lists.
abbrev pub told : List Attack × List Move → List ℤ
told l = map (λ (a : Attack). a.code) l.0 ++ map (λ (u : Move). u.code) l.1

told-add_outcome :
    (o : Outcome) (l : List Attack × List Move)
    → Perm (told (add_outcome o l)) (code_of o ++ told l)
unfolding add_outcome code_of
told-add_outcome waits l = Perm.refl (told l)
told-add_outcome (attacks a) l = Perm.refl (a.code ∷ told l)
told-add_outcome (moves u) l =
    perm_middle (map (λ (a : Attack). a.code) l.0) (map (λ (u : Move). u.code) l.1)

module _ (f : Floats) (rotate : ℤ → ℤ) (rect : Rect) (sessions : SessionMap)
    (players : ℤ → UnitInfo) (tick : ℤ) where
  chase_code :
      (t : ℤ) (x : Monster)
      → code_of (chase f rotate rect players t x).1 ≡ (chase f rotate rect players t x).0.uuid ∷ []
  unfolding chase code_of
  chase_code t x =
      elim (Bool-cases (
        in_rect (move_target f x (players t).position).1.position.x
          (move_target f x (players t).position).1.position.y rect
        && (move_target f x (players t).position).0)) [ inl e ↦ rw e refl | inr e ↦ rw e refl ]

  wander_code : (k : ℤ) (x : Monster) → code_of (wander f rotate rect tick k x).1 ≡ x.uuid ∷ []
  unfolding wander code_of
  wander_code k x = ap (λ u. u ∷ []) (wander-Same f rotate rect tick k x).uuid

  move_one_code :
      (k : ℤ) (x : Monster)
      → code_of (move_one f rotate rect sessions players tick k x).1
        ≡ (if is_free x then x.uuid ∷ [] else [])
  unfolding move_one code_of
  move_one_code k x = elim (Bool-cases (is_free x)) [
    | inl e ↦
        rw e
          (elim (Bool-cases (
            ltb_ℤ (negsuc 0) x.target
            && contains x.target sessions
            && on_target (set_tick x) (players x.target).position rect)) [
              | inl c ↦ rw c (
                  chase_code x.target (set_tick x)
                  ∙ ap (λ u. u ∷ [])
                      ((chase-Same f rotate rect players x.target (set_tick x)).uuid
                        ∙ (set_tick-Same x).uuid))
              | inr c ↦ rw c (wander_code k (set_tick x) ∙ ap (λ u. u ∷ []) (set_tick-Same x).uuid)
            ])
    | inr e ↦ rw e refl
  ]

  -- The attacks and the moves of one `MoveMosters` name each free monster once, and no other.
  pub told_lem :
      (m : MonsterMap)
      → Perm (told (move_all f rotate rect sessions players tick m).1) (free_codes m)
  unfolding move_all free_codes
  told_lem [] = Perm.nil
  told_lem ((k, x) ∷ m) =
      Perm.trans
        (told-add_outcome (move_one f rotate rect sessions players tick k x).1
          (move_all f rotate rect sessions players tick m).1)
        (rw (move_one_code k x) (elim (Bool-cases (is_free x)) [
          | inl e ↦ rw e (Perm.cons x.uuid (told_lem m))
          | inr e ↦ rw e (told_lem m)
        ]))
