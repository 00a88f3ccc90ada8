-- ===== src/Room/Moves/Keep.antt =====
-- GameBS/BS_GameRoom.cpp, `MoveMosters`: what a round leaves of a monster, and how much it tells.
use bsgame_server.Base.{
  map-some, suc, ◌+◌, ◌≤◌, ◌≡◌, refl, sym, ap, ◌∙◌, subst, List, [], ◌∷◌, Bool, true, false, lookup,
  if◌then◌else◌, length, arith, contains, ◌&&◌,
}
use bsgame_server.Base.Int.{ℤ, negsuc, ltb_ℤ}
use mathlib.Core.Option
use bsgame_server.Geometry.{Floats}
use bsgame_server.MapInfo.{Rect}
use bsgame_server.Units.{set_position_yaw, UnitInfo}
use bsgame_server.Units.Monster.{Monster, set_tick, set_moving, is_moving, on_target}
use bsgame_server.Units.Monster.Chase.{move_target, check_attack_target, step_to}
use bsgame_server.Units.Monster.Life.{IsAlive}
use bsgame_server.Packets.{Attack, Move}
use bsgame_server.Room.{MonsterMap, uuid_of}
use bsgame_server.Room.Monsters.{IsValid}
use bsgame_server.Room.Sessions.{SessionMap, each, lookup-each}
use bsgame_server.Room.Moves.{
  Outcome, waits, attacks, moves, chase, wander, move_one, add_outcome, move_all,
}

-- What a round does not touch.
pub record Same (x y : Monster) : Type 0 where
  pub hp : y.hp ≡ x.hp
  pub spawned : y.is_spawned ≡ x.is_spawned
  pub uuid : y.uuid ≡ x.uuid
  pub target : y.target ≡ x.target

Same-IsAlive : {x y : Monster} → Same x y → IsAlive x.info → IsAlive y.info
Same-IsAlive s a e = rw s.hp (a (sym s.spawned ∙ e))

Same-trans : {x y z : Monster} → Same x y → Same y z → Same x z
Same-trans a b = record {
  hp = b.hp ∙ a.hp;
  spawned = b.spawned ∙ a.spawned;
  uuid = b.uuid ∙ a.uuid;
  target = b.target ∙ a.target;
}

pub set_tick-Same : (x : Monster) → Same x (set_tick x)
unfolding set_tick
set_tick-Same x = record {
  hp = ground arith;
  spawned = ground arith;
  uuid = ground arith;
  target = ground arith;
}

set_moving-Same : (x : Monster) (b : Bool) → Same x (set_moving x b)
unfolding set_moving
set_moving-Same x b = record { hp = refl; spawned = refl; uuid = refl; target = refl }

if-Same {ℓ} :
    {B : Type ℓ} (x : Monster) (c : Bool) (p q : Monster × B)
    → Same x p.0
    → Same x q.0
    → Same x (if c then p else q).0
if-Same x true p q a b = a
if-Same x false p q a b = b

module _ (f : Floats) (rotate : ℤ → ℤ) where
  pub chase-Same :
      (map : Rect) (players : ℤ → UnitInfo) (t : ℤ) (x : Monster)
      → Same x (chase f rotate map players t x).0
  unfolding chase move_target check_attack_target step_to
  chase-Same map players t x = record {
    hp = ground arith;
    spawned = ground arith;
    uuid = ground arith;
    target = ground arith;
  }

  pub wander-Same :
      (map : Rect) (tick k : ℤ) (x : Monster) → Same x (wander f rotate map tick k x).0
  unfolding wander set_position_yaw
  wander-Same map tick k x = record { hp = refl; spawned = refl; uuid = refl; target = refl }

  pub move_one-Same :
      (map : Rect) (sessions : SessionMap) (players : ℤ → UnitInfo) (tick k : ℤ) (x : Monster)
      → Same x (move_one f rotate map sessions players tick k x).0
  unfolding move_one
  move_one-Same map sessions players tick k x =
      let t = set_tick-Same x in
      let x' = set_tick x in
      let chased = chase f rotate map players x.target x' in
      let wandered = wander f rotate map tick k x' in
      let follows =
        ltb_ℤ (negsuc 0) x.target
        && contains x.target sessions
        && on_target x' (players x.target).position map in
      if-Same x (x'.is_spawned && is_moving x') (if follows then chased else wandered)
        (set_moving x' true, waits)
        (if-Same x follows chased wandered (Same-trans t (chase-Same map players x.target x'))
          (Same-trans t (wander-Same map tick k x')))
        (Same-trans t (set_moving-Same x' true))

-- The rounds of the loop, one for each monster.
module _ (f : Floats) (rotate : ℤ → ℤ) (map : Rect) (sessions : SessionMap) (players : ℤ → UnitInfo)
    (tick : ℤ) where
  pub move_all-each :
      (m : MonsterMap)
      → (move_all f rotate map sessions players tick m).0
        ≡ each (λ k x. (move_one f rotate map sessions players tick k x).0) m
  unfolding move_all each
  move_all-each [] = refl
  move_all-each ((k, x) ∷ m) =
      ap (λ l. (k, (move_one f rotate map sessions players tick k x).0) ∷ l) (move_all-each m)

  length-add_outcome :
      (o : Outcome) (l : List Attack × List Move)
      → length (add_outcome o l).0 + length (add_outcome o l).1 ≤ length l.0 + length l.1 + 1
  unfolding add_outcome
  length-add_outcome waits l = omega arith
  length-add_outcome (attacks a) l = omega arith
  length-add_outcome (moves m) l = omega arith

  -- No more is told than there are monsters.
  pub length-move_all :
      (m : MonsterMap)
      → length (move_all f rotate map sessions players tick m).1.0
          + length (move_all f rotate map sessions players tick m).1.1
        ≤ length m
  unfolding move_all
  length-move_all [] = omega arith
  length-move_all ((k, x) ∷ m) = omega (
    arith,
    length-move_all m,
    length-add_outcome (move_one f rotate map sessions players tick k x).1
        (move_all f rotate map sessions players tick m).1,
  )

pub length-each {ℓ κ} :
    {V : Type ℓ} {W : Type κ} (g : ℤ → V → W) (m : List (ℤ × V)) → length (each g m) ≡ length m
unfolding each
length-each g [] = refl
length-each g ((k, v) ∷ m) = ap suc (length-each g m)

-- A map whose monsters are changed one by one, and not in what a round leaves alone.
pub each-IsValid :
    (g : ℤ → Monster → Monster) (m : MonsterMap)
    → ((k : ℤ) (x : Monster) → Same x (g k x))
    → IsValid m
    → IsValid (each g m)
each-IsValid g m same v = record {
  present = λ i h l.
      let (x, e) = v.present i h l in
      (g (uuid_of i) x, lookup-each g (uuid_of i) m ∙ ap (Option.map (g (uuid_of i))) e);
  alive = λ k y h.
      let (x, e, r) = map-some (g k) (lookup k m) y (sym (lookup-each g k m) ∙ h) in
      subst (λ z. IsAlive z.info) r (Same-IsAlive (same k x) (v.alive k x e));
}
