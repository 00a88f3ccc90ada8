-- ===== src/Units/Monster/Life.antt =====
-- Hits, death, respawn, and the pause after an attack.
use bsgame_server.Base.{ℕ, zero, suc, ◌*◌, ◌≤◌, ◌≡◌, true, false, ltb, arith, if◌then◌else◌}
use bsgame_server.Base.Int.{
  pos, negsuc, pos_part, ◌≤ℤ◌, sub_ℕ, int32, sub_int32, add_int32, ◌-ℤ◌, ◌+ℤ◌, rem_ℤ,
}
use bsgame_server.Units.{UnitInfo, take_demage, die_unit, get_hp}
use bsgame_server.Units.Monster.{Monster, set_tick}

-- A unit that is on the map has between 1 and 100 hit points.
abbrev pub IsAlive : UnitInfo → Type 0
IsAlive u = u.is_spawned ≡ true → (pos 1 ≤ℤ u.hp) × (u.hp ≤ℤ pos 100)

-- A hit of at most 100 takes its damage off a unit that is on the map with 1 to 100 hit points,
-- and takes the unit off the map exactly when no hit point is left.
pub take_demage_lem :
    (u : UnitInfo) (d : ℕ)
    → IsAlive u
    → u.is_spawned ≡ true
    → d ≤ 100
    → ((take_demage u (pos d)).hp ≡ u.hp -ℤ pos d)
      × ((take_demage u (pos d)).is_spawned ≡ ltb d (pos_part u.hp))
      × (die_unit (take_demage u (pos d)) ≡ (if ltb d (pos_part u.hp) then false else true))
unfolding take_demage die_unit sub_int32 int32 ◌-ℤ◌
take_demage_lem u d v s h = (ground (arith, v s), ground (arith, v s), ground (arith, v s))

pub take_demage-IsAlive :
    (u : UnitInfo) (d : ℕ) → d ≤ 100 → IsAlive u → IsAlive (take_demage u (pos d))
unfolding take_demage sub_int32 int32 ◌-ℤ◌
take_demage-IsAlive u d h v e = ground (arith, v)

-- What `GetHp` sends of a unit that is on the map with 1 to 100 hit points is its hit points.
pub get_hp_lem : (u : UnitInfo) → IsAlive u → u.is_spawned ≡ true → pos (get_hp u) ≡ u.hp
unfolding get_hp
get_hp_lem u v s = ground (arith, v s)

-- `k` hits of 10 on a unit.
pub hits : ℕ → UnitInfo → UnitInfo
hits zero u = u
hits (suc k) u = take_demage (hits k u) (pos 10)

sub_ten : (k : ℕ) → k ≤ 1000 → sub_int32 (sub_ℕ 100 (10 * k)) (pos 10) ≡ sub_ℕ 100 (10 * suc k)
unfolding sub_int32 int32 ◌-ℤ◌
sub_ten k h = ground arith

hit_once :
    (k : ℕ) (u : UnitInfo)
    → k ≤ 1000
    → u.hp ≡ sub_ℕ 100 (10 * k)
    → u.is_spawned ≡ ltb k 10
    → ((take_demage u (pos 10)).hp ≡ sub_ℕ 100 (10 * suc k))
      × ((take_demage u (pos 10)).is_spawned ≡ ltb (suc k) 10)
unfolding take_demage
hit_once k u h e s = rw (e, sub_ten k h) (ground arith, ground arith)

hits_hp :
    (k : ℕ) (u : UnitInfo)
    → u.hp ≡ pos 100
    → u.is_spawned ≡ true
    → k ≤ 1000
    → ((hits k u).hp ≡ sub_ℕ 100 (10 * k)) × ((hits k u).is_spawned ≡ ltb k 10)
unfolding hits
hits_hp zero u e s h = (e, s)
hits_hp (suc k) u e s h =
    let (hp, spawned) = hits_hp k u e s (omega arith) in
    hit_once k (hits k u) (omega arith) hp spawned

-- A unit on the map with 100 hit points takes nine hits of 10 and leaves the map with the tenth;
-- the hits that follow, up to a thousand, do not bring it back.
pub hits-is_spawned :
    (k : ℕ) (u : UnitInfo)
    → u.hp ≡ pos 100
    → u.is_spawned ≡ true
    → k ≤ 1000
    → (hits k u).is_spawned ≡ ltb k 10
hits-is_spawned k u e s h = (hits_hp k u e s h).1

-- `k` ticks.
pub ticks : ℕ → Monster → Monster
ticks zero m = m
ticks (suc k) m = ticks k (set_tick m)

-- An attacking monster whose counter is 0 attacks for three more ticks and stops with the
-- fourth; one whose counter is -1, as it is before the first attack, stops with the first tick.
-- The counter is then 0.
pub attack_pause :
    (m : Monster)
    → m.attacking ≡ true
    → (m.tick ≡ pos 0
        → ((ticks 3 m).attacking ≡ true)
          × ((ticks 4 m).attacking ≡ false)
          × ((ticks 4 m).tick ≡ pos 0))
      × (m.tick ≡ negsuc 0 → ((ticks 1 m).attacking ≡ false) × ((ticks 1 m).tick ≡ pos 0))
unfolding ticks set_tick rem_ℤ add_int32 int32 ◌+ℤ◌
attack_pause m a = (λ e. ground arith, λ e. ground arith)
