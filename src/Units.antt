-- ===== src/Units.antt =====
-- GameBS/BS_Player.h, GameBS/BS_Player.cpp: `BS_Unit_Info`, what the server knows of a player or a
-- monster. `_hp` is an `int32`, and a float is its bit pattern, which is only moved here.
pub mod Monster
use bsgame_server.Base.{ℕ, List, Bool, true, false, if◌then◌else◌, take}
use bsgame_server.Base.Int.{ℤ, pos, ltb_ℤ, leb_ℤ, to_word, sub_int32}
use bsgame_server.Base.Words.{uint8}

-- `FVector`.
pub record Position : Type 0 where
  pub x : ℤ
  pub y : ℤ
  pub z : ℤ
  pub yaw : ℕ

pub record UnitInfo : Type 0 where
  pub name : List ℕ
  pub uuid : ℤ
  pub name_len : ℕ
  pub hp : ℤ
  pub unit_type : ℕ
  pub position : Position
  pub is_spawned : Bool

-- `BS_Unit_Info(uuid)`. The constructor leaves `_name` and `_nameLen` as the memory has them.
unfoldable pub create : List ℕ → ℕ → ℤ → UnitInfo
create name name_len uuid = record {
  name = name;
  uuid = uuid;
  name_len = name_len;
  hp = pos 100;
  unit_type = 1;
  position = record { x = pos 0; y = pos 0; z = pos 0; yaw = 0 };
  is_spawned = true;
}

-- `SetName(name, nameLen)` copies `nameLen` bytes from the pointer `name`.
unfoldable pub set_name : UnitInfo → List ℕ → ℕ → UnitInfo
set_name u name name_len = record u { name = take name_len name; name_len = name_len }

-- `SetPosition(X, Y, Z)` keeps the yaw.
unfoldable pub set_position : UnitInfo → ℤ → ℤ → ℤ → UnitInfo
set_position u x y z = record u { position = record { x = x; y = y; z = z; yaw = u.position.yaw } }

-- `SetPosition(X, Y, Z, Yaw)`.
unfoldable pub set_position_yaw : UnitInfo → ℤ → ℤ → ℤ → ℕ → UnitInfo
set_position_yaw u x y z yaw = record u { position = record { x = x; y = y; z = z; yaw = yaw } }

unfoldable pub set_type : UnitInfo → ℕ → UnitInfo
set_type u t = record u { unit_type = t }

unfoldable pub set_hp : UnitInfo → ℤ → UnitInfo
set_hp u hp = record u { hp = hp }

unfoldable pub set_spawn : UnitInfo → Bool → UnitInfo
set_spawn u b = record u { is_spawned = b }

unfoldable pub take_demage : UnitInfo → ℤ → UnitInfo
unfolding set_spawn
take_demage u demage =
    let hit : UnitInfo = record u { hp = sub_int32 u.hp demage } in
    if leb_ℤ hit.hp (pos 0) then set_spawn hit false else hit

unfoldable pub hit_unit : UnitInfo → ℤ → UnitInfo
hit_unit u damage = record u { hp = sub_int32 u.hp damage }

unfoldable pub die_unit : UnitInfo → Bool
die_unit u = if ltb_ℤ (pos 0) u.hp then false else true

-- `GetHp()` and `GetNameLen()` return a `BYTE`.
unfoldable pub get_hp : UnitInfo → ℕ
get_hp u = uint8 (to_word u.hp)

unfoldable pub get_name_len : UnitInfo → ℕ
get_name_len u = uint8 u.name_len
