-- ===== src/MapInfo.antt =====
-- GameBS/BS_MapInfo.h, GameBS/BS_MapInfo.cpp: the rectangle of a map. `X` and `Y` are half the width
-- and half the height.
pub mod Laws
use bsgame_server.Base.{Bool, true, false, ◌&&◌, if◌then◌else◌}
use bsgame_server.Base.Int.{ℤ, pos, ltb_ℤ, add_int32, sub_int32, mul_int32}

pub record Rect : Type 0 where
  pub x : ℤ
  pub y : ℤ
  pub center_x : ℤ
  pub center_y : ℤ

unfoldable pub start_x : Rect → ℤ
start_x r = sub_int32 r.center_x r.x

unfoldable pub start_y : Rect → ℤ
start_y r = sub_int32 r.center_y r.y

unfoldable pub end_x : Rect → ℤ
end_x r = add_int32 r.center_x r.x

unfoldable pub end_y : Rect → ℤ
end_y r = add_int32 r.center_y r.y

abbrev pub scale : ℤ
scale = pos 500

-- `BS_MapInfo(x, y)`, through the constructor of `Rect` that leaves the centre at 0.
unfoldable pub create : ℤ → ℤ → Rect
create x y = record {
  x = sub_int32 (mul_int32 x scale) (pos 100);
  y = sub_int32 (mul_int32 y scale) (pos 100);
  center_x = pos 0;
  center_y = pos 0;
}

unfoldable pub in_rect : ℤ → ℤ → Rect → Bool
in_rect x y r = ltb_ℤ (start_x r) x && ltb_ℤ x (end_x r) && ltb_ℤ (start_y r) y && ltb_ℤ y (end_y r)

-- One coordinate: `if (start > x) … else if (end < x) …`, with the flag that says whether it moved.
unfoldable pub clamp : ℤ → ℤ → ℤ → Bool × ℤ
clamp lo hi v = if ltb_ℤ v lo then (true, lo) else (if ltb_ℤ hi v then (true, hi) else (false, v))

-- `InMonsterRect` assigns through its two references: the flag, and the new coordinates.
unfoldable pub in_monster_rect : Rect → ℤ → ℤ → Bool × ℤ × ℤ
unfolding clamp
in_monster_rect r x y =
    let (moved_x, x') = clamp (start_x r) (end_x r) x in
    let (moved_y, y') = clamp (start_y r) (end_y r) y in (if moved_y then true else moved_x, x', y')
