-- ===== src/MapInfo/Laws.antt =====
-- What `InMonsterRect` guarantees, and what `InRect` tests.
use bsgame_server.Base.{ℕ, ◌≤◌, ◌≡◌, ◌↔◌, true, false, arith}
use bsgame_server.Base.Int.{
  ℤ, pos, ◌≤ℤ◌, ◌<ℤ◌, int32, add_int32, sub_int32, mul_int32, ◌+ℤ◌, ◌-ℤ◌, ◌*ℤ◌,
}
use bsgame_server.MapInfo.{Rect, start_x, start_y, end_x, end_y, create, in_rect, in_monster_rect}

-- A point of the closed rectangle.
pub record Inside (r : Rect) (x y : ℤ) : Type 0 where
  pub from_x : start_x r ≤ℤ x
  pub to_x : x ≤ℤ end_x r
  pub from_y : start_y r ≤ℤ y
  pub to_y : y ≤ℤ end_y r

-- Neither side of the rectangle is negative.
pub record IsOrdered (r : Rect) : Type 0 where
  pub wide : start_x r ≤ℤ end_x r
  pub high : start_y r ≤ℤ end_y r

-- In a rectangle whose sides are not negative, `InMonsterRect` puts every point into the
-- rectangle, moves no point that lies there, and answers `false` only for a point that lies
-- there.
pub in_monster_rect_lem :
    (r : Rect) (x y : ℤ)
    → IsOrdered r
    → Inside r (in_monster_rect r x y).1 (in_monster_rect r x y).2
      × (Inside r x y → in_monster_rect r x y ≡ (false, x, y))
      × ((in_monster_rect r x y).0 ≡ false → Inside r x y)
unfolding in_monster_rect
in_monster_rect_lem r x y o = (ground arith, λ v. ground arith, λ e. ground arith)

-- `InRect` tests that a point lies strictly between the edges.
pub in_rect_iff :
    (r : Rect) (x y : ℤ)
    → (in_rect x y r ≡ true)
      ↔ ((start_x r <ℤ x) × (x <ℤ end_x r) × (start_y r <ℤ y) × (y <ℤ end_y r))
unfolding in_rect
in_rect_iff r x y = (λ h. ground arith, λ h. ground arith)

-- A map of at most 4000000 scales each way has its edges where they are meant to be.
pub create-IsOrdered :
    (m n : ℕ) → 1 ≤ m → m ≤ 4000000 → 1 ≤ n → n ≤ 4000000 → IsOrdered (create (pos m) (pos n))
unfolding create start_x start_y end_x end_y sub_int32 add_int32 mul_int32 int32 ◌+ℤ◌ ◌-ℤ◌ ◌*ℤ◌
create-IsOrdered m n a b c d = record { wide = ground arith; high = ground arith }
