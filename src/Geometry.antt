-- ===== src/Geometry.antt =====
-- CoreLib/Utils.h: the geometry of the moves, and the clock. A `float` and a `double` are bit patterns;
-- their arithmetic is the compiler's and the C library's, and a parameter here.
use bsgame_server.Base.{ℕ, ◌+◌, ◌*◌, ◌/◌, ◌%◌, ◌^◌, Bool, if◌then◌else◌}
use bsgame_server.Base.Int.{ℤ, negsuc}

-- The operations that the source uses, at the type at which C++ applies them. `int_of_float` and
-- `int_of_double` are the conversions to `int32`, `is_zero` and `is_positive` the tests `== 0.0` and
-- `> 0` of a `double`.
pub record Floats : Type 0 where
  pub float_of_int : ℤ → ℕ
  pub int_of_float : ℕ → ℤ
  pub float_of_double : ℕ → ℕ
  pub double_of_float : ℕ → ℕ
  pub double_of_int : ℤ → ℕ
  pub int_of_double : ℕ → ℤ
  pub float_add : ℕ → ℕ → ℕ
  pub float_sub : ℕ → ℕ → ℕ
  pub float_mul : ℕ → ℕ → ℕ
  pub float_div : ℕ → ℕ → ℕ
  pub float_sqrt : ℕ → ℕ
  pub float_cos : ℕ → ℕ
  pub float_sin : ℕ → ℕ
  pub float_atan2 : ℕ → ℕ → ℕ
  pub double_add : ℕ → ℕ → ℕ
  pub double_sub : ℕ → ℕ → ℕ
  pub double_mul : ℕ → ℕ → ℕ
  pub double_div : ℕ → ℕ → ℕ
  pub double_sqrt : ℕ → ℕ
  pub double_pow : ℕ → ℕ → ℕ
  pub double_cos : ℕ → ℕ
  pub double_sin : ℕ → ℕ
  pub double_acos : ℕ → ℕ
  pub is_zero : ℕ → Bool
  pub is_positive : ℕ → Bool

-- The constants `1.0f`, `180.0`, `M_PI` and `3.14`.
abbrev pub float_one : ℕ
float_one = 0x3F800000

abbrev pub double_180 : ℕ
double_180 = 0x4066800000000000

abbrev pub double_pi : ℕ
double_pi = 0x400921FB54442D18

abbrev pub double_3_14 : ℕ
double_3_14 = 0x40091EB851EB851F

module _ (f : Floats) where
  open f use {
    float_of_int, float_of_double, double_of_float, float_add, float_sub, float_mul, float_div,
    float_sqrt, double_sub, double_mul, double_div, double_acos, is_zero, is_positive,
  }

  pub dot_product : ℕ → ℕ → ℕ → ℕ → ℕ
  dot_product x1 y1 x2 y2 = double_of_float (float_add (float_mul x1 x2) (float_mul y1 y2))

  pub cross_product_angle : ℕ → ℕ → ℕ → ℕ → ℕ
  cross_product_angle x1 y1 x2 y2 = double_sub (double_mul x1 y2) (double_mul x2 y1)

  pub magnitude : ℕ → ℕ → ℕ
  magnitude x y = double_of_float (float_sqrt (float_add (float_mul x x) (float_mul y y)))

  -- Both references are assigned, unless the vector has no length.
  pub normalize_vector : ℕ → ℕ → ℕ × ℕ
  unfolding magnitude
  normalize_vector x y =
      let mag = float_of_double (magnitude x y) in
      if is_zero (double_of_float mag) then (x, y) else (float_div x mag, float_div y mag)

  pub radian_to_degree : ℕ → ℕ
  radian_to_degree radian = double_div (double_mul radian double_180) double_pi

  -- `calculateAngle`: the angle between the x-axis and the way from the first point to the second.
  pub calculate_angle : ℕ → ℕ → ℕ → ℕ → ℕ
  unfolding normalize_vector dot_product radian_to_degree cross_product_angle
  calculate_angle x1 y1 x2 y2 =
      let (x, y) = normalize_vector (float_sub x2 x1) (float_sub y2 y1) in
      let angle = float_of_double (radian_to_degree (double_acos (dot_product float_one 0 x y))) in
      let cross =
        cross_product_angle (double_of_float float_one) (double_of_float 0) (double_of_float x)
          (double_of_float y) in
      if is_positive cross then angle else float_mul angle (float_of_int (negsuc 0))

-- `GetTickCount64_OS`: the two parts of the monotonic clock, as milliseconds.
unfoldable pub tick_count : ℕ → ℕ → ℕ
tick_count seconds nanoseconds = (seconds * 1000 + nanoseconds / 1000 / 1000) % 2 ^ 64
