-- ===== src/Base/Float.antt =====
-- Python's `float`: a double is its 64 bits, so a value is carried exactly and compared as IEEE 754
-- compares it. Arithmetic on doubles is not defined here.
use hacknation_hackathon.Base.Tests.{ltb, leb, eqb, if◌then◌else◌}
use Prim.Native.Nat.{ℕ, ◌%◌, ◌^◌}
use mathlib.Core.Path.{◌≡◌, refl}
use mathlib.Core.Bool.{Bool, true, false, not, ◌&&◌, ◌||◌}

pub record Float : Type 0 where
  pub bits : ℕ

abbrev sign_bit : ℕ
sign_bit = 2 ^ 63

abbrev magnitude : Float → ℕ
magnitude x = x.bits % sign_bit

abbrev is_negative : Float → Bool
is_negative x = leb sign_bit x.bits

-- exponent all ones, fraction not zero
abbrev is_nan : Float → Bool
is_nan x = ltb 0x7FF0000000000000 (magnitude x)

less_signed : Bool → Bool → ℕ → ℕ → Bool
less_signed true true m n = ltb n m
less_signed true false m n = not (eqb m 0 && eqb n 0)
less_signed false true m n = false
less_signed false false m n = ltb m n

-- `x < y`
unfoldable pub float_lt : Float → Float → Bool
unfolding less_signed
float_lt x y =
    if is_nan x || is_nan y
    then false
    else less_signed (is_negative x) (is_negative y) (magnitude x) (magnitude y)

-- 0.85 < 0.9, and -0.0 is not below 0.0
float_lt_examples :
    (float_lt (record { bits = 0x3FEB333333333333 }) (record { bits = 0x3FECCCCCCCCCCCCD }) ≡ true)
    × (float_lt (record { bits = 0x8000000000000000 }) (record { bits = 0 }) ≡ false)
unfolding float_lt
float_lt_examples = (refl, refl)

-- `x <= y`
unfoldable pub float_le : Float → Float → Bool
unfolding float_lt
float_le x y = if is_nan x || is_nan y then false else not (float_lt y x)
