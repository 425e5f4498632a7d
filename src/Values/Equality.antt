-- ===== src/Values/Equality.antt =====
-- `==` of doubles and of floats, by what IEEE 754 says of it.
use monio.Base.{
  ℕ, ◌%◌, ◌^◌, ◌≤◌, ◌≡◌, ◌↔◌, ◌⊎◌, true, arith, not, ◌&&◌, ◌||◌, ltb, ◌==◌, nat_eq, ==_iff,
}
use monio.Values.{Double, Float, pattern_eq, double_eq, float_eq}

-- Neither pattern is a NaN, and they are the same or both a zero. `w` is the place of the sign, and
-- a magnitude above that of infinity is a NaN.
abbrev pub SamePattern : ℕ → ℕ → ℕ → ℕ → Type 0
SamePattern w infinity a b =
    (a % 2 ^ w ≤ infinity)
    × (b % 2 ^ w ≤ infinity)
    × ((a ≡ b) ⊎ ((a % 2 ^ w ≡ 0) × (b % 2 ^ w ≡ 0)))

abbrev pub SameDouble : Double → Double → Type 0
SameDouble a b = SamePattern 63 0x7ff0000000000000 a.bits b.bits

abbrev pub SameFloat : Float → Float → Type 0
SameFloat a b = SamePattern 31 0x7f800000 a.bits b.bits

magnitudes_eq_iff :
    (infinity a b x y : ℕ)
    → ((not (ltb infinity x) && not (ltb infinity y) && (a == b || (x == 0 && y == 0))) ≡ true)
      ↔ ((x ≤ infinity) × (y ≤ infinity) × ((a ≡ b) ⊎ ((x ≡ 0) × (y ≡ 0))))
magnitudes_eq_iff infinity a b x y = ground (arith, ==_iff a b, ==_iff x 0, ==_iff y 0)

pub double_eq_iff : (a b : Double) → (double_eq a b ≡ true) ↔ SameDouble a b
unfolding double_eq pattern_eq
double_eq_iff a b =
    magnitudes_eq_iff 0x7ff0000000000000 a.bits b.bits (a.bits % 2 ^ 63) (b.bits % 2 ^ 63)

pub float_eq_iff : (a b : Float) → (float_eq a b ≡ true) ↔ SameFloat a b
unfolding float_eq pattern_eq
float_eq_iff a b = magnitudes_eq_iff 0x7f800000 a.bits b.bits (a.bits % 2 ^ 31) (b.bits % 2 ^ 31)
