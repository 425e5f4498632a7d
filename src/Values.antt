-- ===== src/Values.antt =====
-- The numbers that data and attributes hold. A double and a float are their IEEE 754 bit patterns,
-- which the code only moves and compares; an int is an integer.
pub mod Equality
use monio.Base.{
  if◌then◌else◌, zero, suc, ◌+◌, ◌-◌, ◌*◌, ◌/◌, leb, ℕ, ◌%◌, ◌^◌, Bool, not, ◌&&◌, ◌||◌, ltb, ◌==◌,
  nat_eq,
}
use monio.Result.{Result, ok, err, undefined_access}

pub record Double : Type 0 where
  pub bits : ℕ

pub record Float : Type 0 where
  pub bits : ℕ

-- `==` on patterns whose magnitude is below 2 ^ w: a NaN equals nothing, and the zeros each other.
unfoldable pub pattern_eq : ℕ → ℕ → ℕ → ℕ → Bool
pattern_eq w infinity a b =
    not (ltb infinity (a % 2 ^ w))
    && not (ltb infinity (b % 2 ^ w))
    && (a == b || (a % 2 ^ w == 0 && b % 2 ^ w == 0))

unfoldable pub double_eq : Double → Double → Bool
unfolding pattern_eq
double_eq a b = pattern_eq 63 0x7ff0000000000000 a.bits b.bits

unfoldable pub float_eq : Float → Float → Bool
unfolding pattern_eq
float_eq a b = pattern_eq 31 0x7f800000 a.bits b.bits

abbrev pub zero_double : Double
zero_double = record { bits = 0 }

abbrev pub zero_float : Float
zero_float = record { bits = 0 }

-- The exponent of the highest power of two, at most 2 ^ fuel, in a number.
unfoldable pub highest_power : ℕ → ℕ → ℕ
highest_power n zero = zero
highest_power n (suc k) =
    let lower = highest_power n k in if leb (2 ^ suc k) n then suc k else lower

-- The double n / 2, for 0 < n < 2 ^ 53.
unfoldable pub half : ℕ → Double
unfolding highest_power
half n =
    let e = highest_power n 52 in record { bits = (1022 + e) * 2 ^ 52 + (n - 2 ^ e) * 2 ^ (52 - e) }

-- The conversion of a float to a double, which is exact.
unfoldable pub widen : Float → Double
unfolding highest_power
widen f =
    let sign = (f.bits / 2 ^ 31) % 2 * 2 ^ 63 in
    let e = f.bits / 2 ^ 23 % 2 ^ 8 in
    let m = f.bits % 2 ^ 23 in
    if e == 255
    then record { bits = sign + 2047 * 2 ^ 52 + m * 2 ^ 29 }
    else if not (e == 0)
    then record { bits = sign + (e + 896) * 2 ^ 52 + m * 2 ^ 29 }
    else if m == 0
    then record { bits = sign }
    else let k = highest_power m 22 in
      record { bits = sign + (874 + k) * 2 ^ 52 + (m - 2 ^ k) * 2 ^ (52 - k) }

-- static_cast<uint64_t>(std::round(d)): halves are rounded away from zero; a value that no uint64_t
-- has is undefined.
unfoldable pub round_to_uint64 : Double → Result ℕ
round_to_uint64 d =
    let e = d.bits / 2 ^ 52 % 2 ^ 11 in
    let m = d.bits % 2 ^ 52 + 2 ^ 52 in
    let rounded = (m + 2 ^ (1074 - e)) / 2 ^ (1075 - e) in
    if ltb e 1022
    then ok 0
    else if ltb 0 (d.bits / 2 ^ 63)
    then err undefined_access
    else if ltb e 1075
    then ok rounded
    else if ltb e 1087
    then ok (m * 2 ^ (e - 1075))
    else err undefined_access
