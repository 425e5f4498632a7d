-- ===== src/Base/Int.antt =====
-- Signed integers over the native numbers, under the library's names; `negsuc n` is -(n + 1).
use Prim.Native.Nat.{ℕ, ◌-◌, ◌%◌, ◌^◌, ◌<◌}
use mathlib.Core.Bool.{Bool, true, false}
use mathlib.Core.Logic.{◌↔◌}
use mathlib.Core.Path.{◌≡◌}
use native.Mathlib.Omega.{arith}
use monio.Base.Tests.{if◌then◌else◌, nat_beq, ltb}

pub data ℤ : Type 0 where
  pos : ℕ → ℤ
  negsuc : ℕ → ℤ

abbrev pub int_beq : ℤ → ℤ → Bool
int_beq (pos a) (pos b) = nat_beq a b
int_beq (negsuc a) (negsuc b) = nat_beq a b
int_beq _ _ = false

pub int_beq_iff : (a b : ℤ) → (int_beq a b ≡ true) ↔ (a ≡ b)
int_beq_iff (pos a) (pos b) = ground arith
int_beq_iff (negsuc a) (negsuc b) = ground arith
int_beq_iff (pos a) (negsuc b) = ground arith
int_beq_iff (negsuc a) (pos b) = ground arith

-- The conversion of a 64-bit size_t to a 32-bit int.
unfoldable pub to_int32 : ℕ → ℤ
to_int32 n = let r = n % 2 ^ 32 in if ltb r (2 ^ 31) then pos r else negsuc (2 ^ 32 - r - 1)

-- The conversion of an int to size_t.
unfoldable pub to_size : ℤ → ℕ
to_size (pos n) = n % 2 ^ 64
to_size (negsuc n) = 2 ^ 64 - (n % 2 ^ 64) - 1

-- A size below 2³¹ survives the way through an int.
pub to_size-to_int32 : (n : ℕ) → n < 2 ^ 31 → to_size (to_int32 n) ≡ n
unfolding to_size to_int32
to_size-to_int32 n h = ground arith

pub to_size-pos : (n : ℕ) → n < 2 ^ 31 → to_size (pos n) ≡ n
unfolding to_size
to_size-pos n h = omega arith

pub to_int32-eq : (n : ℕ) → n < 2 ^ 31 → to_int32 n ≡ pos n
unfolding to_int32
to_int32-eq n h = ground arith
