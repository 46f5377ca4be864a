-- ===== src/Base/Int.antt =====
-- Signed integers over the native numbers, and the `i128` operations of the contracts on them.
-- Sums and orders go through the two parts of an integer, which are numbers that `omega` reads.
use Prim.Native.Nat.{ℕ, suc, ◌+◌, ◌-◌, ◌*◌, ◌/◌, ◌^◌, ◌≤◌}
use mathlib.Core.Path.{◌≡◌, ap}
use mathlib.Core.Bool.{Bool, ◌&&◌}
use mathlib.Core.Option.{Option, none, some}
use mathlib.Core.Logic.{◌⊎◌}
use native.Mathlib.Omega.{arith}
use grainlify_stellar_contra.Base.Tests.{ltb, leb, ◌==◌, if◌then◌else◌}

-- `negsuc n` is -(n + 1).
pub data ℤ : Type 0 where
  pos : ℕ → ℤ
  negsuc : ℕ → ℤ

abbrev pub pos_part : ℤ → ℕ
pos_part (pos n) = n
pos_part (negsuc n) = 0

abbrev pub neg_part : ℤ → ℕ
neg_part (pos n) = 0
neg_part (negsuc n) = suc n

-- a - b, as an integer.
abbrev pub sub_ℕ : ℕ → ℕ → ℤ
sub_ℕ a b = if leb b a then pos (a - b) else negsuc (b - a - 1)

infixl 65 ◌+ℤ◌ ◌-ℤ◌
infixl 70 ◌*ℤ◌
infix 50 ◌≤ℤ◌ ◌<ℤ◌ ◌==ℤ◌
unfoldable pub ◌+ℤ◌ : ℤ → ℤ → ℤ
a +ℤ b = sub_ℕ (pos_part a + pos_part b) (neg_part a + neg_part b)

unfoldable pub ◌-ℤ◌ : ℤ → ℤ → ℤ
a -ℤ b = sub_ℕ (pos_part a + neg_part b) (neg_part a + pos_part b)

unfoldable pub ◌*ℤ◌ : ℤ → ℤ → ℤ
a *ℤ b =
    sub_ℕ (pos_part a * pos_part b + neg_part a * neg_part b)
      (pos_part a * neg_part b + neg_part a * pos_part b)

abbrev pub ◌≤ℤ◌ : ℤ → ℤ → Type 0
a ≤ℤ b = pos_part a + neg_part b ≤ pos_part b + neg_part a

abbrev pub ◌<ℤ◌ : ℤ → ℤ → Type 0
a <ℤ b = suc (pos_part a + neg_part b) ≤ pos_part b + neg_part a

abbrev pub ltb_ℤ : ℤ → ℤ → Bool
ltb_ℤ a b = ltb (pos_part a + neg_part b) (pos_part b + neg_part a)

abbrev pub leb_ℤ : ℤ → ℤ → Bool
leb_ℤ a b = leb (pos_part a + neg_part b) (pos_part b + neg_part a)

abbrev pub ◌==ℤ◌ : ℤ → ℤ → Bool
a ==ℤ b = (pos_part a + neg_part b) == (pos_part b + neg_part a)

-- One lemma for each operation lets `omega` work with the operations shut, at any depth.
pub +ℤ_parts :
    (a b : ℤ)
    → pos_part (a +ℤ b) + neg_part a + neg_part b ≡ neg_part (a +ℤ b) + pos_part a + pos_part b
unfolding ◌+ℤ◌
+ℤ_parts a b = ground arith

pub -ℤ_parts :
    (a b : ℤ)
    → pos_part (a -ℤ b) + neg_part a + pos_part b ≡ neg_part (a -ℤ b) + pos_part a + neg_part b
unfolding ◌-ℤ◌
-ℤ_parts a b = ground arith

pub eq_of_parts : (a b : ℤ) → pos_part a + neg_part b ≡ pos_part b + neg_part a → a ≡ b
eq_of_parts a b h = ground arith

pub ruleset int_laws = (arith, +ℤ_parts, -ℤ_parts, eq_of_parts)

-- The range of `i128`.
abbrev pub i128_max : ℤ
i128_max = pos (2 ^ 127 - 1)

abbrev pub i128_min : ℤ
i128_min = negsuc (2 ^ 127 - 1)

abbrev pub in_i128 : ℤ → Bool
in_i128 a = leb_ℤ i128_min a && leb_ℤ a i128_max

abbrev pub clamp_i128 : ℤ → ℤ
clamp_i128 a = if ltb_ℤ a i128_min then i128_min else if ltb_ℤ i128_max a then i128_max else a

-- `i128::checked_add`, `checked_sub` (also the plain `a - b`, which traps), `checked_mul`, `saturating_add` and `saturating_sub`
unfoldable pub checked_add : ℤ → ℤ → Option ℤ
checked_add a b = if in_i128 (a +ℤ b) then some (a +ℤ b) else none

unfoldable pub checked_sub : ℤ → ℤ → Option ℤ
checked_sub a b = if in_i128 (a -ℤ b) then some (a -ℤ b) else none

unfoldable pub checked_mul : ℤ → ℤ → Option ℤ
checked_mul a b = if in_i128 (a *ℤ b) then some (a *ℤ b) else none

unfoldable pub saturating_add : ℤ → ℤ → ℤ
saturating_add a b = clamp_i128 (a +ℤ b)

unfoldable pub saturating_sub : ℤ → ℤ → ℤ
saturating_sub a b = clamp_i128 (a -ℤ b)

-- The `i128` division `a / b`, which rounds towards zero.
unfoldable pub quot : ℤ → ℤ → ℤ
quot (pos a) (pos b) = pos (a / b)
quot (pos a) (negsuc b) = sub_ℕ 0 (a / suc b)
quot (negsuc a) (pos b) = sub_ℕ 0 (suc a / b)
quot (negsuc a) (negsuc b) = pos (suc a / suc b)

-- Sums of `u32` and `u64`.
abbrev pub checked_add_u32 : ℕ → ℕ → Option ℕ
checked_add_u32 a b = if ltb (a + b) (2 ^ 32) then some (a + b) else none

abbrev pub checked_add_u64 : ℕ → ℕ → Option ℕ
checked_add_u64 a b = if ltb (a + b) (2 ^ 64) then some (a + b) else none

abbrev pub saturating_add_u64 : ℕ → ℕ → ℕ
saturating_add_u64 a b = if ltb (2 ^ 64 - 1) (a + b) then 2 ^ 64 - 1 else a + b

pub checked_add-eq_some : (a b : ℤ) {c : ℤ} → checked_add a b ≡ some c → c ≡ a +ℤ b
unfolding checked_add
checked_add-eq_some a b h = ground arith

-- The difference, or a trap.
pub checked_sub_cases : (a b : ℤ) → (checked_sub a b ≡ some (a -ℤ b)) ⊎ (checked_sub a b ≡ none)
unfolding checked_sub
checked_sub_cases a b = ground arith

-- A payment that is taken off what is owed leaves the difference of the two alone.
pub exact_payment : (t s r p : ℤ) → t +ℤ (r -ℤ p) +ℤ p ≡ s +ℤ r → t ≡ s
exact_payment t s r p h = omega (int_laws, ap pos_part h, ap neg_part h)

-- A deposit of what is newly owed does too.
pub exact_deposit : (t s a : ℤ) → t +ℤ a ≡ s +ℤ a → t ≡ s
exact_deposit t s a h = omega (int_laws, ap pos_part h, ap neg_part h)

-- One payment of `a` against `r` that is owed, before others that take `o` too much.
pub excess_step :
    (u t s o a r : ℤ) → u +ℤ o ≡ t → t +ℤ pos 0 +ℤ a ≡ s +ℤ r → u +ℤ (o +ℤ (a -ℤ r)) ≡ s
excess_step u t s o a r h k =
    omega (int_laws, ap pos_part h, ap neg_part h, ap pos_part k, ap neg_part k)

-- A payment of all that is owed.
pub exact_refund : (t s r : ℤ) → t +ℤ pos 0 +ℤ r ≡ s +ℤ r → t ≡ s
exact_refund t s r h = omega (int_laws, ap pos_part h, ap neg_part h)
