-- ===== src/Common/Int.antt =====
-- Signed integers over the native numbers, under the library's names, and the casts of a `long`.
use robstride_driver.Common.{
  ℕ, suc, ◌+◌, ◌-◌, ◌*◌, ◌%◌, ◌^◌, ◌≤◌, ◌<◌, ◌≡◌, Bool, arith, refl, ltb, leb, if◌then◌else◌,
}

-- `negsuc n` is -(n + 1).
pub data ℤ : Type 0 where
  pos : ℕ → ℤ
  negsuc : ℕ → ℤ

-- `static_cast<std::uint16_t>` of a signed number: its remainder by 2 ^ 16.
abbrev pub u16_of_ℤ : ℤ → ℕ
u16_of_ℤ (pos n) = n % 2 ^ 16
u16_of_ℤ (negsuc n) = 2 ^ 16 - 1 - n % 2 ^ 16

abbrev pub pos_part : ℤ → ℕ
pos_part (pos n) = n
pos_part (negsuc n) = 0

abbrev pub neg_part : ℤ → ℕ
neg_part (pos n) = 0
neg_part (negsuc n) = suc n

abbrev pub sub_ℕ : ℕ → ℕ → ℤ
sub_ℕ a b = if leb b a then pos (a - b) else negsuc (b - a - 1)

infixl 65 ◌+ℤ◌ ◌-ℤ◌
infix 50 ◌≤ℤ◌
unfoldable pub ◌+ℤ◌ : ℤ → ℤ → ℤ
a +ℤ b = sub_ℕ (pos_part a + pos_part b) (neg_part a + neg_part b)

unfoldable pub ◌-ℤ◌ : ℤ → ℤ → ℤ
a -ℤ b = sub_ℕ (pos_part a + neg_part b) (neg_part a + pos_part b)

abbrev pub -ℤ◌ : ℤ → ℤ
-ℤ◌ a = sub_ℕ (neg_part a) (pos_part a)

abbrev pub ◌≤ℤ◌ : ℤ → ℤ → Type 0
a ≤ℤ b = pos_part a + neg_part b ≤ pos_part b + neg_part a

abbrev pub ltb_ℤ : ℤ → ℤ → Bool
ltb_ℤ a b = ltb (pos_part a + neg_part b) (pos_part b + neg_part a)

abbrev pub magnitude : ℤ → ℕ
magnitude a = pos_part a + neg_part a

-- `n` with the sign of the product of two numbers.
abbrev pub with_signs : ℤ → ℤ → ℕ → ℤ
with_signs (pos _) (pos _) n = pos n
with_signs (pos _) (negsuc _) n = sub_ℕ 0 n
with_signs (negsuc _) (pos _) n = sub_ℕ 0 n
with_signs (negsuc _) (negsuc _) n = pos n

pub +ℤ_parts :
    (a b : ℤ)
    → pos_part (a +ℤ b) + neg_part a + neg_part b ≡ neg_part (a +ℤ b) + pos_part a + pos_part b
unfolding ◌+ℤ◌
+ℤ_parts a b = ground arith

pub -ℤ_parts :
    (a b : ℤ)
    → pos_part (a -ℤ b) + neg_part a + pos_part b ≡ neg_part (a -ℤ b) + pos_part a + neg_part b
unfolding ◌-ℤ◌
-ℤ_parts a b = ground arith

pub eq_of_parts : (a b : ℤ) → pos_part a + neg_part b ≡ pos_part b + neg_part a → a ≡ b
eq_of_parts a b h = ground arith

-- A number from zero up to a natural number is a natural number.
pub ℕ-between : (q : ℤ) (n : ℕ) → pos 0 ≤ℤ q → q ≤ℤ pos n → (c : ℕ) × (q ≡ pos c) × (c ≤ n)
ℕ-between (pos c) n low high = (c, refl, omega arith)
ℕ-between (negsuc c) n low high = ground arith

pub ruleset int_laws = (arith, +ℤ_parts, -ℤ_parts, eq_of_parts)
