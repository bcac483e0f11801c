-- ===== src/Common/Bits.antt =====
-- Machine words as native numbers: the casts, the shifts, and `|` and `&` as arithmetic.
use Prim.Native.Nat.{
  ℕ, zero, suc, ◌+◌, ◌-◌, ◌*◌, ◌/◌, ◌%◌, ◌^◌, ◌≤◌, ◌<◌, min, max, bit_and, bit_or, digits,
  bit_and-bitwise, bit_or-bitwise,
}
use mathlib.Core.Path.{◌≡◌, refl, ap, ◌∙◌}
use native.Mathlib.Nat.{pow-suc, one-le-pow}
use native.Mathlib.Omega.{arith}

-- `static_cast` to `uint8_t`, `uint16_t` and `uint32_t`.
abbrev pub u8 : ℕ → ℕ
u8 x = x % 2 ^ 8

abbrev pub u16 : ℕ → ℕ
u16 x = x % 2 ^ 16

abbrev pub u32 : ℕ → ℕ
u32 x = x % 2 ^ 32

-- `x << k` before its result is cut to a word, and `x >> k`.
abbrev pub shl : ℕ → ℕ → ℕ
shl x k = x * 2 ^ k

abbrev pub shr : ℕ → ℕ → ℕ
shr x k = x / 2 ^ k

abbrev pub IsByte : ℕ → Type 0
IsByte b = b < 2 ^ 8

abbrev pub IsU16 : ℕ → Type 0
IsU16 w = w < 2 ^ 16

abbrev pub IsU32 : ℕ → Type 0
IsU32 w = w < 2 ^ 32

-- Any bitwise operation that takes digits to digits satisfies one equation for the lowest digit.
module _ (z : ℕ → ℕ) (f : ℕ → ℕ → ℕ) where
  enough : (n m a b : ℕ) → a ≤ n → a ≤ m → digits z f n a b ≡ digits z f m a b
  enough n m zero b p q = both n m
    where
      both : (n m : ℕ) → digits z f n zero b ≡ digits z f m zero b
      both zero zero = refl
      both zero (suc _) = refl
      both (suc _) zero = refl
      both (suc _) (suc _) = refl
  enough zero m (suc a) b p q = absurd (omega arith)
  enough (suc n) zero (suc a) b p q = absurd (omega arith)
  enough (suc n) (suc m) (suc a) b p q =
      rw (enough n m (suc a / 2) (b / 2) (omega arith) (omega arith))

or_digit : (a b : ℕ) → bit_or a b ≡ bit_or (a / 2) (b / 2) * 2 + max (a % 2) (b % 2)
or_digit zero b = omega (arith, bit_or-bitwise 0 b, bit_or-bitwise 0 (b / 2))
or_digit (suc a) b = omega (
  arith,
  bit_or-bitwise (suc a) b,
  bit_or-bitwise (suc a / 2) (b / 2),
  enough (λ y. y) max a (suc a / 2) (suc a / 2) (b / 2) (omega arith) (omega arith),
)

and_digit : (a b : ℕ) → bit_and a b ≡ bit_and (a / 2) (b / 2) * 2 + min (a % 2) (b % 2)
and_digit zero b = omega (arith, bit_and-bitwise 0 b, bit_and-bitwise 0 (b / 2))
and_digit (suc a) b = omega (
  arith,
  bit_and-bitwise (suc a) b,
  bit_and-bitwise (suc a / 2) (b / 2),
  enough (λ _. 0) min a (suc a / 2) (suc a / 2) (b / 2) (omega arith) (omega arith),
)

bit_or-zero_below : (n a : ℕ) → a ≤ n → bit_or a 0 ≡ a
bit_or-zero_below n zero h = refl
bit_or-zero_below zero (suc a) h = absurd (omega arith)
bit_or-zero_below (suc n) (suc a) h =
    omega (arith, or_digit (suc a) 0, bit_or-zero_below n (suc a / 2) (omega arith))

bit_and-zero_below : (n a : ℕ) → a ≤ n → bit_and a 0 ≡ 0
bit_and-zero_below n zero h = refl
bit_and-zero_below zero (suc a) h = absurd (omega arith)
bit_and-zero_below (suc n) (suc a) h =
    omega (arith, and_digit (suc a) 0, bit_and-zero_below n (suc a / 2) (omega arith))

double_shl : (q k : ℕ) → q * 2 ^ suc k ≡ 2 * (q * 2 ^ k)
double_shl q k = omega (arith, ap (λ (t : ℕ). q * t) (pow-suc 2 k))

-- `(q << k) | r` is a sum where `r` fits into `k` bits.
pub bit_or-shl : (k q r : ℕ) → r < 2 ^ k → bit_or (shl q k) r ≡ q * 2 ^ k + r
bit_or-shl zero q r h = ground (arith, bit_or-zero_below (q * 1) (q * 1))
bit_or-shl (suc k) q r h = ground (
  arith,
  or_digit (q * 2 ^ suc k) r,
  double_shl q k,
  pow-suc 2 k,
  bit_or-shl k q (r / 2) (omega (arith, pow-suc 2 k)),
)

-- The same for a left side whose low `k` bits are zero.
pub bit_or-add : (k x r : ℕ) → x ≡ x / 2 ^ k * 2 ^ k → r < 2 ^ k → bit_or x r ≡ x + r
bit_or-add k x r e h = ground (arith, bit_or-shl k (x / 2 ^ k) r h)

-- `r | (q << k)`, likewise.
pub bit_or-shl_right : (k q r : ℕ) → r < 2 ^ k → bit_or r (shl q k) ≡ q * 2 ^ k + r
bit_or-shl_right zero q zero h = bit_or-bitwise 0 (q * 1) ∙ omega arith
bit_or-shl_right zero q (suc r) h = absurd (omega arith)
bit_or-shl_right (suc k) q r h = ground (
  arith,
  or_digit r (q * 2 ^ suc k),
  double_shl q k,
  pow-suc 2 k,
  bit_or-shl_right k q (r / 2) (omega (arith, pow-suc 2 k)),
)

bit_and_low : (k q r : ℕ) → r < 2 ^ k → bit_and (q * 2 ^ k + r) (2 ^ k - 1) ≡ r
bit_and_low zero q r h = omega (arith, bit_and-zero_below (q * 1 + r) (q * 1 + r))
bit_and_low (suc k) q r h = ground (
  arith,
  and_digit (q * 2 ^ suc k + r) (2 ^ suc k - 1),
  double_shl q k,
  pow-suc 2 k,
  one-le-pow k 2,
  bit_and_low k q (r / 2) (omega (arith, pow-suc 2 k)),
)

-- A mask of `k` ones keeps the remainder by `2 ^ k`.
pub bit_and_mask : (k a : ℕ) → bit_and a (2 ^ k - 1) ≡ a % 2 ^ k
bit_and_mask k a = ground (arith, one-le-pow k 2, bit_and_low k (a / 2 ^ k) (a % 2 ^ k))

-- `&` goes part by part, if both sides are cut at the same digit.
pub bit_and-parts :
    (k q r p s : ℕ)
    → r < 2 ^ k
    → s < 2 ^ k
    → bit_and (q * 2 ^ k + r) (p * 2 ^ k + s) ≡ bit_and q p * 2 ^ k + bit_and r s
bit_and-parts zero q zero p zero h g =
    let left : q * 2 ^ 0 + 0 ≡ q = omega arith in
    let right : p * 2 ^ 0 + 0 ≡ p = omega arith in
    rw (left, right) (omega (arith, bit_and-bitwise 0 0))
bit_and-parts zero q (suc r) p s h g = absurd (omega arith)
bit_and-parts zero q zero p (suc s) h g = absurd (omega arith)
bit_and-parts (suc k) q r p s h g = ground (
  arith,
  and_digit (q * 2 ^ suc k + r) (p * 2 ^ suc k + s),
  and_digit r s,
  double_shl q k,
  double_shl p k,
  double_shl (bit_and q p) k,
  pow-suc 2 k,
  bit_and-parts k q (r / 2) p (s / 2) (omega (arith, pow-suc 2 k)) (omega (arith, pow-suc 2 k)),
)

pub bit_and_cut :
    (k a p s : ℕ)
    → s < 2 ^ k
    → bit_and a (p * 2 ^ k + s) ≡ bit_and (a / 2 ^ k) p * 2 ^ k + bit_and (a % 2 ^ k) s
bit_and_cut k a p s g =
    let whole : a ≡ a / 2 ^ k * 2 ^ k + a % 2 ^ k = ground (arith, one-le-pow k 2) in
    ap (λ x. bit_and x (p * 2 ^ k + s)) whole
    ∙ bit_and-parts k (a / 2 ^ k) (a % 2 ^ k) p s (ground (arith, one-le-pow k 2)) g

-- The masks that the code uses.
pub mask_03 : (a : ℕ) → bit_and a 0x03 ≡ a % 4
mask_03 = bit_and_mask 2

pub mask_1f : (a : ℕ) → bit_and a 0x1f ≡ a % 32
mask_1f = bit_and_mask 5

pub mask_3f : (a : ℕ) → bit_and a 0x3f ≡ a % 64
mask_3f = bit_and_mask 6

pub mask_ff : (a : ℕ) → bit_and a 0xff ≡ a % 256
mask_ff = bit_and_mask 8

pub mask_29 : (a : ℕ) → bit_and a 0x1fff_ffff ≡ a % 2 ^ 29
mask_29 = bit_and_mask 29

bit_and-zero : (a : ℕ) → bit_and a 0 ≡ 0
bit_and-zero a = bit_and-zero_below a a (omega arith)

-- The mask of the highest bit of a word.
pub mask_high : (a : ℕ) → IsU32 a → bit_and a 0x8000_0000 ≡ a / 2 ^ 31 * 2 ^ 31
mask_high a h =
    let cut : bit_and a 0x8000_0000 ≡ bit_and (a / 2 ^ 31) 1 * 2 ^ 31 + bit_and (a % 2 ^ 31) 0 =
      bit_and_cut 31 a 1 0 (omega arith) in
    let low : bit_and (a / 2 ^ 31) 1 ≡ a / 2 ^ 31 % 2 = bit_and_mask 1 (a / 2 ^ 31) in
    omega (arith, cut, low, bit_and-zero (a % 2 ^ 31))

mask_second : (a : ℕ) → bit_and a 0xff00 ≡ a / 2 ^ 8 % 2 ^ 8 * 2 ^ 8
mask_second a =
    let cut : bit_and a 0xff00 ≡ bit_and (a / 2 ^ 8) 0xff * 2 ^ 8 + bit_and (a % 2 ^ 8) 0 =
      bit_and_cut 8 a 0xff 0 (omega arith) in
    omega (arith, cut, mask_ff (a / 2 ^ 8), bit_and-zero (a % 2 ^ 8))

-- The mask of the highest bit and of the second byte.
pub mask_high_second :
    (a : ℕ) → IsU32 a → bit_and a 0x8000_ff00 ≡ a / 2 ^ 31 * 2 ^ 31 + a / 2 ^ 8 % 2 ^ 8 * 2 ^ 8
mask_high_second a h =
    let cut : bit_and a 0x8000_ff00
        ≡ bit_and (a / 2 ^ 31) 1 * 2 ^ 31 + bit_and (a % 2 ^ 31) 0xff00 =
      bit_and_cut 31 a 1 0xff00 (omega arith) in
    let low : bit_and (a / 2 ^ 31) 1 ≡ a / 2 ^ 31 % 2 = bit_and_mask 1 (a / 2 ^ 31) in
    omega (arith, cut, low, mask_second (a % 2 ^ 31))
