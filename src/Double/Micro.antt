-- ===== src/Double/Micro.antt =====
-- A type of numbers on which the model runs: fixed-point decimals, counted in millionths. Sums,
-- differences and orders are exact; products and quotients are cut towards zero.
pub mod Ordered
use robstride_driver.Common.{
  ℕ, suc, ◌+◌, ◌-◌, ◌*◌, ◌/◌, ◌%◌, ◌^◌, ltb, ◌==◌, ◌&&◌, ◌||◌, if◌then◌else◌,
}
use robstride_driver.Common.Int.{
  ℤ, pos, negsuc, pos_part, neg_part, sub_ℕ, ◌+ℤ◌, ◌-ℤ◌, -ℤ◌, ltb_ℤ, magnitude, with_signs,
}
use robstride_driver.Double.{Double}

abbrev pub unit : ℕ
unit = 1_000_000

abbrev pub Micro : Type 0
Micro = ℤ

-- The nearest integer, and away from zero in the middle.
abbrev pub round : Micro → ℤ
round (pos n) = pos ((n + 500_000) / unit)
round (negsuc n) = sub_ℕ 0 ((n + 1 + 500_000) / unit)

-- The number nearest to `a / m`, and the even one in the middle.
abbrev nearest : ℕ → ℕ → ℕ
nearest a m =
    let q = a / m in
    let twice = 2 * (a % m) in if ltb m twice || (twice == m && q % 2 == 1) then q + 1 else q

abbrev pub micro_remainder : Micro → Micro → Micro
micro_remainder (pos n) b = sub_ℕ n (nearest n (magnitude b) * magnitude b)
micro_remainder (negsuc n) b = sub_ℕ (nearest (suc n) (magnitude b) * magnitude b) (suc n)

instance abbrev pub micro_double : Double Micro
micro_double = record {
  of_ℕ = λ n. pos (n * unit);
  decimal = λ n k. pos (n * unit / 10 ^ k);
  tenth = pos 100_000;
  pi = pos 3_141_593;
  add = ◌+ℤ◌;
  sub = ◌-ℤ◌;
  mul = λ a b. with_signs a b (magnitude a * magnitude b / unit);
  div = λ a b. with_signs a b (magnitude a * unit / magnitude b);
  neg = -ℤ◌;
  lt = ltb_ℤ;
  lround = round;
  remainder = micro_remainder;
  to_int = λ a. with_signs a (pos 0) (magnitude a / unit);
  narrow = λ a.
      pos_part a % 2 ^ 31
      + (if ltb (neg_part a) 1 then 0 else 2 ^ 32 - 1 - (neg_part a - 1) % 2 ^ 31);
  widen = λ w. if ltb w (2 ^ 31) then pos w else negsuc (2 ^ 32 - 1 - w);
  seconds = λ a b. pos ((b - a) / 1000);
}
