-- ===== src/Examples/Setup/Digits.antt =====
-- A motor id that is given in decimal digits.
use robstride_driver.Common.{
  ℕ, ◌+◌, ◌-◌, ◌*◌, ◌%◌, ◌^◌, ◌<◌, ◌≡◌, refl, arith, true, false, ◌==◌, ltb, List, [], ◌∷◌, map,
  All, some,
}
use robstride_driver.Common.Int.{pos}
use robstride_driver.Examples.Setup.{is_digit, is_space, read_digits, stoi, parse_args}

-- The number that decimal digits stand for, behind another, and its text.
abbrev pub value_from : ℕ → List ℕ → ℕ
value_from n [] = n
value_from n (x ∷ xs) = value_from (10 * n + x) xs

abbrev pub text_of : List ℕ → List ℕ
text_of = map (λ x. b'0' + x)

abbrev pub IsDigit : ℕ → Type 0
IsDigit x = x < 10

read_digits-text_of :
    (n : ℕ) (xs : List ℕ) → All IsDigit xs → read_digits n (text_of xs) ≡ value_from n xs
unfolding read_digits
read_digits-text_of n [] h = refl
read_digits-text_of n (x ∷ xs) (h, hs) =
    let digit : is_digit (b'0' + x) ≡ true = ground arith in
    let back : b'0' + x - b'0' ≡ x = omega arith in
    rw (digit, back) (read_digits-text_of (10 * n + x) xs hs)

stoi-text_of :
    (x : ℕ) (xs : List ℕ)
    → All IsDigit (x ∷ xs)
    → value_from 0 (x ∷ xs) < 2 ^ 31
    → stoi (text_of (x ∷ xs)) ≡ some (pos (value_from 0 (x ∷ xs)))
unfolding stoi read_digits
stoi-text_of x xs (h, hs) small =
    let digit : is_digit (b'0' + x) ≡ true = ground arith in
    let visible : is_space (b'0' + x) ≡ false = ground arith in
    let unsigned1 : (b'0' + x == b'-') ≡ false = ground arith in
    let unsigned2 : (b'0' + x == b'+') ≡ false = ground arith in
    let back : b'0' + x - b'0' ≡ x = omega arith in
    let fits : ltb (value_from (10 * 0 + x) xs) (2 ^ 31) ≡ true = ground arith in
    rw (visible, unsigned1, unsigned2, digit, back, read_digits-text_of (10 * 0 + x) xs hs, fits)
      refl

parse_args-stoi :
    (program interface_name out_path text : List ℕ) (more : List (List ℕ)) (n : ℕ)
    → stoi text ≡ some (pos n)
    → parse_args (program ∷ interface_name ∷ text ∷ out_path ∷ more)
      ≡ some (record { interface_name = interface_name; motor_id = n % 256; out_path = out_path })
unfolding parse_args
parse_args-stoi program interface_name out_path text more n e = rw (parse_args, e) refl

-- A motor id in decimal digits with a value below 2 ^ 31 is accepted, and the motor is the one
-- with that value modulo 256, also where the value is no id.
pub parse_args-text_of :
    (program interface_name out_path : List ℕ) (x : ℕ) (xs : List ℕ) (more : List (List ℕ))
    → All IsDigit (x ∷ xs)
    → value_from 0 (x ∷ xs) < 2 ^ 31
    → parse_args (program ∷ interface_name ∷ text_of (x ∷ xs) ∷ out_path ∷ more)
      ≡ some (record {
        interface_name = interface_name;
        motor_id = value_from 0 (x ∷ xs) % 256;
        out_path = out_path;
      })
parse_args-text_of program interface_name out_path x xs more h small =
    parse_args-stoi program interface_name out_path (text_of (x ∷ xs)) more (value_from 0 (x ∷ xs))
      (stoi-text_of x xs h small)
