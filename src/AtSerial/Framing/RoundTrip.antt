-- ===== src/AtSerial/Framing/RoundTrip.antt =====
-- Packing and unpacking the identifier, and a whole packet.
use robstride_driver.Common.{ℕ, ◌+◌, ◌*◌, ◌%◌, ◌^◌, ◌≡◌, arith, bit_and}
use robstride_driver.Common.Bits.{IsByte, u8, u32, shl, shr, bit_or-shl, bit_or-add, mask_29}
use robstride_driver.AtSerial.Framing.{packed_id, unpack}

pub packed_id-sum : (id : ℕ) → packed_id id ≡ id % 2 ^ 29 * 8 + 4
unfolding packed_id
packed_id-sum id =
    let fits : u32 (shl (id % 2 ^ 29) 3) ≡ shl (id % 2 ^ 29) 3 = omega arith in
    rw (mask_29 id, fits) (bit_or-shl 3 (id % 2 ^ 29) 4 (omega arith))

pub unpack-sum :
    (a b c e : ℕ)
    → IsByte a
    → IsByte b
    → IsByte c
    → IsByte e
    → unpack a b c e ≡ a * 2 ^ 24 + b * 2 ^ 16 + c * 2 ^ 8 + e
unfolding unpack
unpack-sum a b c e ha hb hc he =
    let h1 : u32 (shl a 24) ≡ a * 2 ^ 24 = omega arith in
    let h2 : u32 (shl b 16) ≡ b * 2 ^ 16 = omega arith in
    let h3 : u32 (shl c 8) ≡ c * 2 ^ 8 = omega arith in
    let ab = a * 2 ^ 24 + b * 2 ^ 16 in
    rw
      (
        h1,
        h2,
        h3,
        bit_or-add 24 (a * 2 ^ 24) (b * 2 ^ 16) (omega arith) (omega arith),
        bit_or-add 16 ab (c * 2 ^ 8) (omega arith) (omega arith),
      )
      (bit_or-add 8 (ab + c * 2 ^ 8) e (omega arith) (omega arith))

-- The identifier that comes out of the four bytes of a packed one is its low 29 bits.
pub unpack-packed_id :
    (id : ℕ)
    → let p = packed_id id in
      bit_and (shr (unpack (u8 (shr p 24)) (u8 (shr p 16)) (u8 (shr p 8)) (u8 p)) 3) 0x1FFFFFFF
      ≡ id % 2 ^ 29
unpack-packed_id id =
    let p = packed_id id in
    let sum = packed_id-sum id in
    rw
      (
        unpack-sum (u8 (shr p 24)) (u8 (shr p 16)) (u8 (shr p 8)) (u8 p) (omega arith) (omega arith)
            (omega arith) (omega arith),
        mask_29,
      )
      (omega (arith, sum))
