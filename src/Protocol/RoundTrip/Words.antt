-- ===== src/Protocol/RoundTrip/Words.antt =====
-- Words that are split into bytes and put together again.
use robstride_driver.Common.{ℕ, ◌%◌, ◌≡◌, arith, bit_and}
use robstride_driver.Common.Bits.{IsU16, IsU32, u8, shr, bit_or-shl, bit_or-shl_right, mask_ff}
use robstride_driver.Common.Int.{ℤ, pos, negsuc, u16_of_ℤ}
use robstride_driver.Protocol.Types.{Data8, as_float, float_bytes}
use robstride_driver.Protocol.Decode.{word_of, index_of}

pub word_of-split : (w : ℕ) → IsU16 w → word_of (u8 (shr w 8)) (u8 (bit_and w 0xFF)) ≡ w
word_of-split w h =
    rw (mask_ff w, bit_or-shl 8 (u8 (shr w 8)) (u8 (w % 256)) (omega arith)) (omega arith)

pub u16_of_ℤ-IsU16 : (n : ℤ) → IsU16 (u16_of_ℤ n)
u16_of_ℤ-IsU16 (pos n) = omega arith
u16_of_ℤ-IsU16 (negsuc n) = omega arith

pub as_float-float_bytes : (w : ℕ) → IsU32 w → as_float (float_bytes w) ≡ w
as_float-float_bytes w h = omega arith

pub index_of-split :
    (index : ℕ) (payload : Data8)
    → IsU16 index
    → payload.b0 ≡ u8 (bit_and index 0xFF)
    → payload.b1 ≡ u8 (shr index 8)
    → index_of payload ≡ index
index_of-split index payload h e0 e1 =
    rw
      (
        e0,
        e1,
        mask_ff index,
        bit_or-shl_right 8 (u8 (shr index 8)) (u8 (index % 256)) (omega arith),
      )
      (omega arith)
