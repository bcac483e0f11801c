-- ===== src/AtSerial/Framing.antt =====
-- `at_serial::encode_frame`, and what `FrameParser::poll` makes of a complete packet.
pub mod RoundTrip
use robstride_driver.Common.{ℕ, ◌+◌, List, [], ◌∷◌, ◌++◌, bit_and, bit_or, get_or, take, drop}
use robstride_driver.Common.Bits.{u8, u32, shl, shr}
use robstride_driver.Protocol.Types.{CanFrame, bytes8, copy8}

abbrev pub header_size : ℕ
header_size = 7

abbrev pub tail_size : ℕ
tail_size = 2

-- The identifier as the module sends it: bit 2 marks an extended data frame.
pub packed_id : ℕ → ℕ
packed_id id = bit_or (u32 (shl (bit_and id 0x1FFFFFFF) 3)) 0x4

unfoldable pub encode_frame : CanFrame → List ℕ
unfolding packed_id
encode_frame frame =
    let packed = packed_id frame.id in
    b'A'
    ∷ b'T'
    ∷ u8 (shr packed 24)
    ∷ u8 (shr packed 16)
    ∷ u8 (shr packed 8)
    ∷ u8 packed
    ∷ frame.dlc
    ∷ (take frame.dlc (bytes8 frame.payload) ++ b'\r' ∷ b'\n' ∷ [])

-- Four bytes, the highest first, as one word.
pub unpack : ℕ → ℕ → ℕ → ℕ → ℕ
unpack b2 b3 b4 b5 =
    bit_or (bit_or (bit_or (u32 (shl b2 24)) (u32 (shl b3 16))) (u32 (shl b4 8))) b5

-- The frame that `poll` builds from the packet at the front of its buffer.
unfoldable pub decode_packet : List ℕ → CanFrame
unfolding unpack
decode_packet buffer =
    let packed =
      unpack (get_or buffer 2 0) (get_or buffer 3 0) (get_or buffer 4 0) (get_or buffer 5 0) in
    let dlc = get_or buffer 6 0 in
    record {
      id = bit_and (shr packed 3) 0x1FFFFFFF;
      payload = copy8 (take dlc (drop header_size buffer));
      dlc = dlc;
    }
