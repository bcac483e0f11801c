-- ===== src/Protocol/Ids/Layout.antt =====
-- The identifier's layout: `make_id` packs three fields, and the getters read them back.
use robstride_driver.Common.{ℕ, ◌+◌, ◌*◌, ◌%◌, ◌^◌, ◌<◌, ◌≡◌, ◌∙◌, arith}
use robstride_driver.Common.Bits.{IsByte, IsU16, u32, shl, bit_or-shl, mask_1f, mask_ff}
use robstride_driver.Protocol.Types.{CommType, comm_type_value, CanFrame}
use robstride_driver.Protocol.Ids.{
  make_id, get_comm_type, get_source_motor_id, get_target_motor_id, get_host_id,
}

module _ (type : CommType) (area dest : ℕ) (small : comm_type_value type < 32) where
  pub make_id-sum :
      IsU16 area
      → IsByte dest
      → make_id type area dest ≡ comm_type_value type * 2 ^ 24 + area * 2 ^ 8 + dest
  unfolding make_id
  make_id-sum ha hd =
      let v = comm_type_value type in
      let outer : u32 (shl v 24) ≡ shl v 24 = omega arith in
      let inner : u32 (shl area 8) ≡ area * 2 ^ 8 = omega arith in
      let joined : v * 2 ^ 24 + area * 2 ^ 8 ≡ shl (v * 2 ^ 16 + area) 8 = omega arith in
      rw (outer, inner, bit_or-shl 24 v (area * 2 ^ 8) (omega arith), joined)
        (omega (arith, bit_or-shl 8 (v * 2 ^ 16 + area) dest hd))

-- What the getters read of an identifier whose parts are known.
module _ (f : CanFrame) (v area dest : ℕ) (e : f.id ≡ v * 2 ^ 24 + area * 2 ^ 8 + dest) where
  pub get_comm_type_fields : v < 32 → IsU16 area → IsByte dest → get_comm_type f ≡ v
  unfolding get_comm_type
  get_comm_type_fields hv ha hd = rw mask_1f (omega arith)

  pub get_source_motor_id_fields : IsByte dest → get_source_motor_id f ≡ area % 2 ^ 8
  unfolding get_source_motor_id
  get_source_motor_id_fields hd = rw mask_ff (omega arith)

  pub get_host_id_fields : IsByte dest → get_host_id f ≡ area % 2 ^ 8
  unfolding get_host_id
  get_host_id_fields hd = rw mask_ff (omega arith)

  pub get_target_motor_id_fields : IsByte dest → get_target_motor_id f ≡ dest
  unfolding get_target_motor_id
  get_target_motor_id_fields hd = rw mask_ff (omega arith)

-- The source of a frame from a motor and the host of a frame to a motor are the same bits.
pub get_host_id-eq-source : (f : CanFrame) → get_host_id f ≡ get_source_motor_id f
unfolding get_host_id get_source_motor_id
get_host_id-eq-source f = omega arith

-- The getters read back the fields of an identifier that `make_id` packed, for a type of five
-- bits, a 16-bit area and a byte as the destination; the sender and the host are the low byte of
-- the area.
pub make_id_fields :
    (type : CommType) (area dest : ℕ) (f : CanFrame)
    → comm_type_value type < 32
    → IsU16 area
    → IsByte dest
    → f.id ≡ make_id type area dest
    → (get_comm_type f ≡ comm_type_value type)
      × (get_source_motor_id f ≡ area % 2 ^ 8)
      × (get_host_id f ≡ area % 2 ^ 8)
      × (get_target_motor_id f ≡ dest)
make_id_fields type area dest f small ha hd e =
    let v = comm_type_value type in
    let sum = e ∙ make_id-sum type area dest small ha hd in
    (
      get_comm_type_fields f v area dest sum small ha hd,
      get_source_motor_id_fields f v area dest sum hd,
      get_host_id_fields f v area dest sum hd,
      get_target_motor_id_fields f v area dest sum hd,
    )
