-- ===== src/Protocol/RoundTrip/Requests.antt =====
-- Parameter requests and responses: what one side writes, the other reads.
use robstride_driver.Common.{ℕ, ◌≡◌, arith, refl, some}
use robstride_driver.Common.Bits.{IsByte, IsU16}
use robstride_driver.Protocol.Types.{CommType, float_bytes}
use robstride_driver.Protocol.Ids.Layout.{make_id_fields}
use robstride_driver.Protocol.Encode.{
  make_read_param_frame, make_write_param_frame_float, make_write_param_frame_uint8,
  make_param_response_frame_float, make_param_response_frame_uint8,
}
use robstride_driver.Protocol.Decode.{
  parse_param_read_request, parse_param_write_request, parse_param_response,
}
use robstride_driver.Protocol.RoundTrip.Words.{index_of-split}

module _ (motor_id host_id index : ℕ) (hm : IsByte motor_id) (hh : IsByte host_id)
    (hi : IsU16 index) where
  -- A parameter-read request is read back from its frame, for ids that are bytes and a 16-bit
  -- index.
  pub parse_param_read_request-make :
      parse_param_read_request (make_read_param_frame motor_id host_id index)
      ≡ some (record { motor_id = motor_id; host_id = host_id; index = index })
  unfolding parse_param_read_request make_read_param_frame
  parse_param_read_request-make =
      let f = make_read_param_frame motor_id host_id index in
      ground (
        arith,
        make_id_fields CommType.read_param host_id motor_id f (omega arith) (omega arith) hm refl,
        index_of-split index f.payload hi refl refl,
      )

  -- A request to write a float parameter is read back from its frame, ids, index and the four
  -- bytes of the value, for ids that are bytes and a 16-bit index.
  pub parse_param_write_request-make_float :
      (value : ℕ)
      → parse_param_write_request (make_write_param_frame_float motor_id host_id index value)
        ≡ some (record {
          motor_id = motor_id;
          host_id = host_id;
          index = index;
          value = float_bytes value;
        })
  unfolding parse_param_write_request make_write_param_frame_float
  parse_param_write_request-make_float value =
      let f = make_write_param_frame_float motor_id host_id index value in
      ground (
        arith,
        make_id_fields CommType.write_param host_id motor_id f (omega arith) (omega arith) hm refl,
        index_of-split index f.payload hi refl refl,
      )

  -- A request to write a byte parameter is read back from its frame, with the byte in front of
  -- three zeros, for ids that are bytes and a 16-bit index.
  pub parse_param_write_request-make_uint8 :
      (value : ℕ)
      → parse_param_write_request (make_write_param_frame_uint8 motor_id host_id index value)
        ≡ some (record {
          motor_id = motor_id;
          host_id = host_id;
          index = index;
          value = record { b0 = value; b1 = 0; b2 = 0; b3 = 0 };
        })
  unfolding parse_param_write_request make_write_param_frame_uint8
  parse_param_write_request-make_uint8 value =
      let f = make_write_param_frame_uint8 motor_id host_id index value in
      ground (
        arith,
        make_id_fields CommType.write_param host_id motor_id f (omega arith) (omega arith) hm refl,
        index_of-split index f.payload hi refl refl,
      )

  -- A response with a float parameter is read back from its frame: the sender, the index and the
  -- four bytes of the value, for ids that are bytes and a 16-bit index.
  pub parse_param_response-make_float :
      (value : ℕ)
      → parse_param_response (make_param_response_frame_float motor_id host_id index value)
        ≡ some (record { motor_id = motor_id; index = index; value = float_bytes value })
  unfolding parse_param_response make_param_response_frame_float
  parse_param_response-make_float value =
      let f = make_param_response_frame_float motor_id host_id index value in
      ground (
        arith,
        make_id_fields CommType.read_param motor_id host_id f (omega arith) (omega arith) hh refl,
        index_of-split index f.payload hi refl refl,
      )

  -- A response with a byte parameter is read back from its frame, with the byte in front of three
  -- zeros, for ids that are bytes and a 16-bit index.
  pub parse_param_response-make_uint8 :
      (value : ℕ)
      → parse_param_response (make_param_response_frame_uint8 motor_id host_id index value)
        ≡ some (record {
          motor_id = motor_id;
          index = index;
          value = record { b0 = value; b1 = 0; b2 = 0; b3 = 0 };
        })
  unfolding parse_param_response make_param_response_frame_uint8
  parse_param_response-make_uint8 value =
      let f = make_param_response_frame_uint8 motor_id host_id index value in
      ground (
        arith,
        make_id_fields CommType.read_param motor_id host_id f (omega arith) (omega arith) hh refl,
        index_of-split index f.payload hi refl refl,
      )
