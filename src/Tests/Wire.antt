-- ===== src/Tests/Wire.antt =====
-- Frames that are written and read back.
use robstride_driver.Common.{◌≡◌, ◌^◌, ◌≤◌, ◌-◌, ◌*◌, refl, arith, some}
use robstride_driver.Double.Micro.{micro_double}
use robstride_driver.Double.Micro.Ordered.{micro_IsOrdered, micro_finite}
use robstride_driver.Protocol.Scaling.Steps.{IsRange}
use robstride_driver.Protocol.Scaling.Order.{float_to_uint-AtMost}
use robstride_driver.Common.Int.{pos, negsuc, ◌-ℤ◌}
use robstride_driver.Protocol.Types.{float_bytes}
use robstride_driver.Protocol.Scaling.{float_to_uint}
use robstride_driver.Protocol.Encode.{make_write_param_frame_float, make_feedback_frame}
use robstride_driver.Protocol.Decode.{parse_param_write_request, parse_feedback}
use robstride_driver.Protocol.RoundTrip.{parse_param_write_request-make_float}
use robstride_driver.Protocol.RoundTrip.Feedback.{transmitted, parse_feedback-make_feedback_frame}
use robstride_driver.Tests.Data.{rs00_limits, sample_feedback}

float_to_uint_ends : float_to_uint (pos 99_000_000) (negsuc 49_999_999) (pos 50_000_000) 16 ≡ 65535
unfolding float_to_uint ◌-ℤ◌
float_to_uint_ends = refl

parse_feedback-make_feedback_frame_example :
    parse_feedback (make_feedback_frame sample_feedback rs00_limits) rs00_limits
    ≡ some (transmitted sample_feedback rs00_limits)
parse_feedback-make_feedback_frame_example =
    parse_feedback-make_feedback_frame sample_feedback rs00_limits (omega arith) (omega arith)

-- The pattern of 2.5F.
parse_param_write_request-make_float_example :
    parse_param_write_request (make_write_param_frame_float 1 0xFD 0x700A 0x40200000)
    ≡ some (record { motor_id = 1; host_id = 0xFD; index = 0x700A; value = float_bytes 0x40200000 })
parse_param_write_request-make_float_example =
    parse_param_write_request-make_float 1 0xFD 0x700A (omega arith) (omega arith) (omega arith)
      0x40200000

-- The range of a position: from -4π to 4π.
position-IsRange : IsRange micro_IsOrdered (negsuc 12_566_371) (pos 12_566_372) (2 ^ 16 - 1)
unfolding ◌-ℤ◌
position-IsRange = record {
  min_finite = micro_finite (negsuc 12_566_371);
  max_finite = micro_finite (pos 12_566_372);
  wide = refl;
  span_finite = micro_finite (pos 25_132_744);
  top_finite = micro_finite (pos (25_132_744 * 65535));
  top_code = omega arith;
}

-- Half a radian, and a position past the range.
float_to_uint-AtMost_example :
    (float_to_uint (pos 500_000) (negsuc 12_566_371) (pos 12_566_372) 16
      ≤ float_to_uint (pos 13_000_000) (negsuc 12_566_371) (pos 12_566_372) 16)
    × (float_to_uint (pos 13_000_000) (negsuc 12_566_371) (pos 12_566_372) 16 ≤ 2 ^ 16 - 1)
    × (float_to_uint (negsuc 12_566_371) (negsuc 12_566_371) (pos 12_566_372) 16 ≡ 0)
    × (float_to_uint (pos 12_566_372) (negsuc 12_566_371) (pos 12_566_372) 16 ≡ 2 ^ 16 - 1)
float_to_uint-AtMost_example =
    float_to_uint-AtMost micro_IsOrdered (negsuc 12_566_371) (pos 12_566_372) 16 position-IsRange
      (pos 500_000) (pos 13_000_000) (micro_finite (pos 500_000)) (micro_finite (pos 13_000_000))
      refl
