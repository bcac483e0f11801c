-- ===== src/Tests/Crowd.antt =====
-- An exchange on a bus where other frames come before the response, or none at all.
use robstride_driver.Common.{ℕ, ◌≡◌, refl, arith, [], ◌∷◌, ok, err, timeout, finished}
use robstride_driver.Double.Micro.{Micro, micro_double}
use robstride_driver.Protocol.Types.{CanFrame, CommType, zero8}
use robstride_driver.Protocol.Ids.{get_comm_type, get_source_motor_id, get_target_motor_id}
use robstride_driver.Stub
use robstride_driver.Stub.{dispatch}
use robstride_driver.Motor.Monad.{World}
use robstride_driver.Motor.Exchange.{transceive}
use robstride_driver.Motor.Simulated.{Bench, stub_can}
use robstride_driver.Motor.Simulated.Queues.{answered, sent, transceive-queue, transceive-silent}
use robstride_driver.Tests.Data.{driver}

abbrev frame_from : ℕ → CanFrame
frame_from id = record { id = id; payload = zero8; dlc = 8 }

-- Feedback of motor 2, a parameter of motor 1, feedback of motor 1, and a request that nobody answers.
abbrev foreign : CanFrame
foreign = frame_from 0x020002FD

abbrev own_param : CanFrame
own_param = frame_from 0x110001FD

abbrev own_feedback : CanFrame
own_feedback = frame_from 0x028001FD

abbrev request : CanFrame
request = frame_from 0x0000FD01

abbrev crowded : World Micro (Bench Micro)
crowded = record driver {
  bus = record (driver.bus) {
    stub = record (driver.bus.stub) {
      responses = foreign ∷ own_param ∷ own_feedback ∷ foreign ∷ [];
    };
  };
}

transceive-queue_example : transceive 5 request CommType.feedback crowded ≡ (
  finished (ok own_feedback),
  answered (foreign ∷ own_param ∷ []) own_feedback (foreign ∷ []) (sent request crowded),
)
unfolding get_comm_type get_source_motor_id get_target_motor_id Stub.send dispatch
transceive-queue_example =
    transceive-queue 5 request CommType.feedback crowded (foreign ∷ own_param ∷ []) own_feedback
      (foreign ∷ []) (omega arith) refl (λ k le. omega arith)
      ((λ e. absurd (omega arith)), ((λ e. λ t. omega arith), tt)) refl refl

transceive-silent_example :
    transceive 1 request CommType.feedback driver
    ≡ (finished (err timeout), record driver { bus = record (driver.bus) { tick = 3 } })
unfolding get_comm_type
transceive-silent_example = transceive-silent 0 request CommType.feedback driver refl refl
