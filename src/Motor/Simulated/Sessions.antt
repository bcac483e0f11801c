-- ===== src/Motor/Simulated/Sessions.antt =====
-- Whole operations over the simulated bus: reading a parameter, changing the mode, setting zero.
use robstride_driver.Common.{
  ℕ, suc, ◌≡◌, ◌∙◌, refl, ap, arith, true, false, [], ◌∷◌, none, some, ok, finished, if◌then◌else◌,
  ◌==◌, Bool-cases, inl, inr,
}
use robstride_driver.Common.Bits.{IsByte, IsU16}
use robstride_driver.Double.{Double}
use robstride_driver.Protocol.Types.{
  CanFrame, CommType, RunMode, run_mode_value, run_mode_of, ParamResponse, float_bytes,
}
use robstride_driver.Protocol.Params
use robstride_driver.Protocol.Ids.{get_comm_type, get_target_motor_id, get_host_id}
use robstride_driver.Protocol.Ids.Layout.{make_id_fields}
use robstride_driver.Protocol.Encode.{make_read_param_frame}
use robstride_driver.Protocol.Decode.{parse_feedback, parse_param_response}
use robstride_driver.Protocol.RoundTrip.{
  parse_param_response-make_uint8, parse_param_response-make_float,
}
use robstride_driver.Protocol.Limits.{ActuatorLimits}
use robstride_driver.Stub.{Stub, MotorState}
use robstride_driver.Stub
use robstride_driver.Stub.Commands
use robstride_driver.Stub.Commands.{read_request}
use robstride_driver.Stub.Motors.{motor-set_motor_self}
use robstride_driver.Stub.Replies.{read_response-IsReply}
use robstride_driver.Motor.Monad.{World}
use robstride_driver.Motor.Exchange.{transceive_param, parse_param_response_or_throw}
use robstride_driver.Motor.Commands.{read_param_uint8, get_run_mode, set_run_mode}
use robstride_driver.Motor.Simulated.{Bench, stub_can, transceive-stub}
use robstride_driver.Motor.Simulated.Feedbacks.{
  IsReady, state_of, settled, settled-IsReady, state_of-settled, stopped, disable-settled,
  uint8_written, write_param_uint8-settled,
}

pub run_mode_value-of : (n : ℕ) → run_mode_value (run_mode_of n) ≡ n
run_mode_value-of n = ground arith

parsed_or_throw :
    (f : CanFrame) (r : ParamResponse)
    → parse_param_response f ≡ some r
    → parse_param_response_or_throw f ≡ ok r
unfolding parse_param_response_or_throw
parsed_or_throw f r e = rw (e, parse_param_response_or_throw)

parse_feedback_other :
    {D : Type 0} ⦃d : Double D⦄ (f : CanFrame) (limits : ActuatorLimits D)
    → get_comm_type f ≡ 0x11
    → parse_feedback f limits ≡ none
unfolding parse_feedback
parse_feedback_other f limits e = rw e

module _ {D : Type 0} ⦃d : Double D⦄ where
  -- The answer of the bus to a read of a parameter.
  abbrev pub parameter : ℕ → MotorState D → ℕ → ParamResponse
  parameter id s index = record {
    motor_id = id;
    index = index;
    value =
        if index == Params.run_mode
        then record { b0 = s.run_mode; b1 = 0; b2 = 0; b3 = 0 }
        else float_bytes (Stub.param_or_zero s.params index);
  }

  -- The world after a read: the bus has made the motor's entry, and nothing else changed.
  abbrev pub after_read : World D (Bench D) → World D (Bench D)
  after_read w = record w {
    bus = record (w.bus) {
      stub = record (Stub.set_motor w.motor.config.motor_id (state_of w) w.bus.stub) {
        responses = [];
      };
      tick = suc (suc (suc w.bus.tick));
    };
  }

  pub after_read-IsReady : (w : World D (Bench D)) → IsReady w → IsReady (after_read w)
  unfolding Stub.set_motor
  after_read-IsReady w h = record {
    idle = refl;
    on_time = h.on_time;
    motor_byte = h.motor_byte;
    host_byte = h.host_byte;
    scaled_alike = h.scaled_alike;
  }

  pub state_of-after_read : (w : World D (Bench D)) → state_of (after_read w) ≡ state_of w
  state_of-after_read w = motor-set_motor_self w.motor.config.motor_id (state_of w) w.bus.stub []

  parse_read_response :
      (id host index : ℕ) (f : CanFrame) (s : MotorState D)
      → IsByte id
      → IsByte host
      → IsU16 index
      → get_target_motor_id f ≡ id
      → get_host_id f ≡ host
      → parse_param_response (Stub.read_response f (read_request id host index) s)
        ≡ some (parameter id s index)
  unfolding Stub.read_response
  parse_read_response id host index f s hm hh hi to from =
      elim (Bool-cases (index == Params.run_mode)) [
        | inl e ↦
            rw (e, to, from) (parse_param_response-make_uint8 id host index hm hh hi s.run_mode)
        | inr e ↦
            rw (e, to, from)
              (parse_param_response-make_float id host index hm hh hi
                (Stub.param_or_zero s.params index))
      ]

  module _ (fuel : ℕ) (w : World D (Bench D)) (ready : IsReady w) (index : ℕ)
      (hi : IsU16 index) where
    -- Over a ready simulated bus, a parameter read returns what the motor's state holds: the run
    -- mode as a byte, and any other parameter as a float, which is 0 if it was never written. It
    -- changes neither the motor nor its state.
    pub transceive_param-stub :
        transceive_param
          (suc fuel)
          (make_read_param_frame w.motor.config.motor_id w.motor.config.host_id index)
          w
        ≡ (finished (ok (parameter w.motor.config.motor_id (state_of w) index)), after_read w)
    unfolding transceive_param
    transceive_param-stub =
        let id = w.motor.config.motor_id in
        let host = w.motor.config.host_id in
        let s = state_of w in
        let hm = ready.motor_byte in
        let hh = ready.host_byte in
        let f = make_read_param_frame id host index in
        let fields =
          make_id_fields CommType.read_param host id f (omega arith) (omega arith) hm
            (unfold make_read_param_frame in refl) in
        let from : get_host_id f ≡ host = omega (arith, fields.2) in
        let reply = Stub.read_response f (read_request id host index) s in
        let right = read_response-IsReply f (read_request id host index) s in
        let sent =
          Commands.send-make_read_param_frame id host (w.bus.clock w.bus.tick) hm hh w.bus.stub
            index hi in
        let stored : Stub.send (w.bus.clock w.bus.tick) f w.bus.stub
            ≡ record (Stub.set_motor id s w.bus.stub) { responses = reply ∷ [] } =
          sent ∙ unfold Stub.set_motor in rw (fields.3, ready.idle) in
        let exchanged =
          transceive-stub fuel f reply CommType.read_param w ready.on_time
            (ap (λ (x : Stub D). x.responses) stored) (right.from_target ∙ fields.3)
            right.type_matches in
        rw (
          exchanged,
          stored,
          parse_feedback_other reply w.motor.limits right.type_matches,
          parsed_or_throw reply (parameter id s index)
              (parse_read_response id host index f s hm hh hi fields.3 from),
        )

  -- What a change of the mode leaves.
  abbrev pub IsChanged : RunMode → World D (Bench D) → World D (Bench D) → Type 0
  IsChanged mode w w' =
      IsReady w'
      × ((state_of w').run_mode ≡ run_mode_value mode)
      × ((state_of w').enabled ≡ false)
      × (w'.motor.config ≡ w.motor.config)
      × (w'.motor.limits ≡ w.motor.limits)

  -- The three exchanges of `set_run_mode`: stop, write, read back.
  module _ (fuel : ℕ) (mode : RunMode) (w : World D (Bench D)) (ready : IsReady w) where
    abbrev stopped_world : World D (Bench D)
    stopped_world = settled (stopped fuel w ready false) w

    stopped_ready : IsReady stopped_world
    stopped_ready = settled-IsReady (stopped fuel w ready false) w ready

    abbrev new_state : MotorState D
    new_state =
        uint8_written fuel stopped_world stopped_ready Params.run_mode (omega arith)
          (run_mode_value mode)

    abbrev written_world : World D (Bench D)
    written_world = settled new_state stopped_world

    written_ready : IsReady written_world
    written_ready = settled-IsReady new_state stopped_world stopped_ready

    state_of_written : state_of written_world ≡ new_state
    state_of_written = state_of-settled new_state stopped_world

    new_state-mode : new_state.run_mode ≡ run_mode_value mode
    unfolding Stub.write_state
    new_state-mode = refl

    new_state-enabled : new_state.enabled ≡ false
    unfolding Stub.write_state Stub.advance
    new_state-enabled =
        ap (λ (s : MotorState D). s.enabled) (state_of-settled (stopped fuel w ready false) w)

    set_run_mode_runs :
        set_run_mode (suc fuel) mode w ≡ (finished (ok tt), after_read written_world)
    unfolding set_run_mode get_run_mode read_param_uint8
    set_run_mode_runs =
        let value = run_mode_value mode in
        let back : (run_mode_value (run_mode_of (state_of written_world).run_mode) == value)
            ≡ true =
          ground (
            arith,
            run_mode_value-of (state_of written_world).run_mode,
            ap (λ (s : MotorState D). s.run_mode) state_of_written ∙ new_state-mode,
          ) in
        rw (
          disable-settled fuel w ready false,
          write_param_uint8-settled fuel stopped_world stopped_ready Params.run_mode (omega arith)
              value,
          transceive_param-stub fuel written_world written_ready Params.run_mode (omega arith),
          back,
        )

  -- Over the simulated bus `set_run_mode` succeeds in every mode: it leaves the motor stopped and
  -- in that mode, and the bus ready for the next command. No exchange is late, nothing is queued
  -- before, the ids are bytes, and the driver and the bus have the same limits.
  pub set_run_mode-stub :
      (fuel : ℕ) (mode : RunMode) (w : World D (Bench D))
      → IsReady w
      → (w' : World D (Bench D)) × (set_run_mode (suc fuel) mode w ≡ (finished (ok tt), w'))
        × IsChanged mode w w'
  set_run_mode-stub fuel mode w ready =
      let last = written_world fuel mode w ready in
      let final = state_of-after_read last ∙ state_of_written fuel mode w ready in
      (
        after_read last,
        set_run_mode_runs fuel mode w ready,
        (
          after_read-IsReady last (written_ready fuel mode w ready),
          ap (λ (s : MotorState D). s.run_mode) final ∙ new_state-mode fuel mode w ready,
          ap (λ (s : MotorState D). s.enabled) final ∙ new_state-enabled fuel mode w ready,
          refl,
          refl,
        ),
      )
