-- ===== src/Motor/Simulated/Queues.antt =====
-- An exchange over a bus on which other frames stand before the response, and over a silent bus.
use robstride_driver.Common.{
  ℕ, zero, suc, ◌+◌, ◌*◌, ◌<◌, ◌≤◌, ◌≡◌, ◌≢◌, ◌∙◌, refl, sym, ap, arith, true, false, List, [], ◌∷◌,
  ◌++◌, length, All, Option, none, some, ok, err, timeout, finished, leb, if◌then◌else◌, ◌==◌,
  Bool-cases, inl, inr,
}
use robstride_driver.Double.{Double}
use robstride_driver.Protocol.Types.{CanFrame, CommType, comm_type_value, comm_type_of, Feedback}
use robstride_driver.Protocol.Ids.{get_comm_type, get_source_motor_id}
use robstride_driver.Protocol.Decode.{parse_feedback, has_type}
use robstride_driver.Stub.{Stub}
use robstride_driver.Stub
use robstride_driver.Stub.Replies.{reply_type, send-Replies}
use robstride_driver.Motor.Monad.{Config, Motor, World, M}
use robstride_driver.Motor.Exchange.{
  cache, judge, got, transceive_round, transceive_loop, transceive,
}
use robstride_driver.Motor.Simulated.{
  Bench, stub_can, after_response, remembered, remember-remembered,
}

-- A frame that is no response: of another motor, or of another type.
abbrev pub IsPassed : ℕ → CommType → CanFrame → Type 0
IsPassed id expected f = get_source_motor_id f ≡ id → get_comm_type f ≢ comm_type_value expected

module _ {D : Type 0} ⦃d : Double D⦄ where
  -- What the driver keeps of such frames: the feedback of its own motor.
  abbrev pub overheard : CanFrame → Motor D → Motor D
  overheard f m = if get_source_motor_id f == m.config.motor_id then after_response f m else m

  abbrev pub overheard_all : List CanFrame → Motor D → Motor D
  overheard_all [] m = m
  overheard_all (f ∷ fs) m = overheard_all fs (overheard f m)

  module _ (expected : CommType) (again : M D (Bench D) CanFrame) (f : CanFrame)
      (w : World D (Bench D)) where
    judge_passed :
        IsPassed w.motor.config.motor_id expected f
        → judge expected again f w ≡ again (record w { motor = overheard f w.motor })
    unfolding judge cache
    judge_passed h = elim (Bool-cases (get_source_motor_id f == w.motor.config.motor_id)) [
      | inl ours ↦
          let other : has_type f expected ≡ false = ground (arith, h) in
          rw (ours, remember-remembered (parse_feedback f w.motor.limits) w, other)
      | inr foreign ↦ rw foreign
    ]

    judge_taken :
        get_source_motor_id f ≡ w.motor.config.motor_id
        → get_comm_type f ≡ comm_type_value expected
        → judge expected again f w
          ≡ (finished (ok f), record w { motor = after_response f w.motor })
    unfolding judge cache
    judge_taken source typed =
        let ours : (get_source_motor_id f == w.motor.config.motor_id) ≡ true = ground arith in
        let right : has_type f expected ≡ true = ground arith in
        rw (ours, remember-remembered (parse_feedback f w.motor.limits) w, right)

  -- The world when the clock was read and the front of the queue was taken.
  abbrev popped : List CanFrame → World D (Bench D) → World D (Bench D)
  popped later w = record w {
    bus = record (w.bus) {
      stub = record (w.bus.stub) { responses = later };
      tick = suc w.bus.tick;
    };
  }

  receive_front :
      (s : Stub D) (f : CanFrame) (later : List CanFrame)
      → s.responses ≡ f ∷ later
      → Stub.receive s ≡ (some f, record s { responses = later })
  unfolding Stub.receive
  receive_front s f later e = rw e

  transceive_loop_front :
      (fuel deadline : ℕ) (expected : CommType) (f : CanFrame) (later : List CanFrame)
      (w : World D (Bench D))
      → w.bus.stub.responses ≡ f ∷ later
      → w.bus.clock w.bus.tick < deadline
      → transceive_loop (suc fuel) deadline expected w
        ≡ judge expected (transceive_loop fuel deadline expected) f (popped later w)
  unfolding transceive_loop transceive_round got
  transceive_loop_front fuel deadline expected f later w e h =
      let early : leb deadline (w.bus.clock w.bus.tick) ≡ false = ground arith in
      rw (early, receive_front w.bus.stub f later e)

  -- The world when the frames before the response, and the response, are taken.
  abbrev pub answered :
      List CanFrame → CanFrame → List CanFrame → World D (Bench D) → World D (Bench D)
  answered fs reply later w = record w {
    motor = after_response reply (overheard_all fs w.motor);
    bus = record (w.bus) {
      stub = record (w.bus.stub) { responses = later };
      tick = suc (length fs + w.bus.tick);
    };
  }

  remembered-config : (o : Option (Feedback D)) (m : Motor D) → (remembered o m).config ≡ m.config
  remembered-config none m = refl
  remembered-config (some fb) m = refl

  overheard-config : (f : CanFrame) (m : Motor D) → (overheard f m).config ≡ m.config
  overheard-config f m = elim (Bool-cases (get_source_motor_id f == m.config.motor_id)) [
    | inl ours ↦ rw ours (remembered-config (parse_feedback f m.limits) m)
    | inr foreign ↦ rw foreign
  ]

  module _ (deadline id : ℕ) (expected : CommType) (reply : CanFrame) (later : List CanFrame)
      (source : get_source_motor_id reply ≡ id)
      (typed : get_comm_type reply ≡ comm_type_value expected) where
    pub transceive_loop_queue :
        (fuel : ℕ) (fs : List CanFrame) (w : World D (Bench D))
        → length fs < fuel
        → w.motor.config.motor_id ≡ id
        → w.bus.stub.responses ≡ fs ++ reply ∷ later
        → ((k : ℕ) → k ≤ length fs → w.bus.clock (k + w.bus.tick) < deadline)
        → All (IsPassed id expected) fs
        → transceive_loop fuel deadline expected w
          ≡ (finished (ok reply), answered fs reply later w)
    transceive_loop_queue zero fs w enough mine e h passed = absurd (omega arith)
    transceive_loop_queue (suc fuel) [] w enough mine e h passed =
        let z : 0 + w.bus.tick ≡ w.bus.tick = omega arith in
        transceive_loop_front fuel deadline expected reply later w e (rw z at (h 0 (omega arith)))
        ∙ judge_taken expected (transceive_loop fuel deadline expected) reply (popped later w)
            (source ∙ sym mine) typed
        ∙ rw z
    transceive_loop_queue (suc fuel) (f ∷ fs) w enough mine e h (p, ps) =
        let rest = fs ++ reply ∷ later in
        let w' = record (popped rest w) { motor = overheard f w.motor } in
        let ticks : length fs + suc w.bus.tick ≡ length (f ∷ fs) + w.bus.tick = omega arith in
        let passes =
          judge_passed expected (transceive_loop fuel deadline expected) f (popped rest w)
            (rw mine p) in
        let on_time : (k : ℕ) → k ≤ length fs → w.bus.clock (k + suc w.bus.tick) < deadline =
          λ k le.
            let next : k + suc w.bus.tick ≡ suc k + w.bus.tick = omega arith in
            rw next (h (suc k) (omega arith)) in
        let z : 0 + w.bus.tick ≡ w.bus.tick = omega arith in
        transceive_loop_front fuel deadline expected f rest w e (rw z at (h 0 (omega arith)))
        ∙ passes
        ∙ transceive_loop_queue fuel fs w' (omega arith)
            (ap (λ (c : Config). c.motor_id) (overheard-config f w.motor) ∙ mine) refl on_time ps
        ∙ rw ticks

  -- The world when the frame is sent and the deadline is known.
  abbrev pub sent : CanFrame → World D (Bench D) → World D (Bench D)
  sent frame w = record w {
    bus = record (w.bus) {
      stub = Stub.send (w.bus.clock w.bus.tick) frame w.bus.stub;
      tick = suc (suc w.bus.tick);
    };
  }

  -- Over the simulated bus, an exchange returns the first frame in the queue that comes from the
  -- configured motor and has the expected type. The frames before it are dropped, with the
  -- feedback of this motor among them and in the response cached in order, and the frames behind
  -- it stay. No reading of the clock up to then reaches the deadline, and the loop may take more
  -- rounds than there are frames before it.
  pub transceive-queue :
      (fuel : ℕ) (frame : CanFrame) (expected : CommType) (w : World D (Bench D))
      (fs : List CanFrame) (reply : CanFrame) (later : List CanFrame)
      → length fs < fuel
      → (Stub.send (w.bus.clock w.bus.tick) frame w.bus.stub).responses ≡ fs ++ reply ∷ later
      → ((k : ℕ)
          → k ≤ length fs
          → w.bus.clock (k + suc (suc w.bus.tick))
            < w.bus.clock (suc w.bus.tick) + w.motor.config.response_timeout * 1000000)
      → All (IsPassed w.motor.config.motor_id expected) fs
      → get_source_motor_id reply ≡ w.motor.config.motor_id
      → get_comm_type reply ≡ comm_type_value expected
      → transceive fuel frame expected w
        ≡ (finished (ok reply), answered fs reply later (sent frame w))
  unfolding transceive
  transceive-queue fuel frame expected w fs reply later enough e h passed source typed =
      transceive_loop_queue _ w.motor.config.motor_id expected reply later source typed fuel fs
        (sent frame w) enough refl e h passed

  -- Over a simulated bus with an empty queue, a frame of a type that motors do not answer ends in
  -- a timeout, and neither the simulated motors nor the driver's state change.
  pub transceive-silent :
      (fuel : ℕ) (frame : CanFrame) (expected : CommType) (w : World D (Bench D))
      → reply_type (comm_type_of (get_comm_type frame)) ≡ none
      → w.bus.stub.responses ≡ []
      → transceive (suc fuel) frame expected w ≡ (
        finished (err timeout),
        record w { bus = record (w.bus) { tick = suc (suc (suc w.bus.tick)) } },
      )
  unfolding transceive transceive_loop transceive_round got
  transceive-silent fuel frame expected w kind empty =
      let same : Stub.send (w.bus.clock w.bus.tick) frame w.bus.stub ≡ w.bus.stub =
        rw kind at (send-Replies (w.bus.clock w.bus.tick) frame w.bus.stub) in
      let nothing : Stub.receive w.bus.stub ≡ (none, w.bus.stub) =
        unfold Stub.receive in rw empty in
      let deadline = w.bus.clock (suc w.bus.tick) + w.motor.config.response_timeout * 1000000 in
      elim (Bool-cases (leb deadline (w.bus.clock (suc (suc w.bus.tick))))) [
        | inl late ↦ rw (same, late)
        | inr early ↦ rw (same, early, nothing)
      ]
