-- ===== src/Motor/Exchange/Ending.antt =====
-- An exchange ends: the clock passes the deadline after a bounded number of rounds.
use robstride_driver.Common.{
  ℕ, zero, suc, true, not, ◌+◌, ◌*◌, ◌-◌, ◌/◌, ◌≤◌, ◌<◌, ◌≡◌, ◌≢◌, refl, arith, Bool-cases, Option,
  none, some, ok, err, Call, finished, waiting, leb, ◌==◌, inl, inr,
}
use robstride_driver.Double.{Double}
use robstride_driver.Protocol.Types.{CanFrame, CommType, Feedback}
use robstride_driver.Protocol.Ids.{get_source_motor_id}
use robstride_driver.Protocol.Decode.{parse_feedback, has_type}
use robstride_driver.Motor.Monad.{CanInterface, World, M, continue, pure}
use robstride_driver.Motor.Exchange.{
  remember, cache, judge, got, transceive_round, transceive_loop, transceive,
}

-- A transport whose clock goes on: each reading is later than the one before, a call of `receive`
-- does not turn it back, and calls of `send` and `receive` come to an end.
pub record Ticking {W : Type 0} (can : CanInterface W) : Type 0 where
  pub time : W → ℕ
  pub reads : (w : W) → (can.now w).0 ≡ time w
  pub moves : (w : W) → time w < time (can.now w).1
  pub waits : (t : ℕ) (w : W) → time w ≤ time (can.receive t w).1
  pub sends_end : (f : CanFrame) (w : W) → (can.send f w).0 ≢ waiting
  pub receives_end : (t : ℕ) (w : W) → (can.receive t w).0 ≢ waiting

module _ {D W : Type 0} ⦃d : Double D⦄ ⦃can : CanInterface W⦄ (ticking : Ticking can) where
  abbrev Ends : {A : Type 0} → Call A × World D W → Type 0
  Ends r = r.0 ≢ waiting

  -- The loop ends from every world that is not before the time `t`.
  abbrev EndsFrom : ℕ → M D W CanFrame → Type 0
  EndsFrom t m = (w : World D W) → t ≤ ticking.time w.bus → Ends (m w)

  remember-Ends :
      (o : Option (Feedback D)) (k : M D W CanFrame) (t : ℕ) (w : World D W)
      → EndsFrom t k
      → t ≤ ticking.time w.bus
      → Ends (continue (λ _. k) (remember o w))
  unfolding remember
  remember-Ends none k t w h le = h w le
  remember-Ends (some fb) k t w h le =
      h (record w { motor = record (w.motor) { last_feedback = some fb } }) le

  judge_ends :
      (expected : CommType) (f : CanFrame) (again : M D W CanFrame) (t : ℕ)
      → EndsFrom t again
      → EndsFrom t (judge expected again f)
  unfolding judge cache
  judge_ends expected f again t h w le =
      elim (Bool-cases (not (get_source_motor_id f == w.motor.config.motor_id))) [
        | inl other ↦ rw other (h w le)
        | inr mine ↦ rw mine (elim (Bool-cases (has_type f expected)) [
          | inl right ↦
              rw right
                (remember-Ends (parse_feedback f w.motor.limits) (pure f) t w (λ w' _ e. cc) le)
          | inr wrong ↦ rw wrong (remember-Ends (parse_feedback f w.motor.limits) again t w h le)
        ])
      ]

  got-Ends :
      (expected : CommType) (r : Call (Option CanFrame)) (again : M D W CanFrame) (t : ℕ)
      (w : World D W)
      → EndsFrom t again
      → t ≤ ticking.time w.bus
      → r ≢ waiting
      → Ends (continue (got expected again) (r, w))
  unfolding got
  got-Ends expected (finished (ok none)) again t w h le ne = λ e. cc
  got-Ends expected (finished (ok (some f))) again t w h le ne =
      judge_ends expected f again t h w le
  got-Ends expected (finished (err x)) again t w h le ne = λ e. cc
  got-Ends expected waiting again t w h le ne = absurd (ne refl)

  transceive_loop_ends :
      (fuel deadline t : ℕ) (expected : CommType)
      → deadline ≤ fuel + t
      → EndsFrom t (transceive_loop (suc fuel) deadline expected)
  unfolding transceive_loop transceive_round
  transceive_loop_ends zero deadline t expected enough w le =
      let late : leb deadline (can.now w.bus).0 ≡ true = ground (arith, ticking.reads w.bus) in
      rw late (λ e. cc)
  transceive_loop_ends (suc fuel) deadline t expected enough w le =
      let bus = (can.now w.bus).1 in
      let span = (deadline - (can.now w.bus).0) / 1000000 in
      elim (Bool-cases (leb deadline (can.now w.bus).0)) [
        | inl late ↦ rw late (λ e. cc)
        | inr early ↦ rw early (
            got-Ends expected (can.receive span bus).0
              (transceive_loop (suc fuel) deadline expected) (suc t) _
              (transceive_loop_ends fuel deadline (suc t) expected (omega arith))
              (omega (arith, ticking.moves w.bus, ticking.waits span bus))
              (ticking.receives_end span bus))
      ]

  sent-Ends :
      (r : Call (Unit {0})) (next : M D W CanFrame) (w : World D W)
      → Ends (next w)
      → r ≢ waiting
      → Ends (continue (λ _. next) (r, w))
  sent-Ends (finished (ok u)) next w h ne = h
  sent-Ends (finished (err x)) next w h ne = λ e. cc
  sent-Ends waiting next w h ne = absurd (ne refl)

  -- On a clock of which each reading is later than the one before, and over a transport of which
  -- the calls of `send` and `receive` come to an end, an exchange returns or throws, if its loop
  -- may take as many rounds as the timeout has nanoseconds, and one more.
  pub transceive_ends :
      (fuel : ℕ) (frame : CanFrame) (expected : CommType) (w : World D W)
      → w.motor.config.response_timeout * 1000000 < fuel
      → (transceive fuel frame expected w).0 ≢ waiting
  unfolding transceive
  transceive_ends zero frame expected w h = absurd (omega arith)
  transceive_ends (suc fuel) frame expected w h =
      let bus = (can.send frame w.bus).1 in
      sent-Ends (can.send frame w.bus).0 _ _
        (transceive_loop_ends fuel _ (can.now bus).0 expected (omega arith) _
          (omega (arith, ticking.reads bus, ticking.moves bus)))
        (ticking.sends_end frame w.bus)
