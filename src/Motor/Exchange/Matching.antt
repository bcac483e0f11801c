-- ===== src/Motor/Exchange/Matching.antt =====
-- What an exchange returns, for every transport: a frame of this motor and of the expected type,
-- with its feedback cached.
use robstride_driver.Common.{
  ℕ, zero, suc, Bool, true, false, not, if◌then◌else◌, ◌≡◌, refl, sym, ap, ◌∙◌, arith, Option, none,
  some, ok, err, Error, Call, finished, waiting, ◌==◌, leb,
}
use robstride_driver.Double.{Double}
use robstride_driver.Protocol.Types.{CanFrame, CommType, comm_type_value, Feedback}
use robstride_driver.Protocol.Limits.{ActuatorLimits}
use robstride_driver.Protocol.Ids.{get_comm_type, get_source_motor_id}
use robstride_driver.Protocol.Decode.{parse_feedback, has_type}
use robstride_driver.Motor.Monad.{CanInterface, Config, World, M, continue, pure}
use robstride_driver.Motor.Exchange.{
  remember, feedback_or_throw, cache, judge, got, transceive_round, transceive_loop, transceive,
  transceive_feedback,
}

-- `P` holds of what is returned and `E` of what is thrown; a call that still waits promises nothing.
abbrev pub Ensures {ℓ} :
    {S : Type ℓ} {A : Type 0} → (A → S → Type 0) → (Error → S → Type 0) → Call A × S → Type 0
Ensures P E (finished (ok a), w) = P a w
Ensures P E (finished (err e), w) = E e w
Ensures P E (waiting, w) = Unit

pub continue-Ensures {ℓ} :
    {S : Type ℓ} {A B : Type 0} (P : A → S → Type 0) (Q : B → S → Type 0) (E : Error → S → Type 0)
    (f : A → S → Call B × S) (r : Call A × S)
    → Ensures P E r
    → ((a : A) (w : S) → P a w → Ensures Q E (f a w))
    → Ensures Q E (continue f r)
continue-Ensures P Q E f (finished (ok a), w) h next = next a w h
continue-Ensures P Q E f (finished (err e), w) h next = h
continue-Ensures P Q E f (waiting, w) h next = tt

module _ {S A : Type 0} (P : A → S → Type 0) (E : Error → S → Type 0) where
  pub if-Ensures :
      (b : Bool) (m k : S → Call A × S) (w : S)
      → (b ≡ true → Ensures P E (m w))
      → (b ≡ false → Ensures P E (k w))
      → Ensures P E ((if b then m else k) w)
  if-Ensures true m k w h g = h refl
  if-Ensures false m k w h g = g refl

pub parse_feedback_source :
    {D : Type 0} ⦃d : Double D⦄ (l : ActuatorLimits D) (f : CanFrame) (fb : Feedback D)
    → parse_feedback f l ≡ some fb
    → fb.motor_id ≡ get_source_motor_id f
unfolding parse_feedback
parse_feedback_source l f fb e = ground arith

module _ {D W : Type 0} ⦃d : Double D⦄ ⦃can : CanInterface W⦄ (c : Config)
    (l : ActuatorLimits D) where
  -- The settings of the motor, which no call changes.
  abbrev pub Fits : World D W → Type 0
  Fits w = (w.motor.config ≡ c) × (w.motor.limits ≡ l)

  abbrev pub IsCached : CanFrame → World D W → Type 0
  IsCached f w = (fb : Feedback D) → parse_feedback f l ≡ some fb → w.motor.last_feedback ≡ some fb

  abbrev pub Matches : CommType → CanFrame → World D W → Type 0
  Matches expected f w =
      Fits w
      × (get_source_motor_id f ≡ c.motor_id)
      × (get_comm_type f ≡ comm_type_value expected)
      × IsCached f w

  abbrev pub Thrown : Error → World D W → Type 0
  Thrown e w = Fits w

  module _ (expected : CommType) where
    remember-Ensures :
        (f : CanFrame) (w : World D W) (o : Option (Feedback D))
        → Fits w
        → parse_feedback f l ≡ o
        → Ensures (λ (u : Unit {0}) w'. Fits w' × IsCached f w') Thrown (remember o w)
    unfolding remember
    remember-Ensures f w none fits e = (fits, λ fb p. cc)
    remember-Ensures f w (some fb) fits e = (fits, λ fb' p. cc)

    abbrev Good : Call CanFrame × World D W → Type 0
    Good = Ensures (Matches expected) Thrown

    judge-Ensures :
        (f : CanFrame) (again : M D W CanFrame) (w : World D W)
        → Fits w
        → ((w' : World D W) → Fits w' → Good (again w'))
        → Good (judge expected again f w)
    unfolding judge cache
    judge-Ensures f again w fits h =
        let ours = get_source_motor_id f == w.motor.config.motor_id in
        let seen : Ensures (λ (u : Unit {0}) w'. Fits w' × IsCached f w') Thrown (cache f w) =
          remember-Ensures f w (parse_feedback f w.motor.limits) fits
            (ap (parse_feedback f) (sym fits.1)) in
        if-Ensures (Matches expected) Thrown (not ours) again _ w (λ _. h w fits)
          λ mine.
            continue-Ensures (λ u w'. Fits w' × IsCached f w') (Matches expected) Thrown _
              (cache f w) seen
              λ u w' cached.
                if-Ensures (Matches expected) Thrown (has_type f expected) (pure f) again w'
                  (λ typed. (cached.0, ground arith, ground arith, cached.1)) (λ _. h w' cached.0)

    got-Ensures :
        (o : Option CanFrame) (again : M D W CanFrame) (w : World D W)
        → Fits w
        → ((w' : World D W) → Fits w' → Good (again w'))
        → Good (got expected again o w)
    unfolding got
    got-Ensures none again w fits h = fits
    got-Ensures (some f) again w fits h = judge-Ensures f again w fits h

    received-Ensures :
        (r : Call (Option CanFrame)) (again : M D W CanFrame) (w : World D W)
        → Fits w
        → ((w' : World D W) → Fits w' → Good (again w'))
        → Good (continue (got expected again) (r, w))
    received-Ensures (finished (ok o)) again w fits h = got-Ensures o again w fits h
    received-Ensures (finished (err e)) again w fits h = fits
    received-Ensures waiting again w fits h = tt

    transceive_loop-Ensures :
        (fuel deadline : ℕ) (w : World D W)
        → Fits w
        → Good (transceive_loop fuel deadline expected w)
    unfolding transceive_loop transceive_round
    transceive_loop-Ensures zero deadline w fits = tt
    transceive_loop-Ensures (suc fuel) deadline w fits =
        if-Ensures (Matches expected) Thrown (leb deadline (can.now w.bus).0) _ _ _ (λ _. fits)
          λ _.
            received-Ensures _ (transceive_loop fuel deadline expected) _ fits
              (transceive_loop-Ensures fuel deadline)

    sent-Ensures :
        (r : Call (Unit {0})) (next : M D W CanFrame) (w : World D W)
        → Fits w
        → ((w' : World D W) → Fits w' → Good (next w'))
        → Good (continue (λ _. next) (r, w))
    sent-Ensures (finished (ok u)) next w fits h = h w fits
    sent-Ensures (finished (err e)) next w fits h = fits
    sent-Ensures waiting next w fits h = tt

    -- Over every transport, a frame that `transceive` returns comes from the configured motor and
    -- has the expected type, and if it is feedback, it is in the cache. Returning or throwing, the
    -- call leaves the configuration and the limits.
    pub transceive-Ensures :
        (fuel : ℕ) (frame : CanFrame) (w : World D W)
        → Fits w
        → Ensures (Matches expected) Thrown (transceive fuel frame expected w)
    unfolding transceive
    transceive-Ensures fuel frame w fits =
        sent-Ensures (can.send frame w.bus).0 _ _ fits
          λ w' fits'. transceive_loop-Ensures fuel _ _ fits'

  -- The feedback that a command returns is that of this motor, and is what `last_feedback` holds.
  abbrev pub IsLatest : Feedback D → World D W → Type 0
  IsLatest fb w = Fits w × (fb.motor_id ≡ c.motor_id) × (w.motor.last_feedback ≡ some fb)

  feedback_or_throw-Ensures :
      (f : CanFrame) (o : Option (Feedback D)) (w : World D W)
      → Matches CommType.feedback f w
      → parse_feedback f l ≡ o
      → Ensures IsLatest Thrown (feedback_or_throw o w)
  unfolding feedback_or_throw
  feedback_or_throw-Ensures f none w m e = m.0
  feedback_or_throw-Ensures f (some fb) w (fits, source, _, cached) e =
      (fits, parse_feedback_source l f fb e ∙ source, cached fb e)

  -- Over every transport, the feedback that `transceive_feedback` returns is that of the
  -- configured motor, and is what `last_feedback` holds then. Returning or throwing, the call
  -- leaves the configuration and the limits.
  pub transceive_feedback-Ensures :
      (fuel : ℕ) (frame : CanFrame) (w : World D W)
      → Fits w
      → Ensures IsLatest Thrown (transceive_feedback fuel frame w)
  unfolding transceive_feedback
  transceive_feedback-Ensures fuel frame w fits =
      continue-Ensures (Matches CommType.feedback) IsLatest Thrown _ _
        (transceive-Ensures CommType.feedback fuel frame w fits)
        λ f w' m.
          feedback_or_throw-Ensures f (parse_feedback f w'.motor.limits) w' m
            (ap (parse_feedback f) (sym m.0.1))
