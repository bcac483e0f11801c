-- ===== src/Servo/Fleet.antt =====
-- Several drivers that share a transport, as several `RobstrideMotor`s hold one
-- `std::shared_ptr<CanInterface>`.
use robstride_driver.Common.{
  ℕ, suc, ◌<◌, ◌≡◌, ◌≢◌, ◌∙◌, refl, sym, ap, arith, if◌then◌else◌, ◌==◌, List, [], ◌∷◌, All, Call,
  ok, finished, Bool-cases, inl, inr,
}
use mathlib.Core.Path.{subst}
use robstride_driver.Double.{Double}
use robstride_driver.Protocol.Limits.{ActuatorLimits}
use robstride_driver.Motor.Monad.{CanInterface, Config, Motor, World, M, ◌>>=◌, pure}
use robstride_driver.Motor.Simulated.{Bench, stub_can}
use robstride_driver.Servo.{Servo, Command, Reply, next, answer}
use robstride_driver.Servo.Abstracts.{Abstracts}
use robstride_driver.Servo.Runs.{Refines, Later}
use robstride_driver.Servo.Refines.{perform, IsUsable, perform-Runs}

pub record Fleet (D W : Type 0) : Type 0 where
  pub drivers : ℕ → Motor D
  pub bus : W

-- A value of a family at one of its places.
abbrev pub update : {A : Type 0} → ℕ → A → (ℕ → A) → ℕ → A
update k a f j = if j == k then a else f j

abbrev pub world_of : {D W : Type 0} → ℕ → Fleet D W → World D W
world_of k f = record { motor = f.drivers k; bus = f.bus }

-- A call of the driver `k`.
abbrev pub on : {D W A : Type 0} → ℕ → M D W A → Fleet D W → Call A × Fleet D W
on k m f =
    let (r, w) = m (world_of k f) in
    (r, record { drivers = update k w.motor f.drivers; bus = w.bus })

-- Calls of the drivers, in any order.
unfoldable pub perform_each :
    {D W : Type 0}
    → ⦃d : Double D⦄ → ⦃can : CanInterface W⦄ → ℕ
    → List (ℕ × Command D)
    → Fleet D W
    → Call (List (Reply D)) × Fleet D W
perform_each fuel [] = pure []
perform_each fuel ((k, c) ∷ cs) = do
  r ← on k (perform fuel c)
  rs ← perform_each fuel cs
  pure (r ∷ rs)

module _ {D : Type 0} ⦃d : Double D⦄ where
  -- The same commands, given to motors that know nothing of one another.
  abbrev pub after_each : List (ℕ × Command D) → (ℕ → Servo) → ℕ → Servo
  after_each [] servos = servos
  after_each ((k, c) ∷ cs) servos = after_each cs (update k (next c (servos k)) servos)

  abbrev pub answers_each : D → List (ℕ × Command D) → (ℕ → Servo) → List (Reply D)
  answers_each limit [] servos = []
  answers_each limit ((k, c) ∷ cs) servos =
      let s = next c (servos k) in answer limit c s ∷ answers_each limit cs (update k s servos)

  -- The first `n` drivers have ids of their own, and each has a ready bus and a motor.
  abbrev pub HaveOwnIds : ℕ → Fleet D (Bench D) → Type 0
  HaveOwnIds n f =
      (j k : ℕ)
      → j < n
      → k < n
      → j ≢ k
      → (f.drivers j).config.motor_id ≢ (f.drivers k).config.motor_id

  abbrev pub AllUsable : ℕ → List (ℕ × Command D) → Type 0
  AllUsable n cs = All (λ (x : ℕ × Command D). (x.0 < n) × IsUsable x.1) cs

  module _ (l : ActuatorLimits D) where
    abbrev pub AllRefine : ℕ → Fleet D (Bench D) → (ℕ → Servo) → Type 0
    AllRefine n f servos = (k : ℕ) → k < n → Refines l (world_of k f) (servos k)

    -- A call of one driver spares the motor of another one.
    spared :
        (m : Motor D) (w w' : World D (Bench D)) (s t : Servo)
        → Refines l (record { motor = m; bus = w.bus }) t
        → Refines l w' s
        → Later w w'
        → w.motor.config.motor_id ≢ m.config.motor_id
        → Refines l (record { motor = m; bus = w'.bus }) t
    spared m w w' s t r r' h ne = record {
      ready = record {
        idle = r'.ready.idle;
        on_time = λ i. rw h.clock (r.ready.on_time i);
        motor_byte = r.ready.motor_byte;
        host_byte = r.ready.host_byte;
        scaled_alike = r'.ready.scaled_alike ∙ r'.limits ∙ sym r.limits;
      };
      limits = r.limits;
      abstracts = subst (λ x. Abstracts x t) (sym (h.others m.config.motor_id ne)) r.abstracts;
    }

    module _ (n k : ℕ) (f : Fleet D (Bench D)) (w' : World D (Bench D)) (servos : ℕ → Servo)
        (s : Servo) (own : HaveOwnIds n f) (in_range : k < n) (h : Later (world_of k f) w') where
      abbrev f' : Fleet D (Bench D)
      f' = record { drivers = update k w'.motor f.drivers; bus = w'.bus }

      update-AllRefine : Refines l w' s → AllRefine n f servos → AllRefine n f' (update k s servos)
      update-AllRefine r' all j lt = elim (Bool-cases (j == k)) [
        | inl e ↦ rw e r'
        | inr e ↦ rw e (
            spared (f.drivers j) (world_of k f) w' s (servos j) (all j lt) r' h
              (own k j in_range lt (ground arith)))
      ]

      id-update : (j : ℕ) → (f'.drivers j).config.motor_id ≡ (f.drivers j).config.motor_id
      id-update j = elim (Bool-cases (j == k)) [
        | inl e ↦ rw e (
            ap (λ (c : Config). c.motor_id) h.config
            ∙ ap (λ i. (f.drivers i).config.motor_id) (ground arith))
        | inr e ↦ rw e refl
      ]

      update-HaveOwnIds : HaveOwnIds n f'
      update-HaveOwnIds i j hi hj ne = λ e. own i j hi hj ne (sym (id-update i) ∙ e ∙ id-update j)

    -- Over a ready simulated bus that several drivers share, each with a motor id of its own and
    -- each motor standing for an abstract motor, any interleaving of usable calls of these drivers
    -- runs without an exception. Each call answers as the abstract motor of its driver alone, with
    -- that motor's earlier calls and no others, and every motor stands for its abstract motor
    -- afterwards.
    pub perform_each_lem :
        (fuel n : ℕ) (cs : List (ℕ × Command D)) (f : Fleet D (Bench D)) (servos : ℕ → Servo)
        → AllUsable n cs
        → HaveOwnIds n f
        → AllRefine n f servos
        → (f' : Fleet D (Bench D)) × (perform_each (suc fuel) cs f
            ≡ (finished (ok (answers_each l.velocity cs servos)), f'))
          × AllRefine n f' (after_each cs servos)
    unfolding perform_each
    perform_each_lem fuel n [] f servos u own all = (f, refl, all)
    perform_each_lem fuel n ((k, c) ∷ cs) f servos ((lt, usable), us) own all =
        let (x, w', e, is, r, h) =
          perform-Runs l fuel c (world_of k f) (servos k) usable (all k lt) in
        let s = next c (servos k) in
        let (f2, e2, all2) =
          perform_each_lem fuel n cs
            (record { drivers = update k w'.motor f.drivers; bus = w'.bus }) (update k s servos) us
            (update-HaveOwnIds n k f w' servos s own lt h)
            (update-AllRefine n k f w' servos s own lt h r all) in
        (f2, rw (e, is, e2), all2)
