-- ===== src/Protocol/Limits.antt =====
-- actuator_types.hpp, and the table of ranges in protocol.cpp.
use robstride_driver.Common.{ℕ, List, [], ◌∷◌, Result, ok, err, out_of_range, zero, suc}
use robstride_driver.Double.{Double}

pub data ActuatorType : Type 0 where
  rs00 rs01 rs02 rs03 rs04 rs05 rs06 : ActuatorType
  other : ℕ → ActuatorType

abbrev pub actuator_type_value : ActuatorType → ℕ
actuator_type_value rs00 = 0
actuator_type_value rs01 = 1
actuator_type_value rs02 = 2
actuator_type_value rs03 = 3
actuator_type_value rs04 = 4
actuator_type_value rs05 = 5
actuator_type_value rs06 = 6
actuator_type_value (other n) = n

pub record ActuatorLimits (D : Type 0) : Type 0 where
  pub position : D
  pub velocity : D
  pub torque : D
  pub kp_max : D
  pub kd_max : D

-- The element at an index, or the exception for one past the end.
at_or_throw {ℓ} : {A : Type ℓ} → List A → ℕ → Result A
at_or_throw [] i = err out_of_range
at_or_throw (x ∷ xs) zero = ok x
at_or_throw (x ∷ xs) (suc i) = at_or_throw xs i

module _ {D : Type 0} ⦃d : Double D⦄ where
  open d use {of_ℕ, pi, mul}

  -- A row of the table. Every model has the position range 4 * pi.
  abbrev row : ℕ → ℕ → ℕ → ℕ → ActuatorLimits D
  row velocity torque kp_max kd_max = record {
    position = mul (of_ℕ 4) pi;
    velocity = of_ℕ velocity;
    torque = of_ℕ torque;
    kp_max = of_ℕ kp_max;
    kd_max = of_ℕ kd_max;
  }

  pub limits_table : List (ActuatorLimits D)
  limits_table =
      row 50 17 500 5
      ∷ row 44 17 500 5
      ∷ row 44 17 500 5
      ∷ row 50 60 5000 100
      ∷ row 15 120 5000 100
      ∷ row 33 17 500 5
      ∷ row 20 36 5000 100
      ∷ []

  unfoldable pub get_actuator_limits : ActuatorType → Result (ActuatorLimits D)
  unfolding limits_table at_or_throw
  get_actuator_limits type = at_or_throw limits_table (actuator_type_value type)
