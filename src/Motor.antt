-- ===== src/Motor.antt =====
-- include/robstride_driver/can_interface.hpp, robstride_motor.hpp and src/robstride_motor.cpp: the
-- driver of one motor over an abstract transport.
pub mod Monad
pub mod Exchange
pub mod Commands
pub mod Alike
pub mod Own
pub mod Simulated
