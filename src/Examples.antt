-- ===== src/Examples.antt =====
-- examples: the programs that run a motor through a profile of targets and record what it reports,
-- and velocity_control.
pub mod Process
pub mod Setup
pub mod Profile
pub mod Captures
pub mod Velocity
pub mod Mains
pub mod Records
pub mod Attains
