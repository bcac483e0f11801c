-- ===== src/Tests.antt =====
-- Tests of the definitions, and the theorems at concrete inputs.
mod Data
mod Wire
mod Serial
mod Bus
mod Turns
mod Socket
mod Drive
mod Crowd
mod Abstract
mod Relay
mod Line
mod Bench
